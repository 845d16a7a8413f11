-- ===== src/Analytics/Repository/PlatformDays.antt =====
-- app/analytics/repository/platform_day.repo.go
use quick_bite_analytics_ser.Prelude.{ℤ, pos, String, List, [], ◌∷◌}
use quick_bite_analytics_ser.Go.Effect.{Eff, reads, ◌>>=◌}
use quick_bite_analytics_ser.Mongo.Bson.{
  Doc, Update, Value, text, datetime, Query, between, Stage, matching, grouping, sorting,
}
use quick_bite_analytics_ser.Mongo.Driver.{Mongo}
use quick_bite_analytics_ser.Analytics.Entity.{PlatformDay, PlatformDayCurrencyTotals}
use quick_bite_analytics_ser.Analytics.Decode.{
  decode_platform_day, decode_currency_totals, decode_all,
}
use quick_bite_analytics_ser.Analytics.Repository.Collections.{coll_platform_day}

abbrev pub platform_key : String → String → Doc
platform_key date currency = ("date", text date) ∷ ("currency", text currency) ∷ []

abbrev pub platform_update : String → String → List (String × ℤ) → Value → Update
platform_update date currency inc now = record {
  inc = inc;
  set = ("updated_at", now) ∷ [];
  set_on_insert = platform_key date currency;
}

abbrev pub platform_range : String → String → Query
platform_range from to = ("date", between from to) ∷ []

abbrev pub summary_pipeline : String → String → List Stage
summary_pipeline from to =
    matching (platform_range from to)
    ∷ grouping "currency" (
        ("orders_count", "orders_count")
        ∷ ("revenue_sum", "revenue_sum")
        ∷ ("failed_count", "failed_count")
        ∷ ("delivery_ms_sum", "delivery_ms_sum")
        ∷ ("delivery_ms_count", "delivery_ms_count")
        ∷ ("online_payments_count", "online_payments_count")
        ∷ ("online_payments_amount_sum", "online_payments_amount_sum")
        ∷ [])
    ∷ sorting ("_id" ∷ [])
    ∷ []

module _ (m : Mongo) where
  unfoldable pub upsert : String → String → List (String × ℤ) → Eff m.World Unit
  upsert date currency inc w =
      m.update_one coll_platform_day (platform_key date currency)
        (platform_update date currency inc (datetime (m.stored_time (m.now w)))) w

  unfoldable pub apply_order_placed : String → String → ℤ → Eff m.World Unit
  unfolding upsert
  apply_order_placed date currency total_minor =
      upsert date currency (("orders_count", pos 1) ∷ ("revenue_sum", total_minor) ∷ [])

  unfoldable pub apply_order_delivered : String → String → ℤ → Eff m.World Unit
  unfolding upsert
  apply_order_delivered date currency delivery_ms =
      upsert date currency (("delivery_ms_sum", delivery_ms) ∷ ("delivery_ms_count", pos 1) ∷ [])

  unfoldable pub apply_order_rejected : String → String → Eff m.World Unit
  unfolding upsert
  apply_order_rejected date currency = upsert date currency (("failed_count", pos 1) ∷ [])

  unfoldable pub apply_payment_completed : String → String → ℤ → Eff m.World Unit
  unfolding upsert
  apply_payment_completed date currency amount_minor =
      upsert date currency
        (("online_payments_count", pos 1) ∷ ("online_payments_amount_sum", amount_minor) ∷ [])

  unfoldable pub find_by_date_range : String → String → Eff m.World (List PlatformDay)
  find_by_date_range from to = do
    docs ← reads (m.find coll_platform_day (platform_range from to) ("date" ∷ "currency" ∷ []))
    reads (λ _. decode_all (decode_platform_day m.decode_error) docs)

  unfoldable pub summary_by_currency :
      String → String → Eff m.World (List PlatformDayCurrencyTotals)
  summary_by_currency from to = do
    docs ← reads (m.aggregate coll_platform_day (summary_pipeline from to))
    reads (λ _. decode_all (decode_currency_totals m.decode_error) docs)
