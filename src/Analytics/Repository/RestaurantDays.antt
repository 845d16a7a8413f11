-- ===== src/Analytics/Repository/RestaurantDays.antt =====
-- app/analytics/repository/restaurant_day.repo.go. `day` is `UTC().Format("2006-01-02")`.
use quick_bite_analytics_ser.Prelude.{ℤ, pos, String, List, [], ◌∷◌}
use quick_bite_analytics_ser.Go.Effect.{Result, ok, Eff, reads, ◌>>=◌}
use quick_bite_analytics_ser.Go.Time.{Time}
use quick_bite_analytics_ser.Mongo.Bson.{
  Doc, Update, Value, int, text, datetime, equals, between, greater, Query, Stage, matching,
  grouping, counting,
}
use quick_bite_analytics_ser.Mongo.Driver.{Mongo}
use quick_bite_analytics_ser.Analytics.Types.{OnOrderPlacedInput}
use quick_bite_analytics_ser.Analytics.Entity.{RestaurantDay}
use quick_bite_analytics_ser.Analytics.Decode.{decode_restaurant_day, decode_all, get_int}
use quick_bite_analytics_ser.Analytics.Repository.Collections.{coll_restaurant_day}

abbrev pub restaurant_key : ℤ → String → Doc
restaurant_key restaurant_id date = ("restaurant_id", int restaurant_id) ∷ ("date", text date) ∷ []

abbrev pub restaurant_update : ℤ → String → List (String × ℤ) → Doc → Value → Update
restaurant_update restaurant_id date inc extra_set now = record {
  inc = inc;
  set = ("updated_at", now) ∷ extra_set;
  set_on_insert = restaurant_key restaurant_id date;
}

-- {restaurant_id: id, date: {$gte: from, $lte: to}}
abbrev pub restaurant_range : ℤ → String → String → Query
restaurant_range restaurant_id from to =
    ("restaurant_id", equals (int restaurant_id)) ∷ ("date", between from to) ∷ []

abbrev pub active_pipeline : String → String → List Stage
active_pipeline from to =
    matching (("date", between from to) ∷ ("orders_count", greater (pos 0)) ∷ [])
    ∷ grouping "restaurant_id" []
    ∷ counting "count"
    ∷ []

module _ (m : Mongo) where
  unfoldable pub upsert : ℤ → String → List (String × ℤ) → Doc → Eff m.World Unit
  upsert restaurant_id date inc extra_set w =
      m.update_one coll_restaurant_day (restaurant_key restaurant_id date)
        (restaurant_update restaurant_id date inc extra_set (datetime (m.stored_time (m.now w)))) w

  unfoldable pub apply_order_placed : (Time → String) → OnOrderPlacedInput → Eff m.World Unit
  unfolding upsert
  apply_order_placed day input =
      upsert input.restaurant_id (day input.placed_at)
        (("orders_count", pos 1) ∷ ("revenue_sum", input.total_minor) ∷ [])
        (("currency", text input.currency) ∷ [])

  unfoldable pub apply_order_delivered : ℤ → String → ℤ → Eff m.World Unit
  unfolding upsert
  apply_order_delivered restaurant_id date delivery_ms =
      upsert restaurant_id date
        (("delivery_ms_sum", delivery_ms) ∷ ("delivery_ms_count", pos 1) ∷ []) []

  unfoldable pub apply_order_rejected : ℤ → String → Eff m.World Unit
  unfolding upsert
  apply_order_rejected restaurant_id date =
      upsert restaurant_id date (("failed_count", pos 1) ∷ []) []

  -- the count of the first result, 0 if there is none
  abbrev first_count : List Doc → Result ℤ
  first_count [] = ok (pos 0)
  first_count (d ∷ _) = get_int m.decode_error d "count"

  unfoldable pub count_active_in_range : String → String → Eff m.World ℤ
  count_active_in_range from to = do
    results ← reads (m.aggregate coll_restaurant_day (active_pipeline from to))
    reads (λ _. first_count results)

  unfoldable pub find_by_date_range : ℤ → String → String → Eff m.World (List RestaurantDay)
  find_by_date_range restaurant_id from to = do
    docs ← reads (m.find coll_restaurant_day (restaurant_range restaurant_id from to) ("date" ∷ []))
    reads (λ _. decode_all (decode_restaurant_day m.decode_error) docs)
