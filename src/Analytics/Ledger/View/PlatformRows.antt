-- ===== src/Analytics/Ledger/View/PlatformRows.antt =====
-- One upsert of PlatformDayRepo or OrderContextRepo and the row that it hits.
use quick_bite_analytics_ser.Prelude.{ℤ, pos, String, Option, none, some, List, [], ◌∷◌, ◌≡◌, arith}
use quick_bite_analytics_ser.Mongo.Bson.{Doc, Value, datetime}
use quick_bite_analytics_ser.Go.Time.{Time}
use quick_bite_analytics_ser.Analytics.Ledger.{
  placed_platform, delivered_platform, rejected_platform, paid_platform,
}
use quick_bite_analytics_ser.Analytics.Ledger.View.{platform_totals, known}
use quick_bite_analytics_ser.Analytics.Ledger.View.Rows.{After}
use quick_bite_analytics_ser.Analytics.Repository.PlatformDays.{platform_key, platform_update}
use quick_bite_analytics_ser.Analytics.Repository.OrderContexts.{context_key, context_update}

module _ (date currency : String) (now : Value) (o o' : Option Doc) where
  -- the upsert with these increments
  abbrev PlatformAfter : List (String × ℤ) → Type 0
  PlatformAfter inc =
      After (platform_key date currency) (platform_update date currency inc now) o o'

  pub placed_platform_hit :
      (total : ℤ)
      → PlatformAfter (("orders_count", pos 1) ∷ ("revenue_sum", total) ∷ [])
      → platform_totals o' ≡ placed_platform total (platform_totals o)
  placed_platform_hit total h = ground (
    arith,
    h "orders_count",
    h "revenue_sum",
    h "delivery_ms_sum",
    h "delivery_ms_count",
    h "failed_count",
    h "online_payments_count",
    h "online_payments_amount_sum",
  )

  pub delivered_platform_hit :
      (ms : ℤ)
      → PlatformAfter (("delivery_ms_sum", ms) ∷ ("delivery_ms_count", pos 1) ∷ [])
      → platform_totals o' ≡ delivered_platform ms (platform_totals o)
  delivered_platform_hit ms h = ground (
    arith,
    h "orders_count",
    h "revenue_sum",
    h "delivery_ms_sum",
    h "delivery_ms_count",
    h "failed_count",
    h "online_payments_count",
    h "online_payments_amount_sum",
  )

  pub rejected_platform_hit :
      PlatformAfter (("failed_count", pos 1) ∷ [])
      → platform_totals o' ≡ rejected_platform (platform_totals o)
  rejected_platform_hit h = ground (
    arith,
    h "orders_count",
    h "revenue_sum",
    h "delivery_ms_sum",
    h "delivery_ms_count",
    h "failed_count",
    h "online_payments_count",
    h "online_payments_amount_sum",
  )

  pub paid_platform_hit :
      (amount : ℤ)
      → PlatformAfter
          (("online_payments_count", pos 1) ∷ ("online_payments_amount_sum", amount) ∷ [])
      → platform_totals o' ≡ paid_platform amount (platform_totals o)
  paid_platform_hit amount h = ground (
    arith,
    h "orders_count",
    h "revenue_sum",
    h "delivery_ms_sum",
    h "delivery_ms_count",
    h "failed_count",
    h "online_payments_count",
    h "online_payments_amount_sum",
  )

pub context_hit :
    (order_id currency : String) (placed_at : Time) (now : Value) (o o' : Option Doc)
    → After (context_key order_id) (context_update order_id currency (datetime placed_at) now) o o'
    → known o' ≡ some (record { currency = currency; placed_at = placed_at })
context_hit order_id currency placed_at now o none h = ground (arith, h "currency")
context_hit order_id currency placed_at now o (some d) h =
    ground (arith, h "currency", h "placed_at")
