-- ===== src/Analytics/Service/Reads.antt =====
-- The query side of app/analytics/service/analytics.service.go. float64 is a type `F` with the
-- operations that the service uses.
pub mod Average
pub mod Ranged
pub mod Listing
pub mod Reports
pub mod BranchReports
pub mod Currencies
pub mod Summary
pub mod Ranges
use quick_bite_analytics_ser.Prelude.{
  ℤ, pos, ltb_ℤ, String, ltb_text, List, [], ◌∷◌, map, if◌then◌else◌,
}
use quick_bite_analytics_ser.Go.Effect.{Eff, Result, return, throw, ◌>>=◌}
use quick_bite_analytics_ser.Go.Int64.{if_so, quotient}
use quick_bite_analytics_ser.Mongo.Driver.{Mongo}
use quick_bite_analytics_ser.Analytics.Types.{
  RestaurantDayRow, BranchDayRow, ProductDayRow, PlatformDayRow, FailureRow, DeliveryAvgRow,
  PlatformSummaryRow, err_invalid_date_range,
}
use quick_bite_analytics_ser.Analytics.Entity.{
  RestaurantDay, BranchDay, ProductDay, PlatformDay, PlatformDayCurrencyTotals,
}
use quick_bite_analytics_ser.Analytics.Repository.RestaurantDays
use quick_bite_analytics_ser.Analytics.Repository.BranchDays
use quick_bite_analytics_ser.Analytics.Repository.ProductDays
use quick_bite_analytics_ser.Analytics.Repository.PlatformDays

-- The conversion and the division of float64.
pub record Floats (F : Type 0) : Type 0 where
  pub nought : F
  pub of_int : ℤ → F
  pub divide : F → F → F

-- var avg int64; if count > 0 { avg = sum / count }
unfoldable pub average : ℤ → ℤ → ℤ
average sum count = if_so (ltb_ℤ (pos 0) count) (λ positive. quotient sum count positive) (pos 0)

abbrev pub restaurant_day_row : RestaurantDay → RestaurantDayRow
restaurant_day_row row = record {
  date = row.date;
  currency = row.currency;
  orders_count = row.orders_count;
  revenue_sum_minor = row.revenue_sum_minor;
  avg_order_minor = average row.revenue_sum_minor row.orders_count;
}

abbrev pub branch_day_row : BranchDay → BranchDayRow
branch_day_row row = record {
  date = row.date;
  currency = row.currency;
  orders_count = row.orders_count;
  revenue_sum_minor = row.revenue_sum_minor;
  avg_order_minor = average row.revenue_sum_minor row.orders_count;
}

abbrev pub product_day_row : ProductDay → ProductDayRow
product_day_row row = record {
  date = row.date;
  currency = row.currency;
  quantity_sum = row.quantity_sum;
  revenue_sum_minor = row.revenue_sum_minor;
  avg_unit_price_minor = average row.revenue_sum_minor row.quantity_sum;
}

abbrev pub platform_day_row : PlatformDay → PlatformDayRow
platform_day_row row = record {
  date = row.date;
  currency = row.currency;
  orders_count = row.orders_count;
  revenue_sum_minor = row.revenue_sum_minor;
  avg_order_minor = average row.revenue_sum_minor row.orders_count;
}

abbrev pub delivery_avg_row : RestaurantDay → DeliveryAvgRow
delivery_avg_row row = record {
  date = row.date;
  delivered_count = row.delivery_ms_count;
  avg_delivery_ms = average row.delivery_ms_sum row.delivery_ms_count;
}

module _ {F : Type 0} (floats : Floats F) where
  -- var rate float64; if count > 0 { rate = float64(failed) / float64(count) }
  unfoldable pub rate : ℤ → ℤ → F
  rate failed count =
      if ltb_ℤ (pos 0) count
      then floats.divide (floats.of_int failed) (floats.of_int count)
      else floats.nought

  abbrev pub failure_row : RestaurantDay → FailureRow F
  failure_row row = record {
    date = row.date;
    orders_count = row.orders_count;
    failed_count = row.failed_count;
    failure_rate = rate row.failed_count row.orders_count;
  }

  abbrev pub summary_row : PlatformDayCurrencyTotals → PlatformSummaryRow F
  summary_row t = record {
    currency = t.currency;
    orders_count = t.orders_count;
    revenue_sum_minor = t.revenue_sum_minor;
    avg_order_minor = average t.revenue_sum_minor t.orders_count;
    failed_count = t.failed_count;
    failure_rate = rate t.failed_count t.orders_count;
    delivered_count = t.delivery_ms_count;
    avg_delivery_ms = average t.delivery_ms_sum t.delivery_ms_count;
    online_payments_count = t.online_payments_count;
    online_payments_amount_sum_minor = t.online_payments_amount_sum_minor;
  }

-- if from > to { return nil, ErrInvalidDateRange }
abbrev pub in_range : {W A : Type 0} → String → String → Eff W A → Eff W A
in_range from to act = if ltb_text to from then throw err_invalid_date_range else act

module _ (m : Mongo) where
  unfoldable pub get_restaurant_days : ℤ → String → String → Eff m.World (List RestaurantDayRow)
  get_restaurant_days restaurant_id from to = in_range from to (do
    rows ← RestaurantDays.find_by_date_range m restaurant_id from to
    return (map restaurant_day_row rows))

  unfoldable pub get_branch_days : ℤ → String → String → Eff m.World (List BranchDayRow)
  get_branch_days branch_id from to = in_range from to (do
    rows ← BranchDays.find_by_date_range m branch_id from to
    return (map branch_day_row rows))

  unfoldable pub get_product_days : ℤ → ℤ → String → String → Eff m.World (List ProductDayRow)
  get_product_days branch_id product_id from to = in_range from to (do
    rows ← ProductDays.find_by_date_range m branch_id product_id from to
    return (map product_day_row rows))

  unfoldable pub get_restaurant_failures :
      {F : Type 0} → Floats F → ℤ → String → String → Eff m.World (List (FailureRow F))
  get_restaurant_failures floats restaurant_id from to = in_range from to (do
    rows ← RestaurantDays.find_by_date_range m restaurant_id from to
    return (map (failure_row floats) rows))

  unfoldable pub get_restaurant_delivery_avg :
      ℤ → String → String → Eff m.World (List DeliveryAvgRow)
  get_restaurant_delivery_avg restaurant_id from to = in_range from to (do
    rows ← RestaurantDays.find_by_date_range m restaurant_id from to
    return (map delivery_avg_row rows))

  unfoldable pub get_active_restaurants : String → String → Eff m.World ℤ
  get_active_restaurants from to = in_range from to (RestaurantDays.count_active_in_range m from to)

  unfoldable pub get_platform_days : String → String → Eff m.World (List PlatformDayRow)
  get_platform_days from to =
      in_range from to
        (do rows ← PlatformDays.find_by_date_range m from to; return (map platform_day_row rows))

  unfoldable pub get_platform_summary :
      {F : Type 0} → Floats F → String → String → Eff m.World (List (PlatformSummaryRow F))
  get_platform_summary floats from to = in_range from to (do
    totals ← PlatformDays.summary_by_currency m from to
    return (map (summary_row floats) totals))
