-- ===== src/Analytics/Dto/Responses.antt =====
-- app/analytics/dto/*.response.go: the rows of the service as they are answered.
use quick_bite_analytics_ser.Prelude.{ℤ, String, List, map}
use quick_bite_analytics_ser.Analytics.Types.{
  RestaurantDayRow, BranchDayRow, ProductDayRow, PlatformDayRow, FailureRow, DeliveryAvgRow,
  PlatformSummaryRow,
}

pub record RestaurantDayResponse : Type 0 where
  pub date : String
  pub orders_count : ℤ
  pub revenue_minor : ℤ
  pub currency : String
  pub avg_order_minor : ℤ

abbrev pub restaurant_day_response_from : RestaurantDayRow → RestaurantDayResponse
restaurant_day_response_from row = record {
  date = row.date;
  orders_count = row.orders_count;
  revenue_minor = row.revenue_sum_minor;
  currency = row.currency;
  avg_order_minor = row.avg_order_minor;
}

abbrev pub restaurant_days_response_from : List RestaurantDayRow → List RestaurantDayResponse
restaurant_days_response_from rows = map restaurant_day_response_from rows

pub record BranchDayResponse : Type 0 where
  pub date : String
  pub orders_count : ℤ
  pub revenue_minor : ℤ
  pub currency : String
  pub avg_order_minor : ℤ

abbrev pub branch_day_response_from : BranchDayRow → BranchDayResponse
branch_day_response_from row = record {
  date = row.date;
  orders_count = row.orders_count;
  revenue_minor = row.revenue_sum_minor;
  currency = row.currency;
  avg_order_minor = row.avg_order_minor;
}

abbrev pub branch_days_response_from : List BranchDayRow → List BranchDayResponse
branch_days_response_from rows = map branch_day_response_from rows

pub record ProductDayResponse : Type 0 where
  pub date : String
  pub quantity_sum : ℤ
  pub revenue_minor : ℤ
  pub currency : String
  pub avg_unit_price_minor : ℤ

abbrev pub product_day_response_from : ProductDayRow → ProductDayResponse
product_day_response_from row = record {
  date = row.date;
  quantity_sum = row.quantity_sum;
  revenue_minor = row.revenue_sum_minor;
  currency = row.currency;
  avg_unit_price_minor = row.avg_unit_price_minor;
}

abbrev pub product_days_response_from : List ProductDayRow → List ProductDayResponse
product_days_response_from rows = map product_day_response_from rows

pub record PlatformDayResponse : Type 0 where
  pub date : String
  pub currency : String
  pub orders_count : ℤ
  pub revenue_minor : ℤ
  pub avg_order_minor : ℤ

abbrev pub platform_day_response_from : PlatformDayRow → PlatformDayResponse
platform_day_response_from row = record {
  date = row.date;
  currency = row.currency;
  orders_count = row.orders_count;
  revenue_minor = row.revenue_sum_minor;
  avg_order_minor = row.avg_order_minor;
}

abbrev pub platform_days_response_from : List PlatformDayRow → List PlatformDayResponse
platform_days_response_from rows = map platform_day_response_from rows

pub record FailureResponse (F : Type 0) : Type 0 where
  pub date : String
  pub orders_count : ℤ
  pub failed_count : ℤ
  pub failure_rate : F

abbrev pub failure_response_from : {F : Type 0} → FailureRow F → FailureResponse F
failure_response_from row = record {
  date = row.date;
  orders_count = row.orders_count;
  failed_count = row.failed_count;
  failure_rate = row.failure_rate;
}

abbrev pub failures_response_from : {F : Type 0} → List (FailureRow F) → List (FailureResponse F)
failures_response_from rows = map failure_response_from rows

pub record DeliveryAvgResponse : Type 0 where
  pub date : String
  pub delivered_count : ℤ
  pub avg_delivery_ms : ℤ

abbrev pub delivery_avg_row_response : DeliveryAvgRow → DeliveryAvgResponse
delivery_avg_row_response row = record {
  date = row.date;
  delivered_count = row.delivered_count;
  avg_delivery_ms = row.avg_delivery_ms;
}

abbrev pub delivery_avg_response_from : List DeliveryAvgRow → List DeliveryAvgResponse
delivery_avg_response_from rows = map delivery_avg_row_response rows

pub record PlatformSummaryResponse (F : Type 0) : Type 0 where
  pub currency : String
  pub orders_count : ℤ
  pub revenue_minor : ℤ
  pub avg_order_minor : ℤ
  pub failed_count : ℤ
  pub failure_rate : F
  pub delivered_count : ℤ
  pub avg_delivery_ms : ℤ
  pub online_payments_count : ℤ
  pub online_payments_amount_minor : ℤ

abbrev pub platform_summary_row_response :
    {F : Type 0} → PlatformSummaryRow F → PlatformSummaryResponse F
platform_summary_row_response row = record {
  currency = row.currency;
  orders_count = row.orders_count;
  revenue_minor = row.revenue_sum_minor;
  avg_order_minor = row.avg_order_minor;
  failed_count = row.failed_count;
  failure_rate = row.failure_rate;
  delivered_count = row.delivered_count;
  avg_delivery_ms = row.avg_delivery_ms;
  online_payments_count = row.online_payments_count;
  online_payments_amount_minor = row.online_payments_amount_sum_minor;
}

abbrev pub platform_summary_response_from :
    {F : Type 0} → List (PlatformSummaryRow F) → List (PlatformSummaryResponse F)
platform_summary_response_from rows = map platform_summary_row_response rows

pub record ActiveRestaurantsResponse : Type 0 where
  pub count : ℤ

abbrev pub active_restaurants_response_from : ℤ → ActiveRestaurantsResponse
active_restaurants_response_from count = record { count = count }
