-- ===== src/Analytics/Types.antt =====
-- app/analytics/types.go, errors.go and enums.go. A float64 is a type that the service only divides
-- int64s into, `F`.
use quick_bite_analytics_ser.Prelude.{ℤ, String, List}
use quick_bite_analytics_ser.Errors.{Error, new}
use quick_bite_analytics_ser.Go.Time.{Time}

pub record OrderPlacedItem : Type 0 where
  pub product_id : ℤ
  pub quantity : ℤ
  pub line_total_minor : ℤ

pub record OnOrderPlacedInput : Type 0 where
  pub order_id : String
  pub restaurant_id : ℤ
  pub branch_id : ℤ
  pub currency : String
  pub total_minor : ℤ
  pub placed_at : Time
  pub items : List OrderPlacedItem

pub record OnOrderDeliveredInput : Type 0 where
  pub order_id : String
  pub restaurant_id : ℤ
  pub branch_id : ℤ
  pub currency : String
  pub delivered_at : Time

pub record OnOrderRejectedInput : Type 0 where
  pub order_id : String
  pub restaurant_id : ℤ
  pub branch_id : ℤ
  pub occurred_at : Time

pub record OnPaymentCompletedInput : Type 0 where
  pub currency : String
  pub amount_minor : ℤ
  pub completed_at : Time

pub record RestaurantDayRow : Type 0 where
  pub date : String
  pub currency : String
  pub orders_count : ℤ
  pub revenue_sum_minor : ℤ
  pub avg_order_minor : ℤ

pub record BranchDayRow : Type 0 where
  pub date : String
  pub currency : String
  pub orders_count : ℤ
  pub revenue_sum_minor : ℤ
  pub avg_order_minor : ℤ

pub record ProductDayRow : Type 0 where
  pub date : String
  pub currency : String
  pub quantity_sum : ℤ
  pub revenue_sum_minor : ℤ
  pub avg_unit_price_minor : ℤ

pub record PlatformDayRow : Type 0 where
  pub date : String
  pub currency : String
  pub orders_count : ℤ
  pub revenue_sum_minor : ℤ
  pub avg_order_minor : ℤ

pub record FailureRow (F : Type 0) : Type 0 where
  pub date : String
  pub orders_count : ℤ
  pub failed_count : ℤ
  pub failure_rate : F

pub record DeliveryAvgRow : Type 0 where
  pub date : String
  pub delivered_count : ℤ
  pub avg_delivery_ms : ℤ

pub record PlatformSummaryRow (F : Type 0) : Type 0 where
  pub currency : String
  pub orders_count : ℤ
  pub revenue_sum_minor : ℤ
  pub avg_order_minor : ℤ
  pub failed_count : ℤ
  pub failure_rate : F
  pub delivered_count : ℤ
  pub avg_delivery_ms : ℤ
  pub online_payments_count : ℤ
  pub online_payments_amount_sum_minor : ℤ

abbrev pub err_invalid_date_range : Error
err_invalid_date_range = new "ANALYTICS_INVALID_DATE_RANGE" 400 "from must not be after to"

abbrev pub perm_analytics_read : String
perm_analytics_read = "analytics:read"
