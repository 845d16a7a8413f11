-- ===== src/Analytics/Entity.antt =====
-- app/analytics/entity: the documents of the collections.
use quick_bite_analytics_ser.Prelude.{ℤ, String}
use quick_bite_analytics_ser.Go.Time.{Time}

pub record RestaurantDay : Type 0 where
  pub restaurant_id : ℤ
  pub date : String
  pub currency : String
  pub orders_count : ℤ
  pub revenue_sum_minor : ℤ
  pub delivery_ms_sum : ℤ
  pub delivery_ms_count : ℤ
  pub failed_count : ℤ
  pub updated_at : Time

pub record BranchDay : Type 0 where
  pub branch_id : ℤ
  pub date : String
  pub currency : String
  pub orders_count : ℤ
  pub revenue_sum_minor : ℤ
  pub delivery_ms_sum : ℤ
  pub delivery_ms_count : ℤ
  pub failed_count : ℤ
  pub updated_at : Time

pub record ProductDay : Type 0 where
  pub branch_id : ℤ
  pub product_id : ℤ
  pub date : String
  pub currency : String
  pub quantity_sum : ℤ
  pub revenue_sum_minor : ℤ
  pub updated_at : Time

pub record PlatformDay : Type 0 where
  pub date : String
  pub currency : String
  pub orders_count : ℤ
  pub revenue_sum_minor : ℤ
  pub delivery_ms_sum : ℤ
  pub delivery_ms_count : ℤ
  pub failed_count : ℤ
  pub online_payments_count : ℤ
  pub online_payments_amount_sum_minor : ℤ
  pub updated_at : Time

pub record PlatformDayCurrencyTotals : Type 0 where
  pub currency : String
  pub orders_count : ℤ
  pub revenue_sum_minor : ℤ
  pub failed_count : ℤ
  pub delivery_ms_sum : ℤ
  pub delivery_ms_count : ℤ
  pub online_payments_count : ℤ
  pub online_payments_amount_sum_minor : ℤ

pub record OrderContext : Type 0 where
  pub order_id : String
  pub currency : String
  pub placed_at : Time
  pub recorded_at : Time

pub record EventId : Type 0 where
  pub event_id : String
  pub received_at : Time
