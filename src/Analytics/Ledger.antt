-- ===== src/Analytics/Ledger.antt =====
-- What the aggregates of the service promise, with no documents: the totals of each row and the
-- order contexts, as functions of their keys.
pub mod View
pub mod Writes
pub mod Changes
use quick_bite_analytics_ser.Prelude.{
  ℤ, pos, ◌+ℤ◌, eqb_ℤ, String, ◌==◌, Bool, true, false, ◌&&◌, Option, none, some, List, [], ◌∷◌,
  if◌then◌else◌,
}
use quick_bite_analytics_ser.Go.Time.{Time}
use quick_bite_analytics_ser.Analytics.Types.{OrderPlacedItem}

-- The counters of one restaurant or branch on one day, and the currency last written.
pub record DayTotals : Type 0 where
  pub currency : String
  pub orders_count : ℤ
  pub revenue_sum : ℤ
  pub delivery_ms_sum : ℤ
  pub delivery_ms_count : ℤ
  pub failed_count : ℤ

pub record ProductTotals : Type 0 where
  pub quantity_sum : ℤ
  pub revenue_sum : ℤ

pub record PlatformTotals : Type 0 where
  pub orders_count : ℤ
  pub revenue_sum : ℤ
  pub delivery_ms_sum : ℤ
  pub delivery_ms_count : ℤ
  pub failed_count : ℤ
  pub online_payments_count : ℤ
  pub online_payments_amount_sum : ℤ

pub record Known : Type 0 where
  pub currency : String
  pub placed_at : Time

pub record Ledger : Type 0 where
  pub restaurant : ℤ → String → DayTotals
  pub branch : ℤ → String → DayTotals
  pub product : ℤ → ℤ → String → ProductTotals
  pub platform : String → String → PlatformTotals
  pub context : String → Option Known

abbrev pub placed_day : String → ℤ → DayTotals → DayTotals
placed_day currency total t = record t {
  currency = currency;
  orders_count = t.orders_count +ℤ pos 1;
  revenue_sum = t.revenue_sum +ℤ total;
}

abbrev pub delivered_day : ℤ → DayTotals → DayTotals
delivered_day ms t = record t {
  delivery_ms_sum = t.delivery_ms_sum +ℤ ms;
  delivery_ms_count = t.delivery_ms_count +ℤ pos 1;
}

abbrev pub rejected_day : DayTotals → DayTotals
rejected_day t = record t { failed_count = t.failed_count +ℤ pos 1 }

abbrev pub placed_platform : ℤ → PlatformTotals → PlatformTotals
placed_platform total t = record t {
  orders_count = t.orders_count +ℤ pos 1;
  revenue_sum = t.revenue_sum +ℤ total;
}

abbrev pub delivered_platform : ℤ → PlatformTotals → PlatformTotals
delivered_platform ms t = record t {
  delivery_ms_sum = t.delivery_ms_sum +ℤ ms;
  delivery_ms_count = t.delivery_ms_count +ℤ pos 1;
}

abbrev pub rejected_platform : PlatformTotals → PlatformTotals
rejected_platform t = record t { failed_count = t.failed_count +ℤ pos 1 }

abbrev pub paid_platform : ℤ → PlatformTotals → PlatformTotals
paid_platform amount t = record t {
  online_payments_count = t.online_payments_count +ℤ pos 1;
  online_payments_amount_sum = t.online_payments_amount_sum +ℤ amount;
}

-- What the items of an order add to one product.
abbrev pub sold_quantity : ℤ → List OrderPlacedItem → ℤ
sold_quantity product_id [] = pos 0
sold_quantity product_id (item ∷ items) =
    (if eqb_ℤ item.product_id product_id then item.quantity else pos 0)
    +ℤ sold_quantity product_id items

abbrev pub sold_revenue : ℤ → List OrderPlacedItem → ℤ
sold_revenue product_id [] = pos 0
sold_revenue product_id (item ∷ items) =
    (if eqb_ℤ item.product_id product_id then item.line_total_minor else pos 0)
    +ℤ sold_revenue product_id items

abbrev pub sold : ℤ → List OrderPlacedItem → ProductTotals → ProductTotals
sold product_id items t = record {
  quantity_sum = t.quantity_sum +ℤ sold_quantity product_id items;
  revenue_sum = t.revenue_sum +ℤ sold_revenue product_id items;
}

-- One row, or one context, changes.
unfoldable pub at_restaurant : ℤ → String → (DayTotals → DayTotals) → Ledger → Ledger
at_restaurant id date f l = record l {
  restaurant = λ i d. if eqb_ℤ id i && date == d then f (l.restaurant i d) else l.restaurant i d;
}

unfoldable pub at_branch : ℤ → String → (DayTotals → DayTotals) → Ledger → Ledger
at_branch id date f l = record l {
  branch = λ i d. if eqb_ℤ id i && date == d then f (l.branch i d) else l.branch i d;
}

unfoldable pub at_products : ℤ → String → List OrderPlacedItem → Ledger → Ledger
at_products id date items l = record l {
  product =
      λ i p d. if eqb_ℤ id i && date == d then sold p items (l.product i p d) else l.product i p d;
}

unfoldable pub at_platform : String → String → (PlatformTotals → PlatformTotals) → Ledger → Ledger
at_platform date currency f l = record l {
  platform = λ d c. if date == d && currency == c then f (l.platform d c) else l.platform d c;
}

unfoldable pub at_context : String → Known → Ledger → Ledger
at_context order_id known l = record l {
  context = λ o. if order_id == o then some known else l.context o;
}
