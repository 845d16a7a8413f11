-- ===== src/Analytics/Decode/Fields.antt =====
-- A decoded row holds what its document has at the fields of the bson tags.
use quick_bite_analytics_ser.Prelude.{ℤ, refl, List, ◌∷◌, String, ◌≡◌, ◌⊎◌, arith, some}
use quick_bite_analytics_ser.Errors.{Error}
use quick_bite_analytics_ser.Go.Effect.{Result, ok, fail}
use quick_bite_analytics_ser.Mongo.Bson.{Doc, lookup, as_int, as_text, as_time}
use quick_bite_analytics_ser.Analytics.Entity.{
  RestaurantDay, BranchDay, ProductDay, PlatformDay, PlatformDayCurrencyTotals,
}
use quick_bite_analytics_ser.Analytics.Ledger.View.{day_totals, product_totals}
use quick_bite_analytics_ser.Analytics.Decode.{
  ◌>>=◌, decode_all, get_int, get_text, get_time, decode_restaurant_day, decode_branch_day,
  decode_product_day, decode_platform_day, decode_currency_totals,
}

both_decoded :
    {A : Type 0} (x : Result A) (y : Result (List A)) {rows : List A}
    → (do r ← x; rs ← y; ok (r ∷ rs)) ≡ ok rows
    → (r : A) × (rs : List A) × (x ≡ ok r) × (y ≡ ok rs) × (rows ≡ r ∷ rs)
both_decoded (ok r) (ok rs) h = (r, rs, refl, refl, ground arith)
both_decoded (ok r) (fail e) h = cc
both_decoded (fail e) y h = cc

-- Documents that decode decode one by one.
pub decode_all-cons :
    {A : Type 0} (decode : Doc → Result A) (d : Doc) (ds : List Doc) {rows : List A}
    → decode_all decode (d ∷ ds) ≡ ok rows
    → (r : A) × (rs : List A) × (decode d ≡ ok r) × (decode_all decode ds ≡ ok rs) × (rows ≡ r ∷ rs)
unfolding decode_all
decode_all-cons decode d ds h = both_decoded (decode d) (decode_all decode ds) h

module _ (wrong : String → Error) (d : Doc) (k : String) where
  abbrev int_at : ℤ
  int_at = as_int (lookup k d)

  abbrev text_at : String
  text_at = as_text (lookup k d)

  int_read : (get_int wrong d k ≡ ok int_at) ⊎ (get_int wrong d k ≡ fail (wrong k))
  int_read = ground arith

  text_read : (get_text wrong d k ≡ ok text_at) ⊎ (get_text wrong d k ≡ fail (wrong k))
  text_read = ground arith

  time_read :
      (get_time wrong d k ≡ ok (as_time (lookup k d))) ⊎ (get_time wrong d k ≡ fail (wrong k))
  time_read = ground arith

module _ (wrong : String → Error) (d : Doc) where
  pub decode_restaurant_day-totals :
      {r : RestaurantDay}
      → decode_restaurant_day wrong d ≡ ok r
      → (r.date ≡ as_text (lookup "date" d))
        × (day_totals (some d) ≡ record {
          currency = r.currency;
          orders_count = r.orders_count;
          revenue_sum = r.revenue_sum_minor;
          delivery_ms_sum = r.delivery_ms_sum;
          delivery_ms_count = r.delivery_ms_count;
          failed_count = r.failed_count;
        })
  unfolding decode_restaurant_day
  decode_restaurant_day-totals h = ground (
    arith,
    int_read wrong d "restaurant_id",
    text_read wrong d "date",
    text_read wrong d "currency",
    int_read wrong d "orders_count",
    int_read wrong d "revenue_sum",
    int_read wrong d "delivery_ms_sum",
    int_read wrong d "delivery_ms_count",
    int_read wrong d "failed_count",
    time_read wrong d "updated_at",
  )

  pub decode_branch_day-totals :
      {r : BranchDay}
      → decode_branch_day wrong d ≡ ok r
      → (r.date ≡ as_text (lookup "date" d))
        × (day_totals (some d) ≡ record {
          currency = r.currency;
          orders_count = r.orders_count;
          revenue_sum = r.revenue_sum_minor;
          delivery_ms_sum = r.delivery_ms_sum;
          delivery_ms_count = r.delivery_ms_count;
          failed_count = r.failed_count;
        })
  unfolding decode_branch_day
  decode_branch_day-totals h = ground (
    arith,
    int_read wrong d "branch_id",
    text_read wrong d "date",
    text_read wrong d "currency",
    int_read wrong d "orders_count",
    int_read wrong d "revenue_sum",
    int_read wrong d "delivery_ms_sum",
    int_read wrong d "delivery_ms_count",
    int_read wrong d "failed_count",
    time_read wrong d "updated_at",
  )

  pub decode_product_day-totals :
      {r : ProductDay}
      → decode_product_day wrong d ≡ ok r
      → (r.date ≡ as_text (lookup "date" d))
        × (r.currency ≡ as_text (lookup "currency" d))
        × (product_totals (some d)
            ≡ record { quantity_sum = r.quantity_sum; revenue_sum = r.revenue_sum_minor })
  unfolding decode_product_day
  decode_product_day-totals h = ground (
    arith,
    int_read wrong d "branch_id",
    int_read wrong d "product_id",
    text_read wrong d "date",
    text_read wrong d "currency",
    int_read wrong d "quantity_sum",
    int_read wrong d "revenue_sum",
    time_read wrong d "updated_at",
  )

  pub decode_platform_day-fields :
      {r : PlatformDay}
      → decode_platform_day wrong d ≡ ok r
      → (get_text wrong d "currency" ≡ ok r.currency)
        × (as_int (lookup "orders_count" d) ≡ r.orders_count)
        × (as_int (lookup "revenue_sum" d) ≡ r.revenue_sum_minor)
  unfolding decode_platform_day
  decode_platform_day-fields h = ground (
    arith,
    text_read wrong d "date",
    text_read wrong d "currency",
    int_read wrong d "orders_count",
    int_read wrong d "revenue_sum",
    int_read wrong d "delivery_ms_sum",
    int_read wrong d "delivery_ms_count",
    int_read wrong d "failed_count",
    int_read wrong d "online_payments_count",
    int_read wrong d "online_payments_amount_sum",
    time_read wrong d "updated_at",
  )

  pub decode_currency_totals-fields :
      {t : PlatformDayCurrencyTotals}
      → decode_currency_totals wrong d ≡ ok t
      → (get_text wrong d "_id" ≡ ok t.currency)
        × (as_int (lookup "orders_count" d) ≡ t.orders_count)
        × (as_int (lookup "revenue_sum" d) ≡ t.revenue_sum_minor)
  unfolding decode_currency_totals
  decode_currency_totals-fields h = ground (
    arith,
    text_read wrong d "_id",
    int_read wrong d "orders_count",
    int_read wrong d "revenue_sum",
    int_read wrong d "failed_count",
    int_read wrong d "delivery_ms_sum",
    int_read wrong d "delivery_ms_count",
    int_read wrong d "online_payments_count",
    int_read wrong d "online_payments_amount_sum",
  )
