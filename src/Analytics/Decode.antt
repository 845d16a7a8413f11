-- ===== src/Analytics/Decode.antt =====
-- app/analytics/entity: the bson tags. cursor.All and Decode read a document into a struct, and leave
-- a field that the document lacks at its zero value.
pub mod Fields
use quick_bite_analytics_ser.Prelude.{ℤ, pos, String, Option, none, some, List, [], ◌∷◌}
use quick_bite_analytics_ser.Errors.{Error}
use quick_bite_analytics_ser.Go.Effect.{Result, ok, fail}
use quick_bite_analytics_ser.Go.Time.{Time, zero_time}
use quick_bite_analytics_ser.Mongo.Bson.{Doc, Value, int, text, datetime, lookup}
use quick_bite_analytics_ser.Analytics.Entity.{
  RestaurantDay, BranchDay, ProductDay, PlatformDay, PlatformDayCurrencyTotals, OrderContext,
}

infixl 5 ◌>>=◌
abbrev ◌>>=◌ : {A B : Type 0} → Result A → (A → Result B) → Result B
ok a >>= f = f a
fail e >>= f = fail e

-- the documents that cursor.All decodes, in order
unfoldable pub decode_all : {A : Type 0} → (Doc → Result A) → List Doc → Result (List A)
decode_all decode [] = ok []
decode_all decode (d ∷ ds) = do row ← decode d; rows ← decode_all decode ds; ok (row ∷ rows)

-- Decoding of one field; `wrong` is the driver's error for a field of another BSON type.
module _ (wrong : String → Error) where
  abbrev pub int_field : String → Option Value → Result ℤ
  int_field k none = ok (pos 0)
  int_field k (some (int n)) = ok n
  int_field k (some _) = fail (wrong k)

  abbrev pub text_field : String → Option Value → Result String
  text_field k none = ok ""
  text_field k (some (text s)) = ok s
  text_field k (some _) = fail (wrong k)

  abbrev pub time_field : String → Option Value → Result Time
  time_field k none = ok zero_time
  time_field k (some (datetime t)) = ok t
  time_field k (some _) = fail (wrong k)

  abbrev pub get_int : Doc → String → Result ℤ
  get_int d k = int_field k (lookup k d)

  abbrev pub get_text : Doc → String → Result String
  get_text d k = text_field k (lookup k d)

  abbrev pub get_time : Doc → String → Result Time
  get_time d k = time_field k (lookup k d)

  unfoldable pub decode_restaurant_day : Doc → Result RestaurantDay
  decode_restaurant_day d = do
    restaurant_id ← get_int d "restaurant_id"
    date ← get_text d "date"
    currency ← get_text d "currency"
    orders_count ← get_int d "orders_count"
    revenue_sum ← get_int d "revenue_sum"
    delivery_ms_sum ← get_int d "delivery_ms_sum"
    delivery_ms_count ← get_int d "delivery_ms_count"
    failed_count ← get_int d "failed_count"
    updated_at ← get_time d "updated_at"
    ok (record {
      restaurant_id = restaurant_id;
      date = date;
      currency = currency;
      orders_count = orders_count;
      revenue_sum_minor = revenue_sum;
      delivery_ms_sum = delivery_ms_sum;
      delivery_ms_count = delivery_ms_count;
      failed_count = failed_count;
      updated_at = updated_at;
    })

  unfoldable pub decode_branch_day : Doc → Result BranchDay
  decode_branch_day d = do
    branch_id ← get_int d "branch_id"
    date ← get_text d "date"
    currency ← get_text d "currency"
    orders_count ← get_int d "orders_count"
    revenue_sum ← get_int d "revenue_sum"
    delivery_ms_sum ← get_int d "delivery_ms_sum"
    delivery_ms_count ← get_int d "delivery_ms_count"
    failed_count ← get_int d "failed_count"
    updated_at ← get_time d "updated_at"
    ok (record {
      branch_id = branch_id;
      date = date;
      currency = currency;
      orders_count = orders_count;
      revenue_sum_minor = revenue_sum;
      delivery_ms_sum = delivery_ms_sum;
      delivery_ms_count = delivery_ms_count;
      failed_count = failed_count;
      updated_at = updated_at;
    })

  unfoldable pub decode_product_day : Doc → Result ProductDay
  decode_product_day d = do
    branch_id ← get_int d "branch_id"
    product_id ← get_int d "product_id"
    date ← get_text d "date"
    currency ← get_text d "currency"
    quantity_sum ← get_int d "quantity_sum"
    revenue_sum ← get_int d "revenue_sum"
    updated_at ← get_time d "updated_at"
    ok (record {
      branch_id = branch_id;
      product_id = product_id;
      date = date;
      currency = currency;
      quantity_sum = quantity_sum;
      revenue_sum_minor = revenue_sum;
      updated_at = updated_at;
    })

  unfoldable pub decode_platform_day : Doc → Result PlatformDay
  decode_platform_day d = do
    date ← get_text d "date"
    currency ← get_text d "currency"
    orders_count ← get_int d "orders_count"
    revenue_sum ← get_int d "revenue_sum"
    delivery_ms_sum ← get_int d "delivery_ms_sum"
    delivery_ms_count ← get_int d "delivery_ms_count"
    failed_count ← get_int d "failed_count"
    online_payments_count ← get_int d "online_payments_count"
    online_payments_amount_sum ← get_int d "online_payments_amount_sum"
    updated_at ← get_time d "updated_at"
    ok (record {
      date = date;
      currency = currency;
      orders_count = orders_count;
      revenue_sum_minor = revenue_sum;
      delivery_ms_sum = delivery_ms_sum;
      delivery_ms_count = delivery_ms_count;
      failed_count = failed_count;
      online_payments_count = online_payments_count;
      online_payments_amount_sum_minor = online_payments_amount_sum;
      updated_at = updated_at;
    })

  unfoldable pub decode_currency_totals : Doc → Result PlatformDayCurrencyTotals
  decode_currency_totals d = do
    currency ← get_text d "_id"
    orders_count ← get_int d "orders_count"
    revenue_sum ← get_int d "revenue_sum"
    failed_count ← get_int d "failed_count"
    delivery_ms_sum ← get_int d "delivery_ms_sum"
    delivery_ms_count ← get_int d "delivery_ms_count"
    online_payments_count ← get_int d "online_payments_count"
    online_payments_amount_sum ← get_int d "online_payments_amount_sum"
    ok (record {
      currency = currency;
      orders_count = orders_count;
      revenue_sum_minor = revenue_sum;
      failed_count = failed_count;
      delivery_ms_sum = delivery_ms_sum;
      delivery_ms_count = delivery_ms_count;
      online_payments_count = online_payments_count;
      online_payments_amount_sum_minor = online_payments_amount_sum;
    })

  unfoldable pub decode_order_context : Doc → Result OrderContext
  decode_order_context d = do
    order_id ← get_text d "order_id"
    currency ← get_text d "currency"
    placed_at ← get_time d "placed_at"
    recorded_at ← get_time d "recorded_at"
    ok (record {
      order_id = order_id;
      currency = currency;
      placed_at = placed_at;
      recorded_at = recorded_at;
    })
