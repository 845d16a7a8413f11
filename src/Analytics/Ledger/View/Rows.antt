-- ===== src/Analytics/Ledger/View/Rows.antt =====
-- One upsert and the totals of the row that it hits.
use quick_bite_analytics_ser.Prelude.{ℤ, pos, String, Option, none, List, [], ◌∷◌, ◌≡◌, arith, All}
use quick_bite_analytics_ser.Mongo.Bson.{Doc, Value, Update, text, field, updated, lookup}
use quick_bite_analytics_ser.Analytics.Ledger.{placed_day, delivered_day, rejected_day}
use quick_bite_analytics_ser.Analytics.Ledger.View.{day_totals}

-- the update of a restaurant or branch row, by its key
abbrev pub day_update : Doc → List (String × ℤ) → Doc → Value → Update
day_update f inc extra_set now = record {
  inc = inc;
  set = ("updated_at", now) ∷ extra_set;
  set_on_insert = f;
}

abbrev pub day_fields : List String
day_fields =
    "currency" ∷ "orders_count" ∷ "revenue_sum" ∷ "delivery_ms_sum" ∷ "delivery_ms_count"
    ∷ "failed_count" ∷ []

-- no total is a field of the key
abbrev pub Blank : Doc → Type 0
Blank f = All (λ k. lookup k f ≡ none) day_fields

-- the document `o'` is `o` after the upsert
abbrev pub After : Doc → Update → Option Doc → Option Doc → Type 0
After f u o o' = (k : String) → field k o' ≡ updated f u k o

module _ (f : Doc) (blank : Blank f) (now : Value) (o o' : Option Doc) where
  pub placed_hit :
      (c : String) (total : ℤ)
      → After f
          (day_update f
            (("orders_count", pos 1) ∷ ("revenue_sum", total) ∷ [])
            (("currency", text c) ∷ [])
            now)
          o
          o'
      → day_totals o' ≡ placed_day c total (day_totals o)
  placed_hit c total h = ground (
    arith,
    h "currency",
    h "orders_count",
    h "revenue_sum",
    h "delivery_ms_sum",
    h "delivery_ms_count",
    h "failed_count",
  )

  pub delivered_hit :
      (ms : ℤ)
      → After f
          (day_update f (("delivery_ms_sum", ms) ∷ ("delivery_ms_count", pos 1) ∷ []) [] now)
          o
          o'
      → day_totals o' ≡ delivered_day ms (day_totals o)
  delivered_hit ms h = ground (
    arith,
    h "currency",
    h "orders_count",
    h "revenue_sum",
    h "delivery_ms_sum",
    h "delivery_ms_count",
    h "failed_count",
  )

  pub rejected_hit :
      After f (day_update f (("failed_count", pos 1) ∷ []) [] now) o o'
      → day_totals o' ≡ rejected_day (day_totals o)
  rejected_hit h = ground (
    arith,
    h "currency",
    h "orders_count",
    h "revenue_sum",
    h "delivery_ms_sum",
    h "delivery_ms_count",
    h "failed_count",
  )
