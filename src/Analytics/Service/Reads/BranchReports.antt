-- ===== src/Analytics/Service/Reads/BranchReports.antt =====
-- The reports on a branch and on a product of a branch are the ledger, day by day.
use quick_bite_analytics_ser.Prelude.{
  ℤ, String, ltb_text, ◌≡◌, refl, sym, ap, ap₂, ◌∙◌, Option, some, List, [], ◌∷◌, map,
}
use quick_bite_analytics_ser.Go.Effect.{ok}
use quick_bite_analytics_ser.Mongo.Bson.{Doc, int, has, lookup, field, as_text}
use quick_bite_analytics_ser.Mongo.Driver.{Mongo}
use quick_bite_analytics_ser.Mongo.Finding.{Finds}
use quick_bite_analytics_ser.Analytics.Types.{BranchDayRow, ProductDayRow}
use quick_bite_analytics_ser.Analytics.Entity.{ProductDay}
use quick_bite_analytics_ser.Analytics.Decode.{decode_branch_day, decode_product_day}
use quick_bite_analytics_ser.Analytics.Ledger.{DayTotals, ProductTotals}
use quick_bite_analytics_ser.Analytics.Ledger.View.{view, day_totals, product_totals}
use quick_bite_analytics_ser.Analytics.Repository.Collections.{
  unique_index, coll_branch_day, coll_product_day,
}
use quick_bite_analytics_ser.Analytics.Repository.BranchDays
use quick_bite_analytics_ser.Analytics.Repository.BranchDays.{branch_key, branch_range}
use quick_bite_analytics_ser.Analytics.Repository.ProductDays
use quick_bite_analytics_ser.Analytics.Repository.ProductDays.{product_key, product_range}
use quick_bite_analytics_ser.Analytics.Service.Reads.{
  average, get_branch_days, get_product_days, product_day_row, branch_day_row,
}
use quick_bite_analytics_ser.Analytics.Service.Reads.Ranged.{date_of}
use quick_bite_analytics_ser.Analytics.Service.Reads.Listing.{Lists, query-Lists}
use quick_bite_analytics_ser.Analytics.Decode.Fields.{
  decode_branch_day-totals, decode_product_day-totals,
}

abbrev pub branch_row : String → DayTotals → BranchDayRow
branch_row date t = record {
  date = date;
  currency = t.currency;
  orders_count = t.orders_count;
  revenue_sum_minor = t.revenue_sum;
  avg_order_minor = average t.revenue_sum t.orders_count;
}

abbrev pub product_row : String → String → ProductTotals → ProductDayRow
product_row date currency t = record {
  date = date;
  currency = currency;
  quantity_sum = t.quantity_sum;
  revenue_sum_minor = t.revenue_sum;
  avg_unit_price_minor = average t.revenue_sum t.quantity_sum;
}

product_decoded :
    (d : Doc) (r : ProductDay)
    → (r.date ≡ date_of d)
      × (r.currency ≡ as_text (lookup "currency" d))
      × (product_totals (some d)
          ≡ record { quantity_sum = r.quantity_sum; revenue_sum = r.revenue_sum_minor })
    → product_day_row r
      ≡ product_row (date_of d) (as_text (field "currency" (some d))) (product_totals (some d))
product_decoded d r (dated, paid, totals) =
    ap₂
      (λ x y.
        product_row x y
          (record { quantity_sum = r.quantity_sum; revenue_sum = r.revenue_sum_minor }))
      dated paid
    ∙ ap (product_row (date_of d) (as_text (lookup "currency" d))) (sym totals)

abbrev pub product_at : (m : Mongo) → ℤ → ℤ → m.World → String → Option Doc
product_at m branch_id product_id w date =
    m.point w coll_product_day (product_key branch_id product_id date)

module _ (m : Mongo) (branch_id : ℤ) (from to : String) (w : m.World) where
  abbrev pub BranchDates : List String → Type 0
  BranchDates = Lists (λ date. has (m.point w coll_branch_day (branch_key branch_id date))) from to

  -- The report on a branch, where it returns, has a row for each day of the range that the branch has
  -- a document for, once, by ascending date; the row holds the ledger's totals of that day and the
  -- average computed from them.
  get_branch_days-branch_row :
      Finds unique_index m coll_branch_day (branch_range branch_id from to) ("date" ∷ []) w
      → {rows : List BranchDayRow} → (get_branch_days m branch_id from to w).0 ≡ ok rows
      → (dates : List String) × BranchDates dates
        × (rows ≡ map (λ date. branch_row date ((view m w).branch branch_id date)) dates)
  unfolding get_branch_days BranchDays.find_by_date_range view
  get_branch_days-branch_row finds h =
      let (ds, read, listed, same) =
        query-Lists unique_index m coll_branch_day (("branch_id", int branch_id) ∷ []) from to w
          refl (decode_branch_day m.decode_error) branch_day_row
          (λ date o. branch_row date (day_totals o))
          (λ d r e.
            let totals = decode_branch_day-totals m.decode_error d e in
            ap₂ branch_row totals.0 (sym totals.1))
          (ltb_text to from) finds h in
      (map date_of ds, listed, same)

module _ (m : Mongo) (branch_id product_id : ℤ) (from to : String) (w : m.World) where
  abbrev pub ProductDates : List String → Type 0
  ProductDates = Lists (λ date. has (product_at m branch_id product_id w date)) from to

  -- The report on a product, where it returns, has a row for each day of the range that the product
  -- has a document for in the branch, once, by ascending date; the row holds the ledger's totals of
  -- that day, the average computed from them, and the currency of the document.
  pub get_product_days-product_row :
      Finds unique_index m coll_product_day
        (product_range branch_id product_id from to)
        ("date" ∷ [])
        w
      → {rows : List ProductDayRow}
      → (get_product_days m branch_id product_id from to w).0 ≡ ok rows
      → (dates : List String) × ProductDates dates
        × (rows
            ≡ map
                (λ date.
                  product_row date
                    (as_text (field "currency" (product_at m branch_id product_id w date)))
                    ((view m w).product branch_id product_id date))
                dates)
  unfolding get_product_days ProductDays.find_by_date_range view
  get_product_days-product_row finds h =
      let (ds, read, listed, same) =
        query-Lists unique_index m coll_product_day
          (("branch_id", int branch_id) ∷ ("product_id", int product_id) ∷ []) from to w refl
          (decode_product_day m.decode_error) product_day_row
          (λ date o. product_row date (as_text (field "currency" o)) (product_totals o))
          (λ d r e. product_decoded d r (decode_product_day-totals m.decode_error d e))
          (ltb_text to from) finds h in
      (map date_of ds, listed, same)
