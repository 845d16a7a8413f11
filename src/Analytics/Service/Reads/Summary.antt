-- ===== src/Analytics/Service/Reads/Summary.antt =====
-- The platform summary against the platform days.
use quick_bite_analytics_ser.Prelude.{
  ℤ, pos, ◌+ℤ◌, String, ◌==◌, ltb_text, ◌≡◌, refl, sym, ap, ap₂, ◌∙◌, subst, ◌⊎◌, inl, inr, true,
  false, Bool-cases, some, List, [], ◌∷◌, map, All, if◌then◌else◌,
}
use quick_bite_analytics_ser.Errors.{Error}
use quick_bite_analytics_ser.Go.Effect.{ok}
use quick_bite_analytics_ser.Mongo.Bson.{Doc, int, text, lookup, as_int}
use quick_bite_analytics_ser.Mongo.Driver.{Mongo}
use quick_bite_analytics_ser.Mongo.Finding.{same_value}
use quick_bite_analytics_ser.Mongo.Grouping.{Some, group_total, Grouped, Groups}
use quick_bite_analytics_ser.Analytics.Types.{PlatformDayRow, PlatformSummaryRow}
use quick_bite_analytics_ser.Analytics.Entity.{PlatformDay, PlatformDayCurrencyTotals}
use quick_bite_analytics_ser.Analytics.Decode.{
  decode_all, decode_platform_day, decode_currency_totals,
}
use quick_bite_analytics_ser.Analytics.Repository.Collections.{coll_platform_day}
use quick_bite_analytics_ser.Analytics.Repository.PlatformDays
use quick_bite_analytics_ser.Analytics.Repository.PlatformDays.{platform_range, summary_pipeline}
use quick_bite_analytics_ser.Analytics.Service.Reads.{
  Floats, average, platform_day_row, summary_row, get_platform_days, get_platform_summary,
}
use quick_bite_analytics_ser.Analytics.Service.Reads.Listing.{query_read}
use quick_bite_analytics_ser.Analytics.Decode.Fields.{
  decode_all-cons, decode_platform_day-fields, decode_currency_totals-fields,
}
use quick_bite_analytics_ser.Analytics.Service.Reads.Currencies.{
  ok_injective, id_read, currency_test, same_currency,
}

-- What the days of one currency come to.
abbrev pub earned : (PlatformDayRow → ℤ) → String → List PlatformDayRow → ℤ
earned f currency [] = pos 0
earned f currency (row ∷ rows) =
    (if currency == row.currency then f row else pos 0) +ℤ earned f currency rows

abbrev pub counters : List (String × String)
counters =
    ("orders_count", "orders_count")
    ∷ ("revenue_sum", "revenue_sum")
    ∷ ("failed_count", "failed_count")
    ∷ ("delivery_ms_sum", "delivery_ms_sum")
    ∷ ("delivery_ms_count", "delivery_ms_count")
    ∷ ("online_payments_count", "online_payments_count")
    ∷ ("online_payments_amount_sum", "online_payments_amount_sum")
    ∷ []

-- The row has no currency, or it holds the sums of the days in its currency and their average.
abbrev pub Totals : {F : Type 0} → List PlatformDayRow → PlatformSummaryRow F → Type 0
Totals days s =
    let orders = earned (λ d. d.orders_count) s.currency days in
    let revenue = earned (λ d. d.revenue_sum_minor) s.currency days in
    ((s.currency == "") ≡ true)
    ⊎ ((s.orders_count ≡ orders)
        × (s.revenue_sum_minor ≡ revenue)
        × (s.avg_order_minor ≡ average revenue orders))

module _ (wrong : String → Error) where
  module _ (r : Doc) (c : String) (is : lookup "_id" r ≡ some (text c))
      (some_currency : (c == "") ≡ false) where
    group_total-earned :
        (ds : List Doc) (rows : List PlatformDay)
        → decode_all (decode_platform_day wrong) ds ≡ ok rows
        → (group_total "currency" "orders_count" r ds
            ≡ earned (λ d. d.orders_count) c (map platform_day_row rows))
          × (group_total "currency" "revenue_sum" r ds
              ≡ earned (λ d. d.revenue_sum_minor) c (map platform_day_row rows))
    unfolding decode_all
    group_total-earned [] rows e =
        let none_left : [] ≡ rows = ok_injective _ _ e in
        subst
          (λ xs.
            (pos 0 ≡ earned (λ d. d.orders_count) c (map platform_day_row xs))
            × (pos 0 ≡ earned (λ d. d.revenue_sum_minor) c (map platform_day_row xs)))
          none_left (refl, refl)
    group_total-earned (d ∷ ds) rows e =
        let (row, rest, here, there, both) = decode_all-cons (decode_platform_day wrong) d ds e in
        let (orders, revenue) = group_total-earned ds rest there in
        let (currency, o, v) = decode_platform_day-fields wrong d here in
        let test =
          currency_test wrong "currency" (lookup "currency" d) c row.currency currency
            some_currency in
        rw both (rw is (rw (test, o, v, orders, revenue) (refl, refl)))

  module _ {F : Type 0} (floats : Floats F) where
    every-Some :
        (d : Doc) (row : PlatformDay) (rs : List Doc) (ts : List PlatformDayCurrencyTotals)
        → decode_platform_day wrong d ≡ ok row
        → decode_all (decode_currency_totals wrong) rs ≡ ok ts
        → Some (λ r. same_value (lookup "_id" r) (lookup "currency" d) ≡ true) rs
        → Some (λ t. t.currency ≡ row.currency) (map (summary_row floats) ts)
    every-Some d row [] ts e f s = absurd s
    every-Some d row (r ∷ rs) ts e f s =
        let (t, rest, here, there, both) = decode_all-cons (decode_currency_totals wrong) r rs f in
        let paid = (decode_platform_day-fields wrong d e).0 in
        let named = (decode_currency_totals-fields wrong r here).0 in
        rw both (elim s [
          | inl same ↦ inl (
              same_currency wrong "_id" "currency" (lookup "_id" r) (lookup "currency" d) _ _ named
                paid same)
          | inr later ↦ inr (every-Some d row rs rest e there later)
        ])

    all-Some :
        (ds : List Doc) (rows : List PlatformDay) (rs : List Doc)
        (ts : List PlatformDayCurrencyTotals)
        → decode_all (decode_platform_day wrong) ds ≡ ok rows
        → decode_all (decode_currency_totals wrong) rs ≡ ok ts
        → All (λ d. Some (λ r. same_value (lookup "_id" r) (lookup "currency" d) ≡ true) rs) ds
        → All
            (λ row. Some (λ t. t.currency ≡ row.currency) (map (summary_row floats) ts))
            (map platform_day_row rows)
    unfolding decode_all
    all-Some [] rows rs ts e f h =
        subst
          (λ xs.
            All (λ row. Some (λ t. t.currency ≡ row.currency) (map (summary_row floats) ts))
              (map platform_day_row xs))
          (ok_injective _ _ e) tt
    all-Some (d ∷ ds) rows rs ts e f (first, h) =
        let (row, rest, here, there, both) = decode_all-cons (decode_platform_day wrong) d ds e in
        rw both (every-Some d row rs ts here f first, all-Some ds rest rs ts there f h)

    group_total-Totals :
        (ds : List Doc) (r : Doc) (rows : List PlatformDay) (t : PlatformDayCurrencyTotals)
        → decode_all (decode_platform_day wrong) ds ≡ ok rows
        → decode_currency_totals wrong r ≡ ok t
        → All (λ s. lookup s.0 r ≡ some (int (group_total "currency" s.1 r ds))) counters
        → Totals (map platform_day_row rows) (summary_row floats t)
    group_total-Totals ds r rows t e f (orders, (revenue, _)) =
        elim (Bool-cases (t.currency == "")) [
          | inl void ↦ inl void
          | inr paid ↦
              let (named, o, v) = decode_currency_totals-fields wrong r f in
              let (o', v') =
                group_total-earned r t.currency
                  (id_read wrong "_id" (lookup "_id" r) t.currency named paid) paid ds rows e in
              let same : t.orders_count
                  ≡ earned (λ d. d.orders_count) t.currency (map platform_day_row rows) =
                sym o ∙ ap as_int orders ∙ o' in
              let same' : t.revenue_sum_minor
                  ≡ earned (λ d. d.revenue_sum_minor) t.currency (map platform_day_row rows) =
                sym v ∙ ap as_int revenue ∙ v' in
              inr (same, same', ap₂ average same' same)
        ]

    all-Totals :
        (ds rs : List Doc) (rows : List PlatformDay) (ts : List PlatformDayCurrencyTotals)
        → decode_all (decode_platform_day wrong) ds ≡ ok rows
        → decode_all (decode_currency_totals wrong) rs ≡ ok ts
        → All
            (λ r. All (λ s. lookup s.0 r ≡ some (int (group_total "currency" s.1 r ds))) counters)
            rs
        → All (Totals (map platform_day_row rows)) (map (summary_row floats) ts)
    unfolding decode_all
    all-Totals ds [] rows ts e f h =
        subst (λ xs. All (Totals (map platform_day_row rows)) (map (summary_row floats) xs))
          (ok_injective _ _ f) tt
    all-Totals ds (r ∷ rs) rows ts e f (first, h) =
        let (t, rest, here, there, both) = decode_all-cons (decode_currency_totals wrong) r rs f in
        rw both (group_total-Totals ds r rows t e here first, all-Totals ds rs rows rest e there h)

-- The summary and the days of a range, where both return: each row of the summary holds for its
-- currency the orders and the revenue of the days in it, summed, and the average order computed from
-- the sums; and the currency of every day has a row in the summary. Rows with no currency are left
-- out of the first part.
pub get_platform_summary-Totals :
    (m : Mongo) {F : Type 0} (floats : Floats F) (from to : String) (w : m.World)
    → Groups m coll_platform_day
        (platform_range from to)
        "currency"
        counters
        ("date" ∷ "currency" ∷ [])
        ("_id" ∷ [])
        w
    → {days : List PlatformDayRow} {summary : List (PlatformSummaryRow F)}
    → (get_platform_days m from to w).0 ≡ ok days
    → (get_platform_summary m floats from to w).0 ≡ ok summary
    → All (Totals days) summary × All (λ d. Some (λ s. s.currency ≡ d.currency) summary) days
unfolding get_platform_days get_platform_summary PlatformDays.find_by_date_range
    PlatformDays.summary_by_currency
get_platform_summary-Totals m floats from to w groups h k =
    let wrong = m.decode_error in
    let (ds, rows, found, parsed, listed) =
      query_read platform_day_row w (ltb_text to from)
        (m.find coll_platform_day (platform_range from to) ("date" ∷ "currency" ∷ []))
        (decode_all (decode_platform_day wrong)) h in
    let (rs, ts, grouped, decoded, summed) =
      query_read (summary_row floats) w (ltb_text to from)
        (m.aggregate coll_platform_day (summary_pipeline from to))
        (decode_all (decode_currency_totals wrong)) k in
    let g : Grouped "currency" counters ds rs = groups.at ds rs found grouped in
    rw (listed, summed)
      (
        all-Totals wrong floats ds rs rows ts parsed decoded g.summed,
        all-Some wrong floats ds rows rs ts parsed decoded g.every,
      )
