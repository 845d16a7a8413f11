-- ===== src/Tests/Summary.antt =====
-- The summary of two days in one currency and one in another.
use quick_bite_analytics_ser.Prelude.{
  ℤ, pos, ◌+ℤ◌, String, ◌≡◌, refl, All, List, [], ◌∷◌, inl, inr, subst,
}
use quick_bite_analytics_ser.Go.Effect.{ok}
use quick_bite_analytics_ser.Go.Int64.{quot}
use quick_bite_analytics_ser.Mongo.Bson.{Doc, int, text}
use quick_bite_analytics_ser.Mongo.Grouping.{Some, Grouped}
use quick_bite_analytics_ser.Analytics.Types.{PlatformDayRow, PlatformSummaryRow}
use quick_bite_analytics_ser.Analytics.Decode.{
  decode_all, decode_platform_day, decode_currency_totals,
}
use quick_bite_analytics_ser.Analytics.Repository.PlatformDays
use quick_bite_analytics_ser.Analytics.Repository.PlatformDays.{platform_range}
use quick_bite_analytics_ser.Analytics.Service.Reads.{
  average, rate, get_platform_days, get_platform_summary,
}
use quick_bite_analytics_ser.Analytics.Service.Reads.Summary.{
  Totals, counters, get_platform_summary-Totals,
}
use quick_bite_analytics_ser.Tests.Store.{memory, Memory}
use quick_bite_analytics_ser.Tests.Inputs.{empty}
use quick_bite_analytics_ser.Tests.Reads.{ratio}

abbrev day_doc : String → String → ℤ → ℤ → Doc
day_doc date currency orders revenue =
    ("date", text date)
    ∷ ("currency", text currency)
    ∷ ("orders_count", int orders)
    ∷ ("revenue_sum", int revenue)
    ∷ []

abbrev group_doc : String → ℤ → ℤ → Doc
group_doc currency orders revenue =
    ("_id", text currency)
    ∷ ("orders_count", int orders)
    ∷ ("revenue_sum", int revenue)
    ∷ ("failed_count", int (pos 0))
    ∷ ("delivery_ms_sum", int (pos 0))
    ∷ ("delivery_ms_count", int (pos 0))
    ∷ ("online_payments_count", int (pos 0))
    ∷ ("online_payments_amount_sum", int (pos 0))
    ∷ []

abbrev day_docs : List Doc
day_docs =
    day_doc "2024-01-01" "EGP" (pos 2) (pos 300)
    ∷ day_doc "2024-01-01" "SAR" (pos 1) (pos 50)
    ∷ day_doc "2024-01-02" "EGP" (pos 1) (pos 150)
    ∷ []

abbrev group_docs : List Doc
group_docs = group_doc "EGP" (pos 3) (pos 450) ∷ group_doc "SAR" (pos 1) (pos 50) ∷ []

abbrev two_days : Memory
two_days = record empty { found = day_docs; grouped = group_docs }

abbrev day_row : String → String → ℤ → ℤ → ℤ → PlatformDayRow
day_row date currency orders revenue avg = record {
  date = date;
  currency = currency;
  orders_count = orders;
  revenue_sum_minor = revenue;
  avg_order_minor = avg;
}

abbrev day_rows : List PlatformDayRow
day_rows =
    day_row "2024-01-01" "EGP" (pos 2) (pos 300) (pos 150)
    ∷ day_row "2024-01-01" "SAR" (pos 1) (pos 50) (pos 50)
    ∷ day_row "2024-01-02" "EGP" (pos 1) (pos 150) (pos 150)
    ∷ []

abbrev expected_row : String → ℤ → ℤ → ℤ → PlatformSummaryRow (ℤ × ℤ)
expected_row currency orders revenue avg = record {
  currency = currency;
  orders_count = orders;
  revenue_sum_minor = revenue;
  avg_order_minor = avg;
  failed_count = pos 0;
  failure_rate = (pos 0, orders);
  delivered_count = pos 0;
  avg_delivery_ms = pos 0;
  online_payments_count = pos 0;
  online_payments_amount_sum_minor = pos 0;
}

abbrev expected_rows : List (PlatformSummaryRow (ℤ × ℤ))
expected_rows =
    expected_row "EGP" (pos 3) (pos 450) (pos 150)
    ∷ expected_row "SAR" (pos 1) (pos 50) (pos 50)
    ∷ []

ok_injective : (x y : List Doc) → ok x ≡ ok y → x ≡ y
ok_injective x y e = cc

day_docs-Grouped : Grouped "currency" counters day_docs group_docs
unfolding ◌+ℤ◌
day_docs-Grouped = record {
  summed = (
    (refl, (refl, (refl, (refl, (refl, (refl, (refl, tt))))))),
    ((refl, (refl, (refl, (refl, (refl, (refl, (refl, tt))))))), tt),
  );
  every = (inl refl, (inr (inl refl), (inl refl, tt)));
}

get_platform_summary-Totals_example :
    All (Totals day_rows) expected_rows
    × All (λ d. Some (λ s. s.currency ≡ d.currency) expected_rows) day_rows
unfolding get_platform_days get_platform_summary PlatformDays.find_by_date_range
    PlatformDays.summary_by_currency decode_all decode_platform_day decode_currency_totals average
    rate quot
get_platform_summary-Totals_example =
    get_platform_summary-Totals memory ratio "2024-01-01" "2024-01-31" two_days
      (record {
        at = λ ds rs e f.
            subst (λ xs. Grouped "currency" counters xs rs) (ok_injective _ _ e)
              (subst (λ xs. Grouped "currency" counters day_docs xs) (ok_injective _ _ f)
                day_docs-Grouped);
      })
      refl refl
