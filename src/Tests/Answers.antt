-- ===== src/Tests/Answers.antt =====
-- The endpoints at requests that they refuse.
use quick_bite_analytics_ser.Prelude.{pos, negsuc, ◌==◌, none, some, ◌≡◌, refl, if◌then◌else◌}
use quick_bite_analytics_ser.Errors.{plain}
use quick_bite_analytics_ser.Go.Effect.{fail}
use quick_bite_analytics_ser.Mongo.Driver.{Mongo}
use quick_bite_analytics_ser.Http.{wrap, internal_error}
use quick_bite_analytics_ser.Analytics.Dto.{Validator}
use quick_bite_analytics_ser.Analytics.Controller.{
  get_restaurant_days_endpoint, get_restaurant_failures_endpoint,
  get_restaurant_delivery_avg_endpoint, get_active_restaurants_endpoint, get_branch_days_endpoint,
  get_product_days_endpoint, get_platform_days_endpoint, get_platform_summary_endpoint,
}
use quick_bite_analytics_ser.Analytics.Controller.Answers.{
  Refuses, inverted_range-Refuses, find_failed-hidden,
}
use quick_bite_analytics_ser.Tests.Store.{memory}
use quick_bite_analytics_ser.Tests.Inputs.{empty}
use quick_bite_analytics_ser.Tests.Reads.{ratio}

-- it knows two numbers, and takes every text but one for a date
abbrev pub validator : Validator
validator = record {
  parse_int = λ s. if s == "7" then some (pos 7) else if s == "5" then some (pos 5) else none;
  check_id = λ n. elim n [ pos k ↦ none | negsuc k ↦ some "gt" ];
  check_date = λ s. if s == "yesterday" then some "datetime" else none;
  message = λ failures. "From: failed on 'datetime'";
}

inverted_range-Refuses_example :
    Refuses "ANALYTICS_INVALID_DATE_RANGE" "from must not be after to"
      (get_restaurant_days_endpoint memory validator "7" "2024-02-01" "2024-01-01")
      empty
    × Refuses "ANALYTICS_INVALID_DATE_RANGE" "from must not be after to"
        (get_restaurant_failures_endpoint memory validator ratio "7" "2024-02-01" "2024-01-01")
        empty
    × Refuses "ANALYTICS_INVALID_DATE_RANGE" "from must not be after to"
        (get_restaurant_delivery_avg_endpoint memory validator "7" "2024-02-01" "2024-01-01")
        empty
    × Refuses "ANALYTICS_INVALID_DATE_RANGE" "from must not be after to"
        (get_active_restaurants_endpoint memory validator "2024-02-01" "2024-01-01")
        empty
    × Refuses "ANALYTICS_INVALID_DATE_RANGE" "from must not be after to"
        (get_branch_days_endpoint memory validator "7" "2024-02-01" "2024-01-01")
        empty
    × Refuses "ANALYTICS_INVALID_DATE_RANGE" "from must not be after to"
        (get_product_days_endpoint memory validator "7" "5" "2024-02-01" "2024-01-01")
        empty
    × Refuses "ANALYTICS_INVALID_DATE_RANGE" "from must not be after to"
        (get_platform_days_endpoint memory validator "2024-02-01" "2024-01-01")
        empty
    × Refuses "ANALYTICS_INVALID_DATE_RANGE" "from must not be after to"
        (get_platform_summary_endpoint memory validator ratio "2024-02-01" "2024-01-01")
        empty
inverted_range-Refuses_example =
    inverted_range-Refuses memory validator ratio "7" "5" "2024-02-01" "2024-01-01" empty refl refl
      refl refl refl

-- a store that answers no query
abbrev unreadable : Mongo
unreadable = record memory { find = λ c q order w. fail (plain "no primary") }

find_failed-hidden_example :
    (wrap (get_restaurant_days_endpoint unreadable validator "7" "2024-01-01" "2024-01-02" empty).0
      ≡ internal_error)
    × (wrap
          (get_restaurant_failures_endpoint unreadable validator ratio "7" "2024-01-01" "2024-01-02"
            empty).0
        ≡ internal_error)
    × (wrap
          (get_restaurant_delivery_avg_endpoint unreadable validator "7" "2024-01-01" "2024-01-02"
            empty).0
        ≡ internal_error)
    × (wrap (get_branch_days_endpoint unreadable validator "7" "2024-01-01" "2024-01-02" empty).0
        ≡ internal_error)
    × (wrap
          (get_product_days_endpoint unreadable validator "7" "5" "2024-01-01" "2024-01-02" empty).0
        ≡ internal_error)
    × (wrap (get_platform_days_endpoint unreadable validator "2024-01-01" "2024-01-02" empty).0
        ≡ internal_error)
find_failed-hidden_example =
    find_failed-hidden unreadable validator ratio "7" "5" "2024-01-01" "2024-01-02" "no primary"
      empty refl refl refl refl refl (λ c q order. refl)
