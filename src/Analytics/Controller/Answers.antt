-- ===== src/Analytics/Controller/Answers.antt =====
-- The answers of the endpoints to requests that they refuse.
use quick_bite_analytics_ser.Prelude.{
  String, ltb_text, ◌≡◌, refl, true, false, none, some, List, [], ◌∷◌,
}
use quick_bite_analytics_ser.Go.Effect.{Eff, fail}
use quick_bite_analytics_ser.Errors.{plain}
use quick_bite_analytics_ser.Mongo.Bson.{Query}
use quick_bite_analytics_ser.Mongo.Driver.{Mongo}
use quick_bite_analytics_ser.Analytics.Repository.RestaurantDays
use quick_bite_analytics_ser.Analytics.Repository.BranchDays
use quick_bite_analytics_ser.Analytics.Repository.ProductDays
use quick_bite_analytics_ser.Analytics.Repository.PlatformDays
use quick_bite_analytics_ser.Http.{Response, failure, wrap, send_error, internal_error}
use quick_bite_analytics_ser.Analytics.Service.Reads
use quick_bite_analytics_ser.Analytics.Service.Reads.{Floats}
use quick_bite_analytics_ser.Analytics.Dto.{
  Validator, parsed_id, parse_restaurant_days_query, parse_restaurant_failures_query,
  parse_restaurant_delivery_avg_query, parse_branch_days_query, parse_product_days_query,
  parse_active_restaurants_query, parse_platform_days_query, parse_platform_summary_query,
}
use quick_bite_analytics_ser.Analytics.Controller.{
  get_restaurant_days_endpoint, get_restaurant_failures_endpoint,
  get_restaurant_delivery_avg_endpoint, get_active_restaurants_endpoint, get_branch_days_endpoint,
  get_product_days_endpoint, get_platform_days_endpoint, get_platform_summary_endpoint,
}

-- The request is answered with this error, and the database is as before.
abbrev pub Refuses : {W D : Type 0} → String → String → Eff W (Response D) → W → Type 0
Refuses code message act w =
    (wrap (act w).0 ≡ record { status_code = 400; body = failure code message }) × ((act w).1 ≡ w)

module _ (m : Mongo) (v : Validator) {F : Type 0} (floats : Floats F) where
  -- A request with valid parameters, whose range ends before it starts, is answered by each of the
  -- eight endpoints with status 400 and ANALYTICS_INVALID_DATE_RANGE, and changes nothing.
  pub inverted_range-Refuses :
      (param param' from to : String) (w : m.World)
      → v.check_id (parsed_id v param) ≡ none
      → v.check_id (parsed_id v param') ≡ none
      → v.check_date from ≡ none
      → v.check_date to ≡ none
      → ltb_text to from ≡ true
      → Refuses "ANALYTICS_INVALID_DATE_RANGE" "from must not be after to"
          (get_restaurant_days_endpoint m v param from to)
          w
        × Refuses "ANALYTICS_INVALID_DATE_RANGE" "from must not be after to"
            (get_restaurant_failures_endpoint m v floats param from to)
            w
        × Refuses "ANALYTICS_INVALID_DATE_RANGE" "from must not be after to"
            (get_restaurant_delivery_avg_endpoint m v param from to)
            w
        × Refuses "ANALYTICS_INVALID_DATE_RANGE" "from must not be after to"
            (get_active_restaurants_endpoint m v from to)
            w
        × Refuses "ANALYTICS_INVALID_DATE_RANGE" "from must not be after to"
            (get_branch_days_endpoint m v param from to)
            w
        × Refuses "ANALYTICS_INVALID_DATE_RANGE" "from must not be after to"
            (get_product_days_endpoint m v param param' from to)
            w
        × Refuses "ANALYTICS_INVALID_DATE_RANGE" "from must not be after to"
            (get_platform_days_endpoint m v from to)
            w
        × Refuses "ANALYTICS_INVALID_DATE_RANGE" "from must not be after to"
            (get_platform_summary_endpoint m v floats from to)
            w
  unfolding get_restaurant_days_endpoint get_restaurant_failures_endpoint
      get_restaurant_delivery_avg_endpoint get_active_restaurants_endpoint get_branch_days_endpoint
      get_product_days_endpoint get_platform_days_endpoint get_platform_summary_endpoint
      parse_restaurant_days_query parse_restaurant_failures_query
      parse_restaurant_delivery_avg_query parse_branch_days_query parse_product_days_query
      parse_active_restaurants_query parse_platform_days_query parse_platform_summary_query
      Reads.get_restaurant_days Reads.get_restaurant_failures Reads.get_restaurant_delivery_avg
      Reads.get_active_restaurants Reads.get_branch_days Reads.get_product_days
      Reads.get_platform_days Reads.get_platform_summary wrap send_error
  inverted_range-Refuses param param' from to w id id' starts ends inverted =
      rw (id, id', starts, ends, inverted)
        (
          (refl, refl),
          (refl, refl),
          (refl, refl),
          (refl, refl),
          (refl, refl),
          (refl, refl),
          (refl, refl),
          (refl, refl),
        )

  -- A request whose `from` is malformed, and whose other parameters are valid, is answered by each of
  -- the eight endpoints with status 400 and VALIDATION_ERROR, naming the field and the tag, and
  -- changes nothing.
  malformed_from-Refuses :
      (param param' from to tag : String) (w : m.World)
      → v.check_id (parsed_id v param) ≡ none
      → v.check_id (parsed_id v param') ≡ none
      → v.check_date from ≡ some tag
      → v.check_date to ≡ none
      → Refuses "VALIDATION_ERROR"
          (v.message (("From", tag) ∷ []))
          (get_restaurant_days_endpoint m v param from to)
          w
        × Refuses "VALIDATION_ERROR"
            (v.message (("From", tag) ∷ []))
            (get_restaurant_failures_endpoint m v floats param from to)
            w
        × Refuses "VALIDATION_ERROR"
            (v.message (("From", tag) ∷ []))
            (get_restaurant_delivery_avg_endpoint m v param from to)
            w
        × Refuses "VALIDATION_ERROR"
            (v.message (("From", tag) ∷ []))
            (get_active_restaurants_endpoint m v from to)
            w
        × Refuses "VALIDATION_ERROR"
            (v.message (("From", tag) ∷ []))
            (get_branch_days_endpoint m v param from to)
            w
        × Refuses "VALIDATION_ERROR"
            (v.message (("From", tag) ∷ []))
            (get_product_days_endpoint m v param param' from to)
            w
        × Refuses "VALIDATION_ERROR"
            (v.message (("From", tag) ∷ []))
            (get_platform_days_endpoint m v from to)
            w
        × Refuses "VALIDATION_ERROR"
            (v.message (("From", tag) ∷ []))
            (get_platform_summary_endpoint m v floats from to)
            w
  unfolding get_restaurant_days_endpoint get_restaurant_failures_endpoint
      get_restaurant_delivery_avg_endpoint get_active_restaurants_endpoint get_branch_days_endpoint
      get_product_days_endpoint get_platform_days_endpoint get_platform_summary_endpoint
      parse_restaurant_days_query parse_restaurant_failures_query
      parse_restaurant_delivery_avg_query parse_branch_days_query parse_product_days_query
      parse_active_restaurants_query parse_platform_days_query parse_platform_summary_query wrap
      send_error
  malformed_from-Refuses param param' from to tag w id id' starts ends =
      rw (id, id', starts, ends)
        (
          (refl, refl),
          (refl, refl),
          (refl, refl),
          (refl, refl),
          (refl, refl),
          (refl, refl),
          (refl, refl),
          (refl, refl),
        )

  -- When the database fails a query with an error of its driver, each endpoint that lists day rows
  -- answers a valid request with status 500 and a fixed text, in which the error does not appear.
  pub find_failed-hidden :
      (param param' from to driver_message : String) (w : m.World)
      → v.check_id (parsed_id v param) ≡ none
      → v.check_id (parsed_id v param') ≡ none
      → v.check_date from ≡ none
      → v.check_date to ≡ none
      → ltb_text to from ≡ false
      → ((c : String) (q : Query) (order : List String)
          → m.find c q order w ≡ fail (plain driver_message))
      → (wrap (get_restaurant_days_endpoint m v param from to w).0 ≡ internal_error)
        × (wrap (get_restaurant_failures_endpoint m v floats param from to w).0 ≡ internal_error)
        × (wrap (get_restaurant_delivery_avg_endpoint m v param from to w).0 ≡ internal_error)
        × (wrap (get_branch_days_endpoint m v param from to w).0 ≡ internal_error)
        × (wrap (get_product_days_endpoint m v param param' from to w).0 ≡ internal_error)
        × (wrap (get_platform_days_endpoint m v from to w).0 ≡ internal_error)
  unfolding get_restaurant_days_endpoint get_restaurant_failures_endpoint
      get_restaurant_delivery_avg_endpoint get_active_restaurants_endpoint get_branch_days_endpoint
      get_product_days_endpoint get_platform_days_endpoint get_platform_summary_endpoint
      parse_restaurant_days_query parse_restaurant_failures_query
      parse_restaurant_delivery_avg_query parse_branch_days_query parse_product_days_query
      parse_active_restaurants_query parse_platform_days_query parse_platform_summary_query
      Reads.get_restaurant_days Reads.get_restaurant_failures Reads.get_restaurant_delivery_avg
      Reads.get_active_restaurants Reads.get_branch_days Reads.get_product_days
      Reads.get_platform_days Reads.get_platform_summary wrap send_error
      RestaurantDays.find_by_date_range BranchDays.find_by_date_range ProductDays.find_by_date_range
      PlatformDays.find_by_date_range
  find_failed-hidden param param' from to driver_message w id id' starts ends ordered fails =
      rw (id, id', starts, ends, ordered)
        (rw fails refl, rw fails refl, rw fails refl, rw fails refl, rw fails refl, rw fails refl)
