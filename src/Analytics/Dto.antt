-- ===== src/Analytics/Dto.antt =====
-- app/analytics/dto/*.request.go. The path parameters and the values of `from` and `to` are
-- arguments. strconv.ParseInt, the validator's tags and the text of its message are parameters: a
-- check gives the tag that fails.
pub mod Responses
use quick_bite_analytics_ser.Prelude.{ℤ, pos, String, Option, none, some, List, [], ◌∷◌, ◌++◌}
use quick_bite_analytics_ser.Errors.{Error, new}
use quick_bite_analytics_ser.Go.Effect.{Result, ok, fail}

pub record Validator : Type 0 where
  -- strconv.ParseInt(s, 10, 64), `none` for an error
  pub parse_int : String → Option ℤ
  -- validate:"required,gt=0"
  pub check_id : ℤ → Option String
  -- validate:"required,datetime=2006-01-02"
  pub check_date : String → Option String
  -- strings.Join of "%s: failed on '%s'" for each field that fails
  pub message : List (String × String) → String

-- id, err := strconv.ParseInt(param, 10, 64); if err != nil { id = 0 }
abbrev pub id_or_zero : Option ℤ → ℤ
id_or_zero none = pos 0
id_or_zero (some id) = id

-- The failures of one field.
abbrev pub failed : String → Option String → List (String × String)
failed name none = []
failed name (some tag) = (name, tag) ∷ []

module _ (v : Validator) where
  -- FromValidation of the errors of a struct
  abbrev pub from_validation : List (String × String) → Error
  from_validation failures = new "VALIDATION_ERROR" 400 (v.message failures)

  -- validate.Struct(q), and the query or the error
  abbrev pub validated : {Q : Type 0} → List (String × String) → Q → Result Q
  validated [] q = ok q
  validated (f ∷ fs) q = fail (from_validation (f ∷ fs))

  abbrev pub dates : String → String → List (String × String)
  dates from to = failed "From" (v.check_date from) ++ failed "To" (v.check_date to)

  abbrev pub parsed_id : String → ℤ
  parsed_id param = id_or_zero (v.parse_int param)

pub record RestaurantDaysQuery : Type 0 where
  pub restaurant_id : ℤ
  pub from : String
  pub to : String

unfoldable pub parse_restaurant_days_query :
    Validator → String → String → String → Result RestaurantDaysQuery
parse_restaurant_days_query v param from to =
    let id = parsed_id v param in
    validated v (failed "RestaurantID" (v.check_id id) ++ dates v from to)
      (record { restaurant_id = id; from = from; to = to })

pub record RestaurantFailuresQuery : Type 0 where
  pub restaurant_id : ℤ
  pub from : String
  pub to : String

unfoldable pub parse_restaurant_failures_query :
    Validator → String → String → String → Result RestaurantFailuresQuery
parse_restaurant_failures_query v param from to =
    let id = parsed_id v param in
    validated v (failed "RestaurantID" (v.check_id id) ++ dates v from to)
      (record { restaurant_id = id; from = from; to = to })

pub record RestaurantDeliveryAvgQuery : Type 0 where
  pub restaurant_id : ℤ
  pub from : String
  pub to : String

unfoldable pub parse_restaurant_delivery_avg_query :
    Validator → String → String → String → Result RestaurantDeliveryAvgQuery
parse_restaurant_delivery_avg_query v param from to =
    let id = parsed_id v param in
    validated v (failed "RestaurantID" (v.check_id id) ++ dates v from to)
      (record { restaurant_id = id; from = from; to = to })

pub record BranchDaysQuery : Type 0 where
  pub branch_id : ℤ
  pub from : String
  pub to : String

unfoldable pub parse_branch_days_query :
    Validator → String → String → String → Result BranchDaysQuery
parse_branch_days_query v param from to =
    let id = parsed_id v param in
    validated v (failed "BranchID" (v.check_id id) ++ dates v from to)
      (record { branch_id = id; from = from; to = to })

pub record ProductDaysQuery : Type 0 where
  pub branch_id : ℤ
  pub product_id : ℤ
  pub from : String
  pub to : String

unfoldable pub parse_product_days_query :
    Validator → String → String → String → String → Result ProductDaysQuery
parse_product_days_query v branch_param product_param from to =
    let branch_id = parsed_id v branch_param in
    let product_id = parsed_id v product_param in
    validated v
      (failed "BranchID" (v.check_id branch_id)
        ++ (failed "ProductID" (v.check_id product_id) ++ dates v from to))
      (record { branch_id = branch_id; product_id = product_id; from = from; to = to })

pub record ActiveRestaurantsQuery : Type 0 where
  pub from : String
  pub to : String

unfoldable pub parse_active_restaurants_query :
    Validator → String → String → Result ActiveRestaurantsQuery
parse_active_restaurants_query v from to =
    validated v (dates v from to) (record { from = from; to = to })

pub record PlatformDaysQuery : Type 0 where
  pub from : String
  pub to : String

unfoldable pub parse_platform_days_query : Validator → String → String → Result PlatformDaysQuery
parse_platform_days_query v from to =
    validated v (dates v from to) (record { from = from; to = to })

pub record PlatformSummaryQuery : Type 0 where
  pub from : String
  pub to : String

unfoldable pub parse_platform_summary_query :
    Validator → String → String → Result PlatformSummaryQuery
parse_platform_summary_query v from to =
    validated v (dates v from to) (record { from = from; to = to })
