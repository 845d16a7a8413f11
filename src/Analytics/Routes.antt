-- ===== src/Analytics/Routes.antt =====
-- app/analytics/controller/routes.go: authenticate, then the guard, then the endpoint. chi's matching
-- of a request against the patterns is a parameter. The JSON encoding is left out.
pub mod Admission
use quick_bite_analytics_ser.Prelude.{String, Option, none, some, List, [], ◌∷◌}
use quick_bite_analytics_ser.Go.Effect.{Eff, Result, ok, fail}
use quick_bite_analytics_ser.Mongo.Driver.{Mongo}
use quick_bite_analytics_ser.Http.{Response, send_error, wrap}
use quick_bite_analytics_ser.Auth.{Incoming, Jwt, authenticate}
use quick_bite_analytics_ser.Rbac.Cache.{Cache, Held}
use quick_bite_analytics_ser.Rbac.Middleware.{Claims, Outcome, served, refused, require}
use quick_bite_analytics_ser.Analytics.Types.{perm_analytics_read}
use quick_bite_analytics_ser.Analytics.Service.Reads.{Floats}
use quick_bite_analytics_ser.Analytics.Dto.{Validator}
use quick_bite_analytics_ser.Analytics.Dto.Responses.{
  RestaurantDayResponse, BranchDayResponse, ProductDayResponse, PlatformDayResponse,
  FailureResponse, DeliveryAvgResponse, PlatformSummaryResponse, ActiveRestaurantsResponse,
}
use quick_bite_analytics_ser.Analytics.Controller.{
  get_restaurant_days_endpoint, get_restaurant_failures_endpoint,
  get_restaurant_delivery_avg_endpoint, get_active_restaurants_endpoint, get_branch_days_endpoint,
  get_product_days_endpoint, get_platform_days_endpoint, get_platform_summary_endpoint,
}

pub data Endpoint : Type 0 where
  restaurant_days restaurant_failures restaurant_delivery_avg active_restaurants : Endpoint
  branch_days product_days platform_days platform_summary : Endpoint

abbrev pub patterns : List (String × Endpoint)
patterns =
    ("/restaurants/{restaurantId}/days", restaurant_days)
    ∷ ("/restaurants/{restaurantId}/failures", restaurant_failures)
    ∷ ("/restaurants/{restaurantId}/delivery-avg", restaurant_delivery_avg)
    ∷ ("/restaurants/active", active_restaurants)
    ∷ ("/branches/{branchId}/days", branch_days)
    ∷ ("/branches/{branchId}/products/{productId}/days", product_days)
    ∷ ("/platform/days", platform_days)
    ∷ ("/platform/summary", platform_summary)
    ∷ []

-- chi: the endpoint of a GET request by the patterns, with its chi.URLParam; `none` is a 404 or a 405
abbrev pub Router : Type 0
Router = List (String × Endpoint) → Incoming → Option (Endpoint × (String → String))

-- what is answered
pub data Answer (F : Type 0) : Type 0 where
  refusal : Response Unit → Answer F
  not_routed : Answer F
  of_restaurant_days : Response (List RestaurantDayResponse) → Answer F
  of_restaurant_failures : Response (List (FailureResponse F)) → Answer F
  of_restaurant_delivery_avg : Response (List DeliveryAvgResponse) → Answer F
  of_active_restaurants : Response ActiveRestaurantsResponse → Answer F
  of_branch_days : Response (List BranchDayResponse) → Answer F
  of_product_days : Response (List ProductDayResponse) → Answer F
  of_platform_days : Response (List PlatformDayResponse) → Answer F
  of_platform_summary : Response (List (PlatformSummaryResponse F)) → Answer F

module _ {F : Type 0} (m : Mongo) (v : Validator) (floats : Floats F) where
  abbrev pub wrapped_as :
      {D : Type 0}
      → (Response D → Answer F)
      → Eff m.World (Response D)
      → m.World
      → Answer F × m.World
  wrapped_as answer endpoint w = let (r, w') = endpoint w in (answer (wrap r), w')

  -- apperror.Wrap of the endpoint, with the parameters that it reads from the request
  unfoldable pub run_endpoint :
      Endpoint → (String → String) → Incoming → m.World → Answer F × m.World
  run_endpoint restaurant_days url r =
      wrapped_as of_restaurant_days
        (get_restaurant_days_endpoint m v (url "restaurantId") (r.query "from") (r.query "to"))
  run_endpoint restaurant_failures url r = wrapped_as of_restaurant_failures (
      get_restaurant_failures_endpoint m v floats (url "restaurantId") (r.query "from")
        (r.query "to"))
  run_endpoint restaurant_delivery_avg url r = wrapped_as of_restaurant_delivery_avg (
      get_restaurant_delivery_avg_endpoint m v (url "restaurantId") (r.query "from") (r.query "to"))
  run_endpoint active_restaurants url r =
      wrapped_as of_active_restaurants
        (get_active_restaurants_endpoint m v (r.query "from") (r.query "to"))
  run_endpoint branch_days url r =
      wrapped_as of_branch_days
        (get_branch_days_endpoint m v (url "branchId") (r.query "from") (r.query "to"))
  run_endpoint product_days url r = wrapped_as of_product_days (
      get_product_days_endpoint m v (url "branchId") (url "productId") (r.query "from")
        (r.query "to"))
  run_endpoint platform_days url r =
      wrapped_as of_platform_days (get_platform_days_endpoint m v (r.query "from") (r.query "to"))
  run_endpoint platform_summary url r =
      wrapped_as of_platform_summary
        (get_platform_summary_endpoint m v floats (r.query "from") (r.query "to"))

  abbrev pub run_matched :
      Option (Endpoint × (String → String)) → Incoming → m.World → Answer F × m.World
  run_matched none r w = (not_routed, w)
  run_matched (some (endpoint, url)) r w = run_endpoint endpoint url r w

  module _ {W : Type 0} (router : Router) (jwt : Jwt) (access_secret : String) (c : Cache W) where
    -- after the guard
    abbrev pub guarded : Incoming → m.World → Outcome × Held W → Answer F × m.World × Held W
    guarded r w (refused e, h) = (refusal (send_error e), w, h)
    guarded r w (served, h) = let (a, w') = run_matched (router patterns r) r w in (a, w', h)

    abbrev pub authenticated :
        Incoming → m.World → Held W → Result Claims → Answer F × m.World × Held W
    authenticated r w h (fail e) = (refusal (send_error e), w, h)
    authenticated r w h (ok claims) = guarded r w (require c perm_analytics_read (some claims) h)

    unfoldable pub handle : Incoming → m.World → Held W → Answer F × m.World × Held W
    unfolding run_endpoint
    handle r w h = authenticated r w h (authenticate jwt access_secret r)
