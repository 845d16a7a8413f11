-- ===== src/Analytics/Controller.antt =====
-- app/analytics/controller/analytics.controller.go, over the service that lib/boot wires in. A
-- request is its path parameters and its `from` and `to`.
pub mod Answers
use quick_bite_analytics_ser.Prelude.{ℤ, String, List}
use quick_bite_analytics_ser.Go.Effect.{Eff, reads, return, ◌>>=◌}
use quick_bite_analytics_ser.Mongo.Driver.{Mongo}
use quick_bite_analytics_ser.Http.{Response, send_success}
use quick_bite_analytics_ser.Analytics.Service.Reads
use quick_bite_analytics_ser.Analytics.Service.Reads.{Floats}
use quick_bite_analytics_ser.Analytics.Dto.{
  Validator, parse_restaurant_days_query, parse_restaurant_failures_query,
  parse_restaurant_delivery_avg_query, parse_branch_days_query, parse_product_days_query,
  parse_active_restaurants_query, parse_platform_days_query, parse_platform_summary_query,
}
use quick_bite_analytics_ser.Analytics.Dto.Responses.{
  RestaurantDayResponse, BranchDayResponse, ProductDayResponse, PlatformDayResponse,
  FailureResponse, DeliveryAvgResponse, PlatformSummaryResponse, ActiveRestaurantsResponse,
  restaurant_days_response_from, branch_days_response_from, product_days_response_from,
  platform_days_response_from, failures_response_from, delivery_avg_response_from,
  platform_summary_response_from, active_restaurants_response_from,
}

module _ (m : Mongo) (v : Validator) where
  unfoldable pub get_restaurant_days_endpoint :
      String → String → String → Eff m.World (Response (List RestaurantDayResponse))
  get_restaurant_days_endpoint restaurant_param from to = do
    q ← reads (λ _. parse_restaurant_days_query v restaurant_param from to)
    rows ← Reads.get_restaurant_days m q.restaurant_id q.from q.to
    return (send_success 200 (restaurant_days_response_from rows))

  unfoldable pub get_restaurant_failures_endpoint :
      {F : Type 0}
      → Floats F
      → String
      → String
      → String
      → Eff m.World (Response (List (FailureResponse F)))
  get_restaurant_failures_endpoint floats restaurant_param from to = do
    q ← reads (λ _. parse_restaurant_failures_query v restaurant_param from to)
    rows ← Reads.get_restaurant_failures m floats q.restaurant_id q.from q.to
    return (send_success 200 (failures_response_from rows))

  unfoldable pub get_restaurant_delivery_avg_endpoint :
      String → String → String → Eff m.World (Response (List DeliveryAvgResponse))
  get_restaurant_delivery_avg_endpoint restaurant_param from to = do
    q ← reads (λ _. parse_restaurant_delivery_avg_query v restaurant_param from to)
    rows ← Reads.get_restaurant_delivery_avg m q.restaurant_id q.from q.to
    return (send_success 200 (delivery_avg_response_from rows))

  unfoldable pub get_active_restaurants_endpoint :
      String → String → Eff m.World (Response (ActiveRestaurantsResponse))
  get_active_restaurants_endpoint from to = do
    q ← reads (λ _. parse_active_restaurants_query v from to)
    count ← Reads.get_active_restaurants m q.from q.to
    return (send_success 200 (active_restaurants_response_from count))

  unfoldable pub get_branch_days_endpoint :
      String → String → String → Eff m.World (Response (List BranchDayResponse))
  get_branch_days_endpoint branch_param from to = do
    q ← reads (λ _. parse_branch_days_query v branch_param from to)
    rows ← Reads.get_branch_days m q.branch_id q.from q.to
    return (send_success 200 (branch_days_response_from rows))

  unfoldable pub get_product_days_endpoint :
      String → String → String → String → Eff m.World (Response (List ProductDayResponse))
  get_product_days_endpoint branch_param product_param from to = do
    q ← reads (λ _. parse_product_days_query v branch_param product_param from to)
    rows ← Reads.get_product_days m q.branch_id q.product_id q.from q.to
    return (send_success 200 (product_days_response_from rows))

  unfoldable pub get_platform_days_endpoint :
      String → String → Eff m.World (Response (List PlatformDayResponse))
  get_platform_days_endpoint from to = do
    q ← reads (λ _. parse_platform_days_query v from to)
    rows ← Reads.get_platform_days m q.from q.to
    return (send_success 200 (platform_days_response_from rows))

  unfoldable pub get_platform_summary_endpoint :
      {F : Type 0}
      → Floats F
      → String
      → String
      → Eff m.World (Response (List (PlatformSummaryResponse F)))
  get_platform_summary_endpoint floats from to = do
    q ← reads (λ _. parse_platform_summary_query v from to)
    rows ← Reads.get_platform_summary m floats q.from q.to
    return (send_success 200 (platform_summary_response_from rows))
