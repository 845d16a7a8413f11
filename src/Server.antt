-- ===== src/Server.antt =====
-- The HTTP server that lib/boot/boot.go mounts: the middlewares, /health and the analytics routes, and
-- writeJSON of lib/http/response.go. encoding/json and chi's matching are parameters.
pub mod Correlated
use quick_bite_analytics_ser.Prelude.{ℕ, String, Option, none, some, List, [], ◌∷◌}
use quick_bite_analytics_ser.Mongo.Driver.{Mongo}
use quick_bite_analytics_ser.Http.{Body, Response, send_success}
use quick_bite_analytics_ser.Auth.{Incoming, Jwt}
use quick_bite_analytics_ser.Rbac.Cache.{Cache, Held}
use quick_bite_analytics_ser.Analytics.Service.Reads.{Floats}
use quick_bite_analytics_ser.Analytics.Dto.{Validator}
use quick_bite_analytics_ser.Analytics.Routes.{
  Router, Answer, refusal, not_routed, of_restaurant_days, of_restaurant_failures,
  of_restaurant_delivery_avg, of_active_restaurants, of_branch_days, of_product_days,
  of_platform_days, of_platform_summary, handle,
}
use quick_bite_analytics_ser.AppContext.{Logger}
use quick_bite_analytics_ser.Middleware.{
  Call, set_header, write_header, write, Exchange, Handler, Process, correlation, access_log,
}

-- what the root router makes of a request
pub data Target : Type 0 where
  health : Target
  -- the request as the mounted router sees it
  analytics : Incoming → Target
  missing : Target

-- chi: the target of a request by the pattern of GET /health and the prefix of the mount, and what
-- is answered where no pattern fits
pub record Chi : Type 0 where
  pub target : String → String → Incoming → Target
  pub not_found : List Call

-- json.NewEncoder(w).Encode of an envelope
pub record Json : Type 1 where
  pub encode : {D : Type 0} → Body D → String

abbrev pub write_json : {D : Type 0} → Json → Response D → List Call
write_json json r =
    set_header "Content-Type" "application/json"
    ∷ write_header r.status_code
    ∷ write (json.encode r.body)
    ∷ []

abbrev pub health_body : List (String × String)
health_body = ("status", "ok") ∷ []

-- the documents, and what the cache of permissions holds
abbrev pub Store : Mongo → Type 0 → Type 0
Store m W = m.World × Held W

module _ {F : Type 0} (json : Json) (chi : Chi) where
  abbrev pub calls_of : Answer F → List Call
  calls_of (refusal r) = write_json json r
  calls_of not_routed = chi.not_found
  calls_of (of_restaurant_days r) = write_json json r
  calls_of (of_restaurant_failures r) = write_json json r
  calls_of (of_restaurant_delivery_avg r) = write_json json r
  calls_of (of_active_restaurants r) = write_json json r
  calls_of (of_branch_days r) = write_json json r
  calls_of (of_product_days r) = write_json json r
  calls_of (of_platform_days r) = write_json json r
  calls_of (of_platform_summary r) = write_json json r

  module _ {W : Type 0} (m : Mongo) (v : Validator) (floats : Floats F) (router : Router)
      (jwt : Jwt) (access_secret : String) (c : Cache W) where
    -- the handlers of the root router
    abbrev pub routed : Target → Store m W → List Call × Store m W
    routed health w = (write_json json (send_success 200 health_body), w)
    routed (analytics r) (w, h) =
        let (answer, w', h') = handle m v floats router jwt access_secret c r w h in
        (calls_of answer, (w', h'))
    routed missing w = (chi.not_found, w)

    unfoldable pub root_handler : Handler (Store m W)
    root_handler ctx r w =
        let (calls, w') = routed (chi.target "/health" "/api/v1/analytics" r) w in
        (record { calls = calls; logged = [] }, w')

    -- router.Use(Correlation) and router.Use(AccessLog), at a fresh context
    unfoldable pub serve :
        Process (Store m W) → Logger → Incoming → Store m W → Exchange × Store m W
    unfolding root_handler correlation access_log
    serve process log r w = correlation process log (access_log process root_handler) [] r w
