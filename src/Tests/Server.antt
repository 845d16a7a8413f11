-- ===== src/Tests/Server.antt =====
-- A request with no X-CorrelationId, to /health and to the analytics.
use quick_bite_analytics_ser.Prelude.{ℤ, pos, String, ◌==◌, [], ◌∷◌, if◌then◌else◌}
use quick_bite_analytics_ser.Http.{Body, success, failure}
use quick_bite_analytics_ser.AppContext.{Logger, text}
use quick_bite_analytics_ser.Middleware.{write_header, write, Process}
use quick_bite_analytics_ser.Server.{Json, health, analytics, missing, Chi, Store}
use quick_bite_analytics_ser.Server.Correlated.{Correlated}
use quick_bite_analytics_ser.Tests.Store.{memory}
use quick_bite_analytics_ser.Tests.Routes.{incoming}

encoded : {D : Type 0} → Body D → String
encoded (success d) = "data"
encoded (failure code message) = message

abbrev json : Json
json = record { encode = λ b. encoded b }

abbrev chi : Chi
chi = record {
  target = λ pattern prefix r.
      if r.path == pattern
      then health
      else if r.path == prefix
      then analytics (incoming "secret")
      else missing;
  not_found = write_header 404 ∷ write "404 page not found" ∷ [];
}

abbrev process : Process (Store memory ℤ)
process = record {
  new_string = λ w. ("fresh-id", w);
  now = λ w. pos 7;
  fallback = record { bound = [] };
}

abbrev log : Logger
log = record { bound = ("service", text "analytics") ∷ [] }
