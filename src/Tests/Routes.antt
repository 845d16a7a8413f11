-- ===== src/Tests/Routes.antt =====
-- A request with a token, and the same without it.
use quick_bite_analytics_ser.Prelude.{
  pos, String, ◌==◌, ◌≡◌, ◌↔◌, ◌⊎◌, inl, inr, true, Bool-cases, none, some, [], ◌∷◌, eq_iff,
  if◌then◌else◌,
}
use quick_bite_analytics_ser.Errors.{Error, plain}
use quick_bite_analytics_ser.Go.Effect.{ok, fail}
use quick_bite_analytics_ser.Http.{send_error}
use quick_bite_analytics_ser.Auth.{Incoming, Jwt, JwtClaims}
use quick_bite_analytics_ser.Analytics.Routes.{
  Router, refusal, patterns, run_matched, handle, platform_days,
}
use quick_bite_analytics_ser.Analytics.Routes.Admission.{Admitted, Refusal, handle-Admitted}
use quick_bite_analytics_ser.Tests.Store.{memory}
use quick_bite_analytics_ser.Tests.Inputs.{empty}
use quick_bite_analytics_ser.Tests.Reads.{ratio}
use quick_bite_analytics_ser.Tests.Answers.{validator}
use quick_bite_analytics_ser.Tests.Rbac.{core, held}

abbrev admin : JwtClaims
admin = record {
  user_id = pos 1;
  role = "system_admin";
  email = "a@x";
  restaurant_id = none;
  restaurant_role = "";
  branch_ids = [];
}

-- a token is its key
abbrev pub jwt : Jwt
jwt key [] token = fail (plain "no method")
jwt key (alg ∷ _) token =
    if alg == "HS256"
    then (if token == key then ok (admin, true) else fail (plain "signature"))
    else fail (plain "method")

abbrev Signed : String → String → String → JwtClaims → Type 0
Signed alg key token j = (alg ≡ "HS256") × (token ≡ key) × (admin ≡ j)

verifies :
    (key alg token : String) (j : JwtClaims)
    → (jwt key (alg ∷ []) token ≡ ok (j, true)) ↔ Signed alg key token j
verifies key alg token j = elim (Bool-cases (alg == "HS256")) [
  | inl hs ↦ elim (Bool-cases (token == key)) [
    | inl same ↦
        rw (hs, same)
          (
            λ e. ((eq_iff alg "HS256").0 hs, (eq_iff token key).0 same, cc),
            λ s. (let here = s.2 in cc),
          )
    | inr other ↦
        rw (hs, other)
          (λ e. cc, λ s. (let hit : (token == key) ≡ true = (eq_iff token key).1 s.1 in cc))
  ]
  | inr none_such ↦
      rw none_such
        (λ e. cc, λ s. (let hit : (alg == "HS256") ≡ true = (eq_iff alg "HS256").1 s.0 in cc))
]

abbrev pub incoming : String → Incoming
incoming token = record {
  method = "GET";
  path = "/platform/days";
  cookie = λ name. some token;
  header = λ name. "";
  query = λ name. "2024-01-01";
}

abbrev pub router : Router
router table r = some (platform_days, λ name. "")

handle-Admitted_example :
    (Admitted jwt Signed verifies "secret" memory validator ratio router core
        (incoming "secret")
        held
      × ((handle memory validator ratio router jwt "secret" core (incoming "secret") empty held).0
          ≡ (run_matched memory validator ratio
              (router patterns (incoming "secret"))
              (incoming "secret")
              empty).0)
      × ((handle memory validator ratio router jwt "secret" core (incoming "secret") empty held).1
          ≡ (run_matched memory validator ratio
              (router patterns (incoming "secret"))
              (incoming "secret")
              empty).1))
    ⊎ ((Admitted jwt Signed verifies "secret" memory validator ratio router core
            (incoming "secret")
            held
          → ⊥)
        × ((e : Error) × Refusal e
            × ((handle memory validator ratio router jwt "secret" core
                  (incoming "secret")
                  empty
                  held).0
                ≡ refusal (send_error e))
            × ((handle memory validator ratio router jwt "secret" core
                  (incoming "secret")
                  empty
                  held).1
                ≡ empty)))
handle-Admitted_example =
    handle-Admitted jwt Signed verifies "secret" memory validator ratio router core
      (incoming "secret") empty held
