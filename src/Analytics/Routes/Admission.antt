-- ===== src/Analytics/Routes/Admission.antt =====
-- Which requests reach an endpoint.
use quick_bite_analytics_ser.Prelude.{
  String, ◌==◌, ◌≡◌, ◌≢◌, ◌↔◌, refl, sym, ap, subst, ◌⊎◌, inl, inr, Bool, true, false, Bool-cases,
  some, List, [], ◌∷◌, eq_iff, if◌then◌else◌,
}
use quick_bite_analytics_ser.Errors.{Error}
use quick_bite_analytics_ser.Go.Effect.{Result, ok, fail}
use quick_bite_analytics_ser.Mongo.Driver.{Mongo}
use quick_bite_analytics_ser.Http.{send_error}
use quick_bite_analytics_ser.Auth.{
  Incoming, Jwt, JwtClaims, extract_token, if_valid, claims_of, verify_access_token,
  or_unauthenticated, authenticate,
}
use quick_bite_analytics_ser.Rbac.Cache.{Cache, Held, get_permissions, has_permission}
use quick_bite_analytics_ser.Rbac.Middleware.{
  Claims, Outcome, served, refused, require, decide, permitted, err_unauthenticated, err_forbidden,
  err_rbac_unavailable, system_admin_role, restaurant_user_role,
}
use quick_bite_analytics_ser.Rbac.Middleware.Guard.{MayPass, require-MayPass}
use quick_bite_analytics_ser.Analytics.Types.{perm_analytics_read}
use quick_bite_analytics_ser.Analytics.Service.Reads.{Floats}
use quick_bite_analytics_ser.Analytics.Dto.{Validator}
use quick_bite_analytics_ser.Analytics.Routes.{
  Router, Answer, refusal, patterns, run_matched, guarded, handle,
}

-- The errors of the middlewares: 401, 403 and 503.
abbrev pub Refusal : Error → Type 0
Refusal e = (e ≡ err_unauthenticated) ⊎ ((e ≡ err_forbidden) ⊎ (e ≡ err_rbac_unavailable))

decide-Refusal :
    (permission : String) (r : Result (List String)) (e : Error)
    → decide permission r ≡ refused e
    → Refusal e
unfolding decide
decide-Refusal permission (ok perms) e h = go (has_permission perms permission) h
  where
    go : (b : Bool) → permitted b ≡ refused e → Refusal e
    go true h = cc
    go false h = inr (inl cc)
decide-Refusal permission (fail x) e h = inr (inr cc)

require-Refusal :
    {W : Type 0} (c : Cache W) (permission : String) (claims : Claims) (h : Held W) (e : Error)
    → (require c permission (some claims) h).0 ≡ refused e
    → Refusal e
unfolding require
require-Refusal {W = W} c permission claims h e =
    go (claims.role == system_admin_role) (claims.role == restaurant_user_role)
  where
    go :
        (admin user : Bool)
        → (let t : Outcome × Held W =
              if admin
              then (served, h)
              else if user
              then (let (perms, h') = get_permissions c claims.restaurant_role h in
                  (decide permission perms, h'))
              else (refused err_forbidden, h) in
            t.0)
          ≡ refused e
        → Refusal e
    go true user r = cc
    go false true r = decide-Refusal permission _ e r
    go false false r = inr (inl cc)

module _ (jwt : Jwt) (Signed : String → String → String → JwtClaims → Type 0)
    (verifies : (key alg token : String) (j : JwtClaims)
      → (jwt key (alg ∷ []) token ≡ ok (j, true)) ↔ Signed alg key token j)
    (access_secret : String) where
  -- The request has a token, and it is one that HS256 signs with the secret for these claims.
  abbrev pub Bears : Incoming → JwtClaims → Type 0
  Bears r j = (extract_token r ≢ "") × Signed "HS256" access_secret (extract_token r) j

  -- What Authenticate comes to: the claims of the token, or an error and no such token.
  abbrev Checked : Incoming → Result Claims → Type 0
  Checked r o =
      ((j : JwtClaims) × Bears r j × ((k : JwtClaims) → Bears r k → j ≡ k) × (o ≡ ok (claims_of j)))
      ⊎ ((o ≡ fail err_unauthenticated) × ((j : JwtClaims) → Bears r j → ⊥))

  authenticate-Checked : (r : Incoming) → Checked r (authenticate jwt access_secret r)
  unfolding authenticate verify_access_token
  authenticate-Checked r = elim (Bool-cases (extract_token r == "")) [
    | inl blank ↦ rw blank (inr (refl, λ j b. b.0 ((eq_iff (extract_token r) "").0 blank)))
    | inr token ↦ rw token (
        go (jwt access_secret ("HS256" ∷ []) (extract_token r)) refl (λ same.
          let hit : (extract_token r == "") ≡ true = (eq_iff (extract_token r) "").1 same in cc))
  ]
    where
      go :
          (t : Result (JwtClaims × Bool))
          → jwt access_secret ("HS256" ∷ []) (extract_token r) ≡ t
          → extract_token r ≢ ""
          → Checked r (or_unauthenticated (if_valid t))
      go (ok (j, true)) e present = inl (
        j,
        (present, (verifies access_secret "HS256" (extract_token r) j).0 e),
        λ k b. (let same = (verifies access_secret "HS256" (extract_token r) k).1 b.1 in cc),
        refl,
      )
      go (ok (j, false)) e present = inr (
        refl,
        λ k b. (let same = (verifies access_secret "HS256" (extract_token r) k).1 b.1 in cc),
      )
      go (fail x) e present = inr (
        refl,
        λ k b. (let same = (verifies access_secret "HS256" (extract_token r) k).1 b.1 in cc),
      )

  module _ {F W : Type 0} (m : Mongo) (v : Validator) (floats : Floats F) (router : Router)
      (c : Cache W) where
    -- The request bears a token whose claims may pass the guard for analytics:read.
    abbrev pub Admitted : Incoming → Held W → Type 0
    Admitted r h =
        (j : JwtClaims) × Bears r j × MayPass c perm_analytics_read (some (claims_of j)) h

    Answered : Incoming → m.World → Held W → Answer F × m.World × Held W → Type 0
    Answered r w h t =
        (Admitted r h
          × (t.0 ≡ (run_matched m v floats (router patterns r) r w).0)
          × (t.1 ≡ (run_matched m v floats (router patterns r) r w).1))
        ⊎ ((Admitted r h → ⊥)
            × ((e : Error) × Refusal e × (t.0 ≡ refusal (send_error e)) × (t.1 ≡ w)))

    guarded-Answered :
        (r : Incoming) (w : m.World) (h : Held W) (j : JwtClaims)
        → Bears r j
        → ((k : JwtClaims) → Bears r k → j ≡ k)
        → (t : Outcome × Held W) → require c perm_analytics_read (some (claims_of j)) h ≡ t
        → Answered r w h (guarded m v floats router jwt access_secret c r w t)
    unfolding Answered
    guarded-Answered r w h j bears only (served, h') e = inl (
      (
        j,
        bears,
        (require-MayPass c perm_analytics_read (some (claims_of j)) h).0 (ap (λ t. t.0) e),
      ),
      refl,
      refl,
    )
    guarded-Answered r w h j bears only (refused x, h') e = inr (
      (λ a.
          let may =
            subst (λ k. MayPass c perm_analytics_read (some (claims_of k)) h) (sym (only a.0 a.1))
              a.2 in
          let passes = (require-MayPass c perm_analytics_read (some (claims_of j)) h).1 may in
          let blocked : (require c perm_analytics_read (some (claims_of j)) h).0 ≡ refused x =
            ap (λ t. t.0) e in
          cc),
      (x, require-Refusal c perm_analytics_read (claims_of j) h x (ap (λ t. t.0) e), refl, refl),
    )

    -- A request reaches an endpoint exactly if it bears an HS256 token of the secret whose claims may
    -- pass the guard. Then it is answered by what the router finds; any other request is answered with
    -- one of the errors 401, 403 and 503, and the database is not touched.
    pub handle-Admitted :
        (r : Incoming) (w : m.World) (h : Held W)
        → (Admitted r h
            × ((handle m v floats router jwt access_secret c r w h).0
                ≡ (run_matched m v floats (router patterns r) r w).0)
            × ((handle m v floats router jwt access_secret c r w h).1
                ≡ (run_matched m v floats (router patterns r) r w).1))
          ⊎ ((Admitted r h → ⊥)
              × ((e : Error) × Refusal e
                  × ((handle m v floats router jwt access_secret c r w h).0
                      ≡ refusal (send_error e))
                  × ((handle m v floats router jwt access_secret c r w h).1 ≡ w)))
    unfolding handle Answered
    handle-Admitted r w h = elim (authenticate-Checked r) [
      | inl (j, bears, only, passed) ↦ rw passed (
          guarded-Answered r w h j bears only (require c perm_analytics_read (some (claims_of j)) h)
            refl)
      | inr (failed, none_borne) ↦
          rw failed (inr ((λ a. none_borne a.0 a.1), (err_unauthenticated, inl refl, refl, refl)))
    ]
