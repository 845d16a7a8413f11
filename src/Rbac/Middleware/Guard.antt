-- ===== src/Rbac/Middleware/Guard.antt =====
-- Who passes the middleware.
use quick_bite_analytics_ser.Prelude.{
  String, ◌==◌, ◌≡◌, refl, Bool, true, false, Option, none, some, List, [], ◌∷◌, ◌⊎◌, inl, inr,
  Bool-cases, eq_iff, ◌↔◌,
}
use quick_bite_analytics_ser.Go.Effect.{Result, ok, fail}
use quick_bite_analytics_ser.Rbac.Cache.{Cache, Held, get_permissions, has_permission}
use quick_bite_analytics_ser.Rbac.Middleware.{
  Claims, served, permitted, decide, require, system_admin_role, restaurant_user_role,
}

-- The permission stands in the list.
abbrev pub Lists : String → List String → Type 0
Lists permission [] = ⊥
Lists permission (p ∷ ps) = (p ≡ permission) ⊎ Lists permission ps

differ : (s t : String) → (s == t) ≡ false → s ≡ t → ⊥
differ s t miss same = let hit : (s == t) ≡ true = (eq_iff s t).1 same in cc

has_permission-Lists :
    (ps : List String) (permission : String)
    → (has_permission ps permission ≡ true) ↔ Lists permission ps
unfolding has_permission
has_permission-Lists [] permission = (λ h. cc, λ h. absurd h)
has_permission-Lists (p ∷ ps) permission = elim (Bool-cases (p == permission)) [
  | inl hit ↦ (λ h. inl ((eq_iff p permission).0 hit), λ h. rw hit refl)
  | inr miss ↦ rw miss (
    λ h. inr ((has_permission-Lists ps permission).0 h),
    λ at. elim at [
      | inl here ↦ absurd (differ p permission miss here)
      | inr there ↦ (has_permission-Lists ps permission).1 there
    ],
  )
]

-- The answer of the cache is a list with the permission.
abbrev pub Grants : String → Result (List String) → Type 0
Grants permission (ok perms) = Lists permission perms
Grants permission (fail e) = ⊥

decide-Grants :
    (permission : String) (r : Result (List String))
    → (decide permission r ≡ served) ↔ Grants permission r
unfolding decide
decide-Grants permission (ok perms) =
    let (to, from) = has_permission-Lists perms permission in
    (λ h. to (permitted_true (has_permission perms permission) h), λ at. rw (from at) refl)
  where
    permitted_true : (b : Bool) → permitted b ≡ served → b ≡ true
    permitted_true true h = refl
    permitted_true false h = cc
decide-Grants permission (fail e) = (λ h. cc, λ at. absurd at)

module _ {W : Type 0} (c : Cache W) (permission : String) where
  -- Who may pass: a system_admin, and a restaurant_user whose restaurant role has the permission, as
  -- the cache answers.
  abbrev pub MayPass : Option Claims → Held W → Type 0
  MayPass none h = ⊥
  MayPass (some claims) h =
      (claims.role ≡ system_admin_role)
      ⊎ ((claims.role ≡ restaurant_user_role)
          × Grants permission (get_permissions c claims.restaurant_role h).0)

  -- Require hands a request on exactly when its caller may pass: a system_admin, or a restaurant_user
  -- whose restaurant role has the permission in what GetPermissions answers.
  pub require-MayPass :
      (claims : Option Claims) (h : Held W)
      → ((require c permission claims h).0 ≡ served) ↔ MayPass claims h
  unfolding require
  require-MayPass none h = (λ s. cc, λ may. absurd may)
  require-MayPass (some claims) h = elim (Bool-cases (claims.role == system_admin_role)) [
    | inl admin ↦ rw admin (λ s. inl ((eq_iff claims.role system_admin_role).0 admin), λ may. refl)
    | inr other ↦ elim (Bool-cases (claims.role == restaurant_user_role)) [
      | inl user ↦
          rw (other, user)
            (
              λ s. inr (
                (eq_iff claims.role restaurant_user_role).0 user,
                (decide-Grants permission _).0 s,
              ),
              λ may. elim may [
                | inl admin ↦ absurd (differ claims.role system_admin_role other admin)
                | inr (role, grants) ↦ (decide-Grants permission _).1 grants
              ],
            )
      | inr neither ↦
          rw (other, neither)
            (
              λ s. cc,
              λ may. elim may [
                | inl admin ↦ absurd (differ claims.role system_admin_role other admin)
                | inr (role, grants) ↦ absurd (differ claims.role restaurant_user_role neither role)
              ],
            )
    ]
  ]
