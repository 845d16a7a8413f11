-- ===== src/Rbac/Middleware.antt =====
-- lib/rbac/middleware.go, with lib/appcontext's claims. What the middleware does with a request: it
-- hands it on, or it answers with an error. Log lines are left out.
pub mod Guard
use quick_bite_analytics_ser.Prelude.{
  ℤ, String, ◌==◌, Bool, true, false, Option, none, some, List, not, if◌then◌else◌,
}
use quick_bite_analytics_ser.Errors.{Error, new}
use quick_bite_analytics_ser.Go.Effect.{Result, ok, fail}
use quick_bite_analytics_ser.Rbac.Cache.{Cache, Held, get_permissions, has_permission}

pub record Claims : Type 0 where
  pub user_id : ℤ
  pub role : String
  pub email : String
  pub restaurant_id : Option ℤ
  pub restaurant_role : String
  pub branch_ids : List ℤ

pub data Outcome : Type 0 where
  served : Outcome
  refused : Error → Outcome

abbrev pub err_forbidden : Error
err_forbidden = new "FORBIDDEN" 403 "Permission denied"

abbrev pub err_rbac_unavailable : Error
err_rbac_unavailable = new "RBAC_UNAVAILABLE" 503 "permission check unavailable"

-- of lib/auth/middleware.go
abbrev pub err_unauthenticated : Error
err_unauthenticated = new "UNAUTHENTICATED" 401 "User not authenticated"

abbrev pub system_admin_role : String
system_admin_role = "system_admin"

abbrev pub restaurant_user_role : String
restaurant_user_role = "restaurant_user"

abbrev pub permitted : Bool → Outcome
permitted true = served
permitted false = refused err_forbidden

-- what the answer of the cache decides
unfoldable pub decide : String → Result (List String) → Outcome
decide permission (ok perms) = permitted (has_permission perms permission)
decide permission (fail e) = refused err_rbac_unavailable

module _ {W : Type 0} (c : Cache W) (permission : String) where
  unfoldable pub require : Option Claims → Held W → Outcome × Held W
  unfolding decide
  require none h = (refused err_unauthenticated, h)
  require (some claims) h =
      if claims.role == system_admin_role
      then (served, h)
      else if claims.role == restaurant_user_role
      then (let (perms, h') = get_permissions c claims.restaurant_role h in
          (decide permission perms, h'))
      else (refused err_forbidden, h)
