-- ===== src/Tests/Rbac.antt =====
-- The cache and the middleware, over a core-service that answers every role alike.
use quick_bite_analytics_ser.Prelude.{ℤ, pos, String, ◌≡◌, refl, ◌↔◌, some, List, [], ◌∷◌}
use quick_bite_analytics_ser.Go.Effect.{ok}
use quick_bite_analytics_ser.Rbac.Cache.{Cache, Held, get_permissions}
use quick_bite_analytics_ser.Rbac.Cache.Reading.{get_permissions-Backed, Answered, Backed}
use quick_bite_analytics_ser.Rbac.Middleware.{Claims, require, served, restaurant_user_role}
use quick_bite_analytics_ser.Rbac.Middleware.Guard.{require-MayPass, MayPass}

abbrev pub core : Cache ℤ
core = record { ttl = pos 300; fetch = λ role w. (ok ("analytics:read" ∷ []), w); clock = λ w. w }

abbrev pub held : Held ℤ
held = record {
  entries =
      ("owner", record { permissions = []; cached_at = pos 90 })
      ∷ ("staff", record { permissions = []; cached_at = pos 90 })
      ∷ [];
  outside = pos 100;
}

abbrev owner : Claims
owner = record {
  user_id = pos 1;
  role = restaurant_user_role;
  email = "o@x";
  restaurant_id = some (pos 7);
  restaurant_role = "owner";
  branch_ids = [];
}

-- every list is one that says nothing but analytics:read
abbrev Known : String → List String → Type 0
Known role [] = Unit
Known role (p ∷ ps) = (p ≡ "analytics:read") × Known role ps

get_permissions-Backed_example :
    Answered core Known "owner"
      (get_permissions core "owner" (record { entries = []; outside = pos 100 })).0
    × Backed core Known
        (get_permissions core "owner" (record { entries = []; outside = pos 100 })).1.entries
get_permissions-Backed_example =
    get_permissions-Backed core Known "owner" (record { entries = []; outside = pos 100 })
      (λ r w. (refl, tt)) (λ r e h. cc)

require-MayPass_example :
    ((require core "analytics:read" (some owner) held).0 ≡ served)
    ↔ MayPass core "analytics:read" (some owner) held
require-MayPass_example = require-MayPass core "analytics:read" (some owner) held
