-- ===== src/Rbac/Cache.antt =====
-- lib/rbac/cache.go and eventhandler.go. The map is an association list; `W` is the world outside,
-- with the clock, which a fetch from core-service changes. A call runs alone here; Interleaving
-- has the calls that run at once.
pub mod Entries
pub mod Reading
pub mod Repeat
use quick_bite_analytics_ser.Prelude.{
  ℤ, String, ◌==◌, Bool, true, false, Option, none, some, List, [], ◌∷◌, ltb_ℤ, if◌then◌else◌,
}
use quick_bite_analytics_ser.Errors.{Error, wrapped}
use quick_bite_analytics_ser.Go.Effect.{Eff, Result, ok, fail}
use quick_bite_analytics_ser.Go.Time.{Time, sub}
use quick_bite_analytics_ser.Mongo.Bson.{lookup}

pub record Entry : Type 0 where
  pub permissions : List String
  pub cached_at : Time

abbrev pub Entries : Type 0
Entries = List (String × Entry)

-- the cache, and what it is built from
pub record Cache (W : Type 0) : Type 0 where
  pub ttl : ℤ
  pub fetch : String → Eff W (List String)
  pub clock : W → Time

-- the entries of the cache, and the world outside
pub record Held (W : Type 0) : Type 0 where
  pub entries : Entries
  pub outside : W

-- delete(c.entries, role)
unfoldable pub without : String → Entries → Entries
without role [] = []
without role ((r, e) ∷ es) = let rest = without role es in if r == role then rest else (r, e) ∷ rest

-- c.entries[role] = e
unfoldable pub with_entry : String → Entry → Entries → Entries
with_entry role e es = (role, e) ∷ without role es

module _ {W : Type 0} (c : Cache W) where
  -- after the fetch: the entry is written with the time of then
  unfoldable pub store_fetched :
      String → Entries → Result (List String) → W → Result (List String) × Held W
  store_fetched role es (fail e) w = (fail e, record { entries = es; outside = w })
  store_fetched role es (ok perms) w = (
    ok perms,
    record {
      entries = with_entry role (record { permissions = perms; cached_at = c.clock w }) es;
      outside = w;
    },
  )

  unfoldable pub refetch : String → Eff (Held W) (List String)
  unfolding store_fetched
  refetch role h =
      let (fetched, w) = c.fetch role h.outside in store_fetched role h.entries fetched w

  -- what the lookup found decides
  unfoldable pub answer : String → Option Entry → Eff (Held W) (List String)
  unfolding refetch
  answer role none h = refetch role h
  answer role (some e) h =
      if ltb_ℤ (sub (c.clock h.outside) e.cached_at) c.ttl
      then (ok e.permissions, h)
      else refetch role h

  unfoldable pub get_permissions : String → Eff (Held W) (List String)
  unfolding answer
  get_permissions role h = answer role (lookup role h.entries) h

unfoldable pub invalidate : {W : Type 0} → String → Held W → Held W
unfolding without
invalidate role h = record h { entries = if role == "" then [] else without role h.entries }

unfoldable pub has_permission : List String → String → Bool
has_permission [] permission = false
has_permission (p ∷ ps) permission =
    let rest = has_permission ps permission in if p == permission then true else rest

-- The handler of rbac.permissions_changed, with json.Unmarshal of the payload's role as a parameter.
unfoldable pub handle_permissions_changed :
    {W : Type 0} → (String → Result String) → String → Eff (Held W) Unit
unfolding invalidate
handle_permissions_changed role_of payload h = elim (role_of payload) [
  | fail e ↦ (fail (wrapped "rbac.permissions_changed: unmarshal payload: %w" [] e), h)
  | ok role ↦ (ok tt, invalidate role h)
]
