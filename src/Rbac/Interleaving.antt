-- ===== src/Rbac/Interleaving.antt =====
-- lib/rbac/cache.go under several goroutines. The lock is held for the lookup, for the store and for
-- Invalidate, each of which is one step here; a fetch runs without it, so that other steps fall between
-- its parts. Core-service answers a fetch with the list that it has when it handles it.
pub mod Fresh
pub mod Overtaken
pub mod Alone
use quick_bite_analytics_ser.Prelude.{
  ℕ, ℤ, pos, ◌+ℤ◌, String, ◌==◌, ◌≡◌, Bool, true, false, not, Option, none, some, List, [], ◌∷◌,
  ◌++◌, ltb_ℤ, if◌then◌else◌,
}
use quick_bite_analytics_ser.Go.Time.{Time, sub}
use quick_bite_analytics_ser.Mongo.Bson.{lookup}
use quick_bite_analytics_ser.Rbac.Cache.{Entry, Entries, Held, with_entry, invalidate}

-- A call of GetPermissions that has found no fresh entry: before its fetch is handled, and after.
pub data Pending : Type 0 where
  asked : String → Pending
  fetched : String → List String → Pending

pub record Shared : Type 0 where
  pub entries : Entries
  pub pending : List Pending
  -- what core-service has for each role
  pub core : String → List String
  pub now : Time

module _ (ttl : ℤ) where
  -- ok && time.Since(e.cachedAt) < c.ttl
  abbrev pub is_fresh : Time → Option Entry → Bool
  is_fresh now none = false
  is_fresh now (some e) = ltb_ℤ (sub now e.cached_at) ttl

  abbrev pub hits : Shared → String → Bool
  hits s role = is_fresh s.now (lookup role s.entries)

-- c.entries[role] = entry{permissions: perms, cachedAt: time.Now()}, under the lock
abbrev pub store : String → List String → List Pending → Shared → Shared
store role perms rest s = record s {
  entries = with_entry role (record { permissions = perms; cached_at = s.now }) s.entries;
  pending = rest;
}

-- Invalidate, under the lock
abbrev pub invalidate_shared : String → Shared → Shared
invalidate_shared role s = record s {
  entries = (invalidate role (record { entries = s.entries; outside = tt })).entries;
}

abbrev pub change : String → List String → Shared → Shared
change role perms s = record s { core = λ r. if r == role then perms else s.core r }

-- One step, where core-service may only give a role a list that is Allowed.
pub data Step (ttl : ℤ) (Allowed : String → List String → Type 0) : Shared → Shared → Type 0 where
  misses :
      (s : Shared) (role : String)
      → hits ttl s role ≡ false
      → Step ttl Allowed s (record s { pending = asked role ∷ s.pending })
  answers :
      (s : Shared) (xs ys : List Pending) (role : String)
      → s.pending ≡ xs ++ asked role ∷ ys
      → Step ttl Allowed s (record s { pending = fetched role (s.core role) ∷ (xs ++ ys) })
  fails :
      (s : Shared) (xs ys : List Pending) (role : String)
      → s.pending ≡ xs ++ asked role ∷ ys
      → Step ttl Allowed s (record s { pending = xs ++ ys })
  stores :
      (s : Shared) (xs ys : List Pending) (role : String) (perms : List String)
      → s.pending ≡ xs ++ fetched role perms ∷ ys
      → Step ttl Allowed s (store role perms (xs ++ ys) s)
  invalidates : (s : Shared) (role : String) → Step ttl Allowed s (invalidate_shared role s)
  changes :
      (s : Shared) (role : String) (perms : List String)
      → Allowed role perms
      → Step ttl Allowed s (change role perms s)
  passes : (s : Shared) (d : ℕ) → Step ttl Allowed s (record s { now = s.now +ℤ pos d })

pub data Run (ttl : ℤ) (Allowed : String → List String → Type 0) : Shared → Shared → Type 0 where
  stop : (s : Shared) → Run ttl Allowed s s
  step : (s t u : Shared) → Step ttl Allowed s t → Run ttl Allowed t u → Run ttl Allowed s u
