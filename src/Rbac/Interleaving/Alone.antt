-- ===== src/Rbac/Interleaving/Alone.antt =====
-- A call of GetPermissions that no other step falls into.
use quick_bite_analytics_ser.Prelude.{
  ℤ, String, ◌≡◌, refl, ap, ◌∙◌, Bool-cases, inl, inr, false, Option, none, some, List, [], ltb_ℤ,
}
use quick_bite_analytics_ser.Go.Effect.{ok}
use quick_bite_analytics_ser.Go.Time.{sub}
use quick_bite_analytics_ser.Mongo.Bson.{lookup}
use quick_bite_analytics_ser.Rbac.Cache.{
  Cache, Entry, Held, get_permissions, answer, refetch, store_fetched,
}
use quick_bite_analytics_ser.Rbac.Interleaving.{
  Shared, is_fresh, hits, misses, answers, stores, Run, stop, step, store,
}

-- The cache over a core-service that always answers, in a world that is the shared state itself.
abbrev pub over : ℤ → Cache Shared
over ttl = record { ttl = ttl; fetch = λ role s. (ok (s.core role), s); clock = λ s. s.now }

abbrev pub held_of : Shared → Held Shared
held_of s = record { entries = s.entries; outside = s }

-- A lookup that misses, the answer of the fetch, and the store.
fetched-Run :
    (ttl : ℤ) (Allowed : String → List String → Type 0) (s : Shared) (role : String)
    → hits ttl s role ≡ false
    → Run ttl Allowed s (store role (s.core role) s.pending s)
fetched-Run ttl Allowed s role miss = step _ _ _ (misses s role miss) (
    step _ _ _ (answers _ [] s.pending role refl)
      (step _ _ _ (stores _ [] s.pending role (s.core role) refl) (stop _)))

answer-Run :
    (ttl : ℤ) (Allowed : String → List String → Type 0) (s : Shared) (role : String)
    (o : Option Entry)
    → lookup role s.entries ≡ o
    → Run ttl Allowed s (record s { entries = (answer (over ttl) role o (held_of s)).1.entries })
unfolding answer refetch store_fetched
answer-Run ttl Allowed s role none found =
    fetched-Run ttl Allowed s role (ap (is_fresh ttl s.now) found)
answer-Run ttl Allowed s role (some e) found =
    elim (Bool-cases (ltb_ℤ (sub s.now e.cached_at) ttl)) [
      | inl fresh ↦ rw fresh (stop s)
      | inr old ↦ rw old (fetched-Run ttl Allowed s role (ap (is_fresh ttl s.now) found ∙ old))
    ]

-- GetPermissions, when no step of another goroutine falls into it, is a run of the steps.
get_permissions-Run :
    (ttl : ℤ) (Allowed : String → List String → Type 0) (s : Shared) (role : String)
    → Run ttl Allowed s
        (record s { entries = (get_permissions (over ttl) role (held_of s)).1.entries })
unfolding get_permissions
get_permissions-Run ttl Allowed s role = answer-Run ttl Allowed s role (lookup role s.entries) refl
