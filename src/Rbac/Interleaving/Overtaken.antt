-- ===== src/Rbac/Interleaving/Overtaken.antt =====
-- A fetch that an invalidation overtakes.
use quick_bite_analytics_ser.Prelude.{
  String, ◌≡◌, refl, ap, ◌∙◌, true, false, some, List, [], ◌∷◌, eq_refl, ℤ, pos, ◌<ℤ◌, ◌-ℤ◌, ltb_ℤ,
  arith,
}
use quick_bite_analytics_ser.Go.Time.{Time, sub}
use quick_bite_analytics_ser.Mongo.Bson.{lookup}
use quick_bite_analytics_ser.Rbac.Cache.{Entry}
use quick_bite_analytics_ser.Rbac.Cache.Entries.{lookup-with_entry}
use quick_bite_analytics_ser.Rbac.Interleaving.{
  fetched, Shared, is_fresh, hits, invalidate_shared, store, change, misses, answers, stores,
  changes, Run, stop, step,
}

minus_self : (t : Time) → t -ℤ t ≡ pos 0
unfolding ◌-ℤ◌
minus_self t = ground arith

sub_self : (t : Time) → sub t t ≡ pos 0
unfolding sub
sub_self t = rw (minus_self t) refl

module _ (ttl : ℤ) (role : String) (list : List String) where
  -- Core-service gives no role but this one a list, and this one no other list.
  abbrev pub Only : String → List String → Type 0
  Only r perms = (r ≡ role) × (perms ≡ list)

  -- The call has missed and its fetch has been answered; then core-service changes the role.
  abbrev pub changed : Shared → Shared
  changed s = change role list (record s { pending = fetched role (s.core role) ∷ s.pending })

  -- The change is handled, and only then the call stores what it had fetched.
  abbrev pub overtaken : Shared → Shared
  overtaken s = store role (s.core role) s.pending (invalidate_shared role (changed s))

  to_changed : (s : Shared) → hits ttl s role ≡ false → Run ttl Only s (changed s)
  to_changed s miss = step _ _ _ (misses s role miss) (
      step _ _ _ (answers _ [] s.pending role refl)
        (step _ _ _ (changes _ role list (refl, refl)) (stop _)))

  stored :
      (s : Shared)
      → lookup role (overtaken s).entries
        ≡ some (record { permissions = s.core role; cached_at = s.now })
  stored s = lookup-with_entry role role _ _ ∙ rw (eq_refl role) refl

  still_fresh : (t : Time) → pos 0 <ℤ ttl → ltb_ℤ (sub t t) ttl ≡ true
  still_fresh t positive = rw (sub_self t) (ground arith)

  -- With a positive TTL, from every state where a role has no fresh entry there is a run in which core-service gives the role
  -- another list, the change is invalidated after that, and the cache then hits with the list of
  -- before: the fetch of a call falls before the change, and its store after the invalidation.
  pub invalidate-overtaken :
      (s : Shared)
      → hits ttl s role ≡ false
      → pos 0 <ℤ ttl
      → Run ttl Only s (changed s)
        × ((changed s).core role ≡ list)
        × Run ttl Only (invalidate_shared role (changed s)) (overtaken s)
        × ((e : Entry) × (lookup role (overtaken s).entries ≡ some e)
            × (hits ttl (overtaken s) role ≡ true)
            × (e.permissions ≡ s.core role))
  invalidate-overtaken s miss positive = (
    to_changed s miss,
    rw (eq_refl role) refl,
    step _ _ _ (stores (invalidate_shared role (changed s)) [] s.pending role (s.core role) refl)
        (stop _),
    (
      record { permissions = s.core role; cached_at = s.now },
      stored s,
      ap (is_fresh ttl s.now) (stored s) ∙ still_fresh s.now positive,
      refl,
    ),
  )
