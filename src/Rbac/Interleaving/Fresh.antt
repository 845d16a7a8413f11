-- ===== src/Rbac/Interleaving/Fresh.antt =====
-- What the cache holds after an invalidation that overtakes no fetch.
use quick_bite_analytics_ser.Prelude.{
  String, ◌==◌, ◌≡◌, refl, sym, subst, Bool-cases, inl, inr, Option, none, some, List, [], ◌∷◌,
  ◌++◌, All, eq_iff, ℤ,
}
use quick_bite_analytics_ser.Mongo.Bson.{lookup}
use quick_bite_analytics_ser.Rbac.Cache.{Entry, Entries, invalidate, without, with_entry}
use quick_bite_analytics_ser.Rbac.Cache.Entries.{
  lookup-without_same, lookup-without_other, lookup-with_entry,
}
use quick_bite_analytics_ser.Rbac.Interleaving.{
  Pending, asked, fetched, Shared, invalidate_shared, change, Step, misses, answers, fails, stores,
  invalidates, changes, passes, Run, stop, step,
}

All-take :
    {A : Type 0} (P : A → Type 0) (xs ys : List A) (y : A)
    → All P (xs ++ y ∷ ys)
    → P y × All P (xs ++ ys)
All-take P [] ys y (here, rest) = (here, rest)
All-take P (x ∷ xs) ys y (first, rest) =
    let (here, others) = All-take P xs ys y rest in (here, (first, others))

module _ (Allowed : String → List String → Type 0) (role : String) where
  -- A list that is on its way to the cache for this role is allowed.
  abbrev pub Sound : Pending → Type 0
  Sound (asked r) = Unit
  Sound (fetched r perms) = r ≡ role → Allowed r perms

  abbrev EntrySound : Option Entry → Type 0
  EntrySound none = Unit
  EntrySound (some e) = Allowed role e.permissions

  record Holds (s : Shared) : Type 0 where
    core : Allowed role (s.core role)
    entry : EntrySound (lookup role s.entries)
    pending : All Sound s.pending

  EntrySound-invalidate :
      (r : String) (s : Shared)
      → EntrySound (lookup role s.entries)
      → EntrySound (lookup role (invalidate_shared r s).entries)
  unfolding invalidate
  EntrySound-invalidate r s sound = elim (Bool-cases (r == "")) [
    | inl all ↦ rw all tt
    | inr one ↦ rw one (elim (Bool-cases (r == role)) [
      | inl hit ↦
          subst (λ q. EntrySound (lookup q (without r s.entries))) ((eq_iff r role).0 hit)
            (rw (lookup-without_same r s.entries) tt)
      | inr miss ↦ rw (lookup-without_other r role s.entries miss) sound
    ])
  ]

  EntrySound-store :
      (r : String) (e : Entry) (es : Entries)
      → (r ≡ role → Allowed r e.permissions)
      → EntrySound (lookup role es)
      → EntrySound (lookup role (with_entry r e es))
  EntrySound-store r e es new old =
      rw (lookup-with_entry r role e es) (elim (Bool-cases (r == role)) [
        | inl hit ↦
            let same : r ≡ role = (eq_iff r role).0 hit in
            rw hit (subst (λ q. Allowed q e.permissions) same (new same))
        | inr miss ↦ rw miss old
      ])

  core-change :
      (r : String) (perms : List String) (s : Shared)
      → Allowed r perms
      → Allowed role (s.core role)
      → Allowed role ((change r perms s).core role)
  core-change r perms s new old = elim (Bool-cases (role == r)) [
    | inl hit ↦ rw hit (subst (λ q. Allowed q perms) (sym ((eq_iff role r).0 hit)) new)
    | inr miss ↦ rw miss old
  ]

  Step-Holds : {ttl : ℤ} (s t : Shared) → Step ttl Allowed s t → Holds s → Holds t
  Step-Holds s t (misses _ r miss) h = record {
    core = h.core;
    entry = h.entry;
    pending = (tt, h.pending);
  }
  Step-Holds s t (answers _ xs ys r at) h = record {
    core = h.core;
    entry = h.entry;
    pending = (
      λ same. subst (λ q. Allowed q (s.core q)) (sym same) h.core,
      (All-take Sound xs ys (asked r) (subst (All Sound) at h.pending)).1,
    );
  }
  Step-Holds s t (fails _ xs ys r at) h = record {
    core = h.core;
    entry = h.entry;
    pending = (All-take Sound xs ys (asked r) (subst (All Sound) at h.pending)).1;
  }
  Step-Holds s t (stores _ xs ys r perms at) h =
      let (new, rest) = All-take Sound xs ys (fetched r perms) (subst (All Sound) at h.pending) in
      record { core = h.core; entry = EntrySound-store r _ s.entries new h.entry; pending = rest }
  Step-Holds s t (invalidates _ r) h = record {
    core = h.core;
    entry = EntrySound-invalidate r s h.entry;
    pending = h.pending;
  }
  Step-Holds s t (changes _ r perms new) h = record {
    core = core-change r perms s new h.core;
    entry = h.entry;
    pending = h.pending;
  }
  Step-Holds s t (passes _ d) h = record { core = h.core; entry = h.entry; pending = h.pending }

  Run-Holds : {ttl : ℤ} (s t : Shared) → Run ttl Allowed s t → Holds s → Holds t
  Run-Holds s t (stop _) h = h
  Run-Holds s t (step _ u _ first rest) h = Run-Holds u t rest (Step-Holds s u first h)

  lookup-invalidate : (s : Shared) → lookup role (invalidate_shared role s).entries ≡ none
  unfolding invalidate
  lookup-invalidate s = elim (Bool-cases (role == "")) [
    | inl all ↦ rw all refl
    | inr one ↦ rw one (lookup-without_same role s.entries)
  ]

  -- Once a role has been invalidated, while every list on its way to the cache for the role is allowed,
  -- each list that the cache ever holds for it is allowed: any lists that core-service is allowed to
  -- have from then on, in any interleaving of lookups, fetches, stores and invalidations.
  pub invalidate-Allowed :
      (ttl : ℤ) (s t : Shared) (e : Entry)
      → Allowed role (s.core role)
      → All Sound s.pending
      → Run ttl Allowed (invalidate_shared role s) t
      → lookup role t.entries ≡ some e
      → Allowed role e.permissions
  invalidate-Allowed ttl s t e now coming run held =
      let start : Holds (invalidate_shared role s) = record {
        core = now;
        entry = rw (lookup-invalidate s) tt;
        pending = coming;
      } in
      subst EntrySound held (Run-Holds (invalidate_shared role s) t run start).entry
