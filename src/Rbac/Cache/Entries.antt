-- ===== src/Rbac/Cache/Entries.antt =====
-- The map of the cache.
use quick_bite_analytics_ser.Prelude.{
  String, ◌==◌, ◌≡◌, refl, sym, false, none, some, [], ◌∷◌, if◌then◌else◌, Bool-cases, inl, inr,
  eq_iff, subst,
}
use quick_bite_analytics_ser.Mongo.Bson.{lookup}
use quick_bite_analytics_ser.Rbac.Cache.{Entry, Entries, without, with_entry}

pub lookup-without_same : (role : String) (es : Entries) → lookup role (without role es) ≡ none
unfolding without
lookup-without_same role [] = refl
lookup-without_same role ((r, e) ∷ es) = elim (Bool-cases (r == role)) [
  | inl hit ↦ rw hit (lookup-without_same role es)
  | inr miss ↦ rw (miss, miss) (lookup-without_same role es)
]

pub lookup-without_other :
    (role j : String) (es : Entries)
    → (role == j) ≡ false
    → lookup j (without role es) ≡ lookup j es
unfolding without
lookup-without_other role j [] ne = refl
lookup-without_other role j ((r, e) ∷ es) ne = elim (Bool-cases (r == role)) [
  | inl hit ↦
      let other : (r == j) ≡ false =
        subst (λ k. (k == j) ≡ false) (sym ((eq_iff r role).0 hit)) ne in
      rw (hit, other) (lookup-without_other role j es ne)
  | inr miss ↦ elim (Bool-cases (r == j)) [
    | inl here ↦ rw (miss, here) refl
    | inr there ↦ rw (miss, there) (lookup-without_other role j es ne)
  ]
]

pub lookup-with_entry :
    (role j : String) (e : Entry) (es : Entries)
    → lookup j (with_entry role e es) ≡ (if role == j then some e else lookup j es)
unfolding with_entry
lookup-with_entry role j e es = elim (Bool-cases (role == j)) [
  | inl hit ↦ rw hit refl
  | inr miss ↦ rw miss (lookup-without_other role j es miss)
]
