-- ===== src/Rbac/Cache/Reading.antt =====
-- What GetPermissions answers, and when it asks core-service.
use quick_bite_analytics_ser.Prelude.{
  String, ◌==◌, ◌≡◌, refl, sym, ◌∙◌, Bool, true, false, ◌||◌, none, some, List, [], ltb_ℤ,
  if◌then◌else◌, Bool-cases, Option-cases, inl, inr, eq_iff, subst,
}
use quick_bite_analytics_ser.Go.Effect.{Result, ok, fail}
use quick_bite_analytics_ser.Go.Time.{sub}
use quick_bite_analytics_ser.Mongo.Bson.{lookup}
use quick_bite_analytics_ser.Rbac.Cache.{
  Entry, Entries, Cache, Held, store_fetched, refetch, answer, get_permissions, invalidate,
  with_entry, without,
}
use quick_bite_analytics_ser.Rbac.Cache.Entries.{
  lookup-without_same, lookup-without_other, lookup-with_entry,
}

module _ {W : Type 0} (c : Cache W) where
  store_fetched-answer :
      (role : String) (es : Entries) (r : Result (List String)) (w : W)
      → ((store_fetched c role es r w).0 ≡ r) × ((store_fetched c role es r w).1.outside ≡ w)
  unfolding store_fetched
  store_fetched-answer role es (ok ps) w = (refl, refl)
  store_fetched-answer role es (fail e) w = (refl, refl)

  answer-none :
      (role : String) (h : Held W)
      → lookup role h.entries ≡ none
      → ((get_permissions c role h).0 ≡ (c.fetch role h.outside).0)
        × ((get_permissions c role h).1.outside ≡ (c.fetch role h.outside).1)
  unfolding get_permissions answer refetch
  answer-none role h absent =
      rw absent
        (store_fetched-answer role h.entries (c.fetch role h.outside).0 (c.fetch role h.outside).1)

  invalidate-lookup :
      (r role : String) (es : Entries)
      → (r == "" || r == role) ≡ true
      → lookup role (if r == "" then [] else without r es) ≡ none
  invalidate-lookup r role es hit = elim (Bool-cases (r == "")) [
    | inl all ↦ rw all refl
    | inr one ↦
        let same : (r == role) ≡ true = subst (λ b. (b || r == role) ≡ true) one hit in
        rw one (
          subst (λ j. lookup j (without r es) ≡ none) ((eq_iff r role).0 same)
            (lookup-without_same r es))
  ]

  -- After Invalidate of a role, or of all with "", the next GetPermissions of that role asks
  -- core-service, whatever was cached and however fresh it was.
  get_permissions-invalidate :
      (r role : String) (h : Held W)
      → (r == "" || r == role) ≡ true
      → ((get_permissions c role (invalidate r h)).0 ≡ (c.fetch role h.outside).0)
        × ((get_permissions c role (invalidate r h)).1.outside ≡ (c.fetch role h.outside).1)
  unfolding invalidate
  get_permissions-invalidate r role h hit =
      answer-none role (invalidate r h) (invalidate-lookup r role h.entries hit)

  -- Invalidate of one role leaves the entry of every other role, or its absence, as it was.
  invalidate-other :
      (r j : String) (h : Held W)
      → (r == "" || r == j) ≡ false
      → lookup j (invalidate r h).entries ≡ lookup j h.entries
  unfolding invalidate
  invalidate-other r j h ne = elim (Bool-cases (r == "")) [
    | inl all ↦ let no : true ≡ false = subst (λ b. (b || r == j) ≡ false) all ne in cc
    | inr one ↦
        rw one (lookup-without_other r j h.entries (subst (λ b. (b || r == j) ≡ false) one ne))
  ]

module _ {W : Type 0} (c : Cache W) (P : String → List String → Type 0) where
  -- What every cached list of permissions satisfies.
  abbrev pub Backed : Entries → Type 0
  Backed es = (r : String) (e : Entry) → lookup r es ≡ some e → P r e.permissions

  abbrev pub Answered : String → Result (List String) → Type 0
  Answered role (ok ps) = P role ps
  Answered role (fail e) = Unit

  with_entry-Backed :
      (role : String) (e : Entry) (es : Entries)
      → P role e.permissions
      → Backed es
      → Backed (with_entry role e es)
  with_entry-Backed role e es new old r f at = elim (Bool-cases (role == r)) [
    | inl hit ↦
        let same : some e ≡ some f =
          subst (λ b. (if b then some e else lookup r es) ≡ some f) hit
            (sym (lookup-with_entry role r e es) ∙ at) in
        let e_is_f : e ≡ f = cc in
        subst (λ g. P r g.permissions) e_is_f
          (subst (λ k. P k e.permissions) ((eq_iff role r).0 hit) new)
    | inr miss ↦ old r f (
        subst (λ b. (if b then some e else lookup r es) ≡ some f) miss
          (sym (lookup-with_entry role r e es) ∙ at))
  ]

  store_fetched-Backed :
      (role : String) (es : Entries) (r : Result (List String)) (w : W)
      → Answered role r
      → Backed es
      → Answered role (store_fetched c role es r w).0
        × Backed (store_fetched c role es r w).1.entries
  unfolding store_fetched
  store_fetched-Backed role es (ok ps) w new old = (new, with_entry-Backed role _ es new old)
  store_fetched-Backed role es (fail e) w new old = (new, old)

  -- If core-service only answers with lists that satisfy `P`, and the cache holds only such lists,
  -- then GetPermissions answers with such a list or an error, and the cache still holds only such.
  pub get_permissions-Backed :
      (role : String) (h : Held W)
      → ((r : String) (w : W) → Answered r (c.fetch r w).0)
      → Backed h.entries
      → Answered role (get_permissions c role h).0 × Backed (get_permissions c role h).1.entries
  unfolding get_permissions answer refetch
  get_permissions-Backed role h honest backed = elim (Option-cases (lookup role h.entries)) [
    | inl absent ↦ rw absent fetched
    | inr (e, found) ↦
        rw found
          (answered e (ltb_ℤ (sub (c.clock h.outside) e.cached_at) c.ttl) (backed role e found))
  ]
    where
      fetched : Answered role (refetch c role h).0 × Backed (refetch c role h).1.entries
      fetched = store_fetched-Backed role h.entries _ _ (honest role h.outside) backed

      answered :
          (e : Entry) (b : Bool)
          → P role e.permissions
          → Answered role (if b then (ok e.permissions, h) else refetch c role h).0
            × Backed (if b then (ok e.permissions, h) else refetch c role h).1.entries
      answered e true p = (p, backed)
      answered e false p = fetched
