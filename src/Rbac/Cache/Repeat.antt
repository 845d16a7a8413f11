-- ===== src/Rbac/Cache/Repeat.antt =====
-- Two calls of GetPermissions with no time between them.
use quick_bite_analytics_ser.Prelude.{
  ℤ, pos, negsuc, ◌-◌, String, ◌≡◌, refl, sym, ap, ◌∙◌, Bool, true, false, none, some, List, ltb_ℤ,
  if◌then◌else◌, Option-cases, inl, inr, eq_refl, subst, int_laws, ◌-ℤ◌,
}
use quick_bite_analytics_ser.Go.Effect.{Result, ok, fail}
use quick_bite_analytics_ser.Go.Int64.{int64_limit}
use quick_bite_analytics_ser.Go.Time.{Time, sub}
use quick_bite_analytics_ser.Mongo.Bson.{lookup}
use quick_bite_analytics_ser.Rbac.Cache.{
  Entry, Entries, Cache, Held, store_fetched, refetch, answer, get_permissions,
}
use quick_bite_analytics_ser.Rbac.Cache.Entries.{lookup-with_entry}

minus_self : (t : ℤ) → t -ℤ t ≡ pos 0
minus_self t = omega int_laws

sub_self : (t : Time) → sub t t ≡ pos 0
unfolding sub
sub_self t =
    ap
      (λ d.
        if ltb_ℤ (pos (int64_limit - 1)) d
        then pos (int64_limit - 1)
        else if ltb_ℤ d (negsuc (int64_limit - 1))
        then negsuc (int64_limit - 1)
        else d)
      (minus_self t)

module _ {W : Type 0} (c : Cache W) where
  -- an entry of now is fresh
  answer-now :
      (role : String) (h : Held W) (ps : List String)
      → ltb_ℤ (pos 0) c.ttl ≡ true
      → lookup role h.entries ≡ some (record { permissions = ps; cached_at = c.clock h.outside })
      → get_permissions c role h ≡ (ok ps, h)
  unfolding get_permissions answer
  answer-now role h ps positive found = rw (found, sub_self (c.clock h.outside), positive) refl

  stored-again :
      (role : String) (es : Entries) (r : Result (List String)) (w : W) (ps : List String)
      → ltb_ℤ (pos 0) c.ttl ≡ true
      → (store_fetched c role es r w).0 ≡ ok ps
      → get_permissions c role (store_fetched c role es r w).1
        ≡ (ok ps, (store_fetched c role es r w).1)
  unfolding store_fetched
  stored-again role es (fail e) w ps positive h = cc
  stored-again role es (ok qs) w ps positive h =
      let same : qs ≡ ps = cc in
      answer-now role _ ps positive
        (lookup-with_entry role role _ es ∙ rw (eq_refl role, same) refl)

  refetch-again :
      (role : String) (h : Held W) (ps : List String)
      → ltb_ℤ (pos 0) c.ttl ≡ true
      → (refetch c role h).0 ≡ ok ps
      → get_permissions c role (refetch c role h).1 ≡ (ok ps, (refetch c role h).1)
  unfolding refetch
  refetch-again role h ps positive = stored-again role h.entries _ _ ps positive

  found-again :
      (role : String) (h : Held W) (e : Entry) (b : Bool) (ps : List String)
      → ltb_ℤ (pos 0) c.ttl ≡ true
      → lookup role h.entries ≡ some e
      → ltb_ℤ (sub (c.clock h.outside) e.cached_at) c.ttl ≡ b
      → (if b then (ok e.permissions, h) else refetch c role h).0 ≡ ok ps
      → get_permissions c role (if b then (ok e.permissions, h) else refetch c role h).1
        ≡ (ok ps, (if b then (ok e.permissions, h) else refetch c role h).1)
  unfolding get_permissions answer
  found-again role h e true ps positive found fresh answered =
      let same : e.permissions ≡ ps = cc in rw (found, fresh, same) refl
  found-again role h e false ps positive found stale answered =
      refetch-again role h ps positive answered

  Again : String → List String → Result (List String) × Held W → Type 0
  Again role ps r = r.0 ≡ ok ps → get_permissions c role r.1 ≡ (ok ps, r.1)

  absent_answer :
      (role : String) (h : Held W)
      → lookup role h.entries ≡ none
      → get_permissions c role h ≡ refetch c role h
  unfolding get_permissions answer
  absent_answer role h absent = rw absent refl

  found_answer :
      (role : String) (h : Held W) (e : Entry)
      → lookup role h.entries ≡ some e
      → get_permissions c role h ≡ (
          if ltb_ℤ (sub (c.clock h.outside) e.cached_at) c.ttl
          then (ok e.permissions, h)
          else refetch c role h)
  unfolding get_permissions answer
  found_answer role h e found = rw found refl

  -- With a TTL above 0, a GetPermissions that has answered a list answers the same list when it is
  -- called again at the same instant, without asking core-service and without changing the cache.
  get_permissions-again :
      (role : String) (h : Held W) (ps : List String)
      → ltb_ℤ (pos 0) c.ttl ≡ true
      → (get_permissions c role h).0 ≡ ok ps
      → get_permissions c role (get_permissions c role h).1 ≡ (ok ps, (get_permissions c role h).1)
  unfolding Again
  get_permissions-again role h ps positive answered = elim (Option-cases (lookup role h.entries)) [
    | inl absent ↦
        subst (Again role ps) (sym (absent_answer role h absent)) (refetch-again role h ps positive)
          answered
    | inr (e, found) ↦
        subst (Again role ps) (sym (found_answer role h e found))
          (found-again role h e _ ps positive found refl) answered
  ]
