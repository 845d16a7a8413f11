-- ===== src/CoreEvents/Workers/Once.antt =====
-- No event is handled twice at once, or again after it was applied.
use quick_bite_analytics_ser.Prelude.{
  ℕ, ◌+◌, ◌≤◌, String, ◌==◌, eq_iff, ◌≡◌, refl, ap, ◌∙◌, subst, Bool, true, false, Bool-cases, inl,
  inr, List, [], ◌∷◌, ◌++◌, if◌then◌else◌, arith,
}
use quick_bite_analytics_ser.Go.Effect.{Result, ok}
use quick_bite_analytics_ser.CoreEvents.Consumer.{Envelope, Consumer}
use quick_bite_analytics_ser.CoreEvents.Dedupe.{DedupeLaws}
use quick_bite_analytics_ser.CoreEvents.Workers.{
  Shared, times, Step, marks, skips, refuses, dismisses, writes, succeeds, fails, unmarks, dies,
  dies_failed, Run, stop, step, held, times-middle,
}

abbrev pub bit : Bool → ℕ
bit b = if b then 1 else 0

-- An event id is held once at most, and only if it is recorded.
pub record Once {W : Type 0} (seen : W → String → Bool) (s : Shared W) : Type 0 where
  pub once : (id : String) → held id s ≤ bit (seen s.world id)

module _ {W : Type 0} (c : Consumer W) (seen : W → String → Bool)
    (laws : DedupeLaws c.dedupe seen) where
  module _ (id : String) (w w' : W) {r : Result Bool}
      (marked : c.dedupe.mark_seen id w ≡ (r, w')) where
    pub fresh_bits : r ≡ ok true → (seen w id ≡ false) × (seen w' id ≡ true)
    fresh_bits e =
        subst (λ p. (p.0 ≡ ok true → (seen w id ≡ false) × (seen p.1 id ≡ true))) marked
          (laws.mark_fresh id w) e

    pub kept_bit : (j : String) → seen w j ≡ true → seen w' j ≡ true
    kept_bit j e = subst (λ p. seen p.1 j ≡ true) marked (laws.mark_keeps id j w e)

    others_bit : (j : String) → (id == j) ≡ false → seen w' j ≡ seen w j
    others_bit j e = subst (λ p. seen p.1 j ≡ seen w j) marked (laws.mark_others id j w e)

    grown : (n : ℕ) (j : String) → n ≤ bit (seen w j) → n ≤ bit (seen w' j)
    grown n j h = elim (Bool-cases (seen w j)) [
      | inl old ↦ rw (kept_bit j old) (rw old at h)
      | inr new ↦ omega (arith, rw new at h)
    ]

    marked_once :
        r ≡ ok true
        → (n : ℕ) (j : String) → n ≤ bit (seen w j)
        → (if id == j then 1 else 0) + n ≤ bit (seen w' j)
    marked_once e n j h = elim (Bool-cases (id == j)) [
      | inl hit ↦
          let (old, new) = fresh_bits e in
          let same : id ≡ j = (eq_iff id j).0 hit in
          let empty : seen w j ≡ false = subst (λ k. seen w k ≡ false) same old in
          let full : seen w' j ≡ true = subst (λ k. seen w' k ≡ true) same new in
          rw (hit, full) (omega (arith, rw empty at h))
      | inr miss ↦ rw (miss, others_bit j miss) (omega (arith, h))
    ]

  forgotten :
      (id : String) (w w' : W) {r : Result (Unit {0})} (j : String) (n : ℕ)
      → c.dedupe.unmark id w ≡ (r, w')
      → (if id == j then 1 else 0) + n ≤ bit (seen w j)
      → n ≤ bit (seen w' j)
  forgotten id w w' j n unmarked h = elim (Bool-cases (id == j)) [
    | inl hit ↦ let none_left : n ≡ 0 = ground arith in omega (arith, none_left)
    | inr miss ↦
        rw (subst (λ p. seen p.1 j ≡ seen w j) unmarked (laws.unmark_others id j w miss))
          (omega (arith, rw miss at h))
  ]

  module _ (s : Shared W) (xs ys : List Envelope) (e : Envelope) where
    pub handled :
        s.handling ≡ xs ++ e ∷ ys
        → (id : String)
        → times id s.handling ≡ (if e.event_id == id then 1 else 0) + times id (xs ++ ys)
    handled there id = ap (times id) there ∙ times-middle id xs ys e

    pub failing :
        s.failed ≡ xs ++ e ∷ ys
        → (id : String)
        → times id s.failed ≡ (if e.event_id == id then 1 else 0) + times id (xs ++ ys)
    failing there id = ap (times id) there ∙ times-middle id xs ys e

  Step-Once : {s t : Shared W} → Step c seen s t → Once seen s → Once seen t
  Step-Once (marks s e w marked) v = record {
    once = λ id.
        omega (arith, marked_once e.event_id s.world w marked refl (held id s) id (v.once id));
  }
  Step-Once (skips s e w marked) v = record {
    once = λ id. grown e.event_id s.world w marked (held id s) id (v.once id);
  }
  Step-Once (refuses s e error w marked) v = record {
    once = λ id. grown e.event_id s.world w marked (held id s) id (v.once id);
  }
  Step-Once (dismisses s xs ys e there _) v = record {
    once = λ id. omega (arith, v.once id, handled s xs ys e there id);
  }
  Step-Once (writes s w kept) v = record { once = λ id. rw (kept id) (v.once id) }
  Step-Once (succeeds s xs ys e there) v = record {
    once = λ id. omega (arith, v.once id, handled s xs ys e there id);
  }
  Step-Once (fails s xs ys e there) v = record {
    once = λ id. omega (arith, v.once id, handled s xs ys e there id);
  }
  Step-Once (unmarks s xs ys e r w there unmarked) v = record {
    once = λ id.
        forgotten e.event_id s.world w id _ unmarked
          (omega (arith, v.once id, failing s xs ys e there id));
  }
  Step-Once (dies s xs ys e there) v = record {
    once = λ id. omega (arith, v.once id, handled s xs ys e there id);
  }
  Step-Once (dies_failed s xs ys e there) v = record {
    once = λ id. omega (arith, v.once id, failing s xs ys e there id);
  }

  pub Run-Once : {s t : Shared W} → Run c seen s t → Once seen s → Once seen t
  Run-Once stop v = v
  Run-Once (step r st) v = Step-Once st (Run-Once r v)

  -- Several processes share a store of event ids that keeps the promises of EventDeduper. However the
  -- steps of their deliveries interleave, fail and break off, no event id is in the hands of two
  -- deliveries at once, and none that was applied is handled or applied again.
  pub Run-held :
      {t : Shared W} (w : W)
      → Run c seen (record { world = w; handling = []; failed = []; applied = [] }) t
      → (id : String) → held id t ≤ 1
  Run-held w r id =
      let v : Once seen _ = Run-Once r (record { once = λ j. omega arith }) in
      ground (arith, v.once id)
