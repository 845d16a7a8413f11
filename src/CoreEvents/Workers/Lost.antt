-- ===== src/CoreEvents/Workers/Lost.antt =====
-- A delivery whose process dies after MarkSeen.
use quick_bite_analytics_ser.Prelude.{
  ◌+◌, String, ◌==◌, eq_iff, eq_refl, ◌≡◌, refl, ap, subst, Bool, true, false, Bool-cases, inl, inr,
  List, ◌∷◌, ◌++◌, arith,
}
use quick_bite_analytics_ser.CoreEvents.Consumer.{Envelope, Consumer}
use quick_bite_analytics_ser.CoreEvents.Dedupe.{DedupeLaws}
use quick_bite_analytics_ser.CoreEvents.Workers.{
  Shared, times, Step, marks, skips, refuses, dismisses, writes, succeeds, fails, unmarks, dies,
  dies_failed, Run, stop, step, held,
}
use quick_bite_analytics_ser.CoreEvents.Workers.Once.{Once, fresh_bits, kept_bit, handled, failing}

module _ {W : Type 0} (c : Consumer W) (seen : W → String → Bool) (laws : DedupeLaws c.dedupe seen)
    (id : String) where
  -- The event is recorded, no delivery has it in hand, and it was not applied.
  record Lost (s : Shared W) : Type 0 where
    recorded : seen s.world id ≡ true
    gone : held id s ≡ 0

  Step-Lost : {s t : Shared W} → Step c seen s t → Lost s → Lost t
  Step-Lost (marks s e w marked) l = record {
    recorded = kept_bit c seen laws e.event_id s.world w marked id l.recorded;
    gone = elim (Bool-cases (e.event_id == id)) [
      | inl hit ↦
          let old = (fresh_bits c seen laws e.event_id s.world w marked refl).0 in
          let same : seen s.world id ≡ false =
            subst (λ k. seen s.world k ≡ false) ((eq_iff e.event_id id).0 hit) old in
          cc (l.recorded, same)
      | inr miss ↦ rw miss (omega (arith, l.gone))
    ];
  }
  Step-Lost (skips s e w marked) l = record {
    recorded = kept_bit c seen laws e.event_id s.world w marked id l.recorded;
    gone = l.gone;
  }
  Step-Lost (refuses s e error w marked) l = record {
    recorded = kept_bit c seen laws e.event_id s.world w marked id l.recorded;
    gone = l.gone;
  }
  Step-Lost (dismisses s xs ys e there _) l = record {
    recorded = l.recorded;
    gone = omega (arith, l.gone, handled c seen laws s xs ys e there id);
  }
  Step-Lost (writes s w kept) l = record { recorded = rw (kept id) l.recorded; gone = l.gone }
  Step-Lost (succeeds s xs ys e there) l = record {
    recorded = l.recorded;
    gone = omega (arith, l.gone, handled c seen laws s xs ys e there id);
  }
  Step-Lost (fails s xs ys e there) l = record {
    recorded = l.recorded;
    gone = omega (arith, l.gone, handled c seen laws s xs ys e there id);
  }
  Step-Lost (unmarks s xs ys e r w there unmarked) l = record {
    recorded = elim (Bool-cases (e.event_id == id)) [
      | inl hit ↦
          let split = failing c seen laws s xs ys e there id in
          absurd (omega (arith, l.gone, rw hit at split))
      | inr miss ↦
          subst (λ p. seen p.1 id ≡ true) unmarked
            (rw (laws.unmark_others e.event_id id s.world miss) l.recorded)
    ];
    gone = omega (arith, l.gone, failing c seen laws s xs ys e there id);
  }
  Step-Lost (dies s xs ys e there) l = record {
    recorded = l.recorded;
    gone = omega (arith, l.gone, handled c seen laws s xs ys e there id);
  }
  Step-Lost (dies_failed s xs ys e there) l = record {
    recorded = l.recorded;
    gone = omega (arith, l.gone, failing c seen laws s xs ys e there id);
  }

  Run-Lost : {s t : Shared W} → Run c seen s t → Lost s → Lost t
  Run-Lost stop l = l
  Run-Lost (step r st) l = Step-Lost st (Run-Lost r l)

-- A delivery dies between the answer of MarkSeen, that its event is fresh, and the end of its handler.
-- The id stays recorded, and however the event is delivered again, it is never applied.
pub Run-lost :
    {W : Type 0} (c : Consumer W) (seen : W → String → Bool)
    → DedupeLaws c.dedupe seen
    → (s : Shared W) (xs ys : List Envelope) (e : Envelope) {t : Shared W} → Once seen s
    → s.handling ≡ xs ++ e ∷ ys
    → Run c seen (record s { handling = xs ++ ys }) t
    → (times e.event_id t.applied ≡ 0) × (seen t.world e.event_id ≡ true)
Run-lost c seen laws s xs ys e v there r =
    let id = e.event_id in
    let split = handled c seen laws s xs ys e there id in
    let one : held id s ≡ 1 + times id (xs ++ ys) + (times id s.failed + times id s.applied) =
      rw (eq_refl id) at (ap (λ n. n + (times id s.failed + times id s.applied)) split) in
    let l : Lost c seen laws id (record s { handling = xs ++ ys }) = record {
      recorded = ground (arith, v.once id, one);
      gone = ground (arith, v.once id, one);
    } in
    let l' = Run-Lost c seen laws id r l in (omega (arith, l'.gone), l'.recorded)
