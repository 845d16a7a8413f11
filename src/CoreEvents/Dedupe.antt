-- ===== src/CoreEvents/Dedupe.antt =====
-- EventDeduper of lib/coreevents/consumer.go: what the consumer needs of the store of event ids.
use quick_bite_analytics_ser.Prelude.{String, ◌==◌, ◌≡◌, Bool, true, false}
use quick_bite_analytics_ser.Go.Effect.{Eff, ok}

pub record EventDeduper (W : Type 0) : Type 0 where
  pub mark_seen : String → Eff W Bool
  pub unmark : String → Eff W Unit

-- What the comments of the interface promise, with `seen` for what is recorded.
pub record DedupeLaws {W : Type 0} (d : EventDeduper W) (seen : W → String → Bool) : Type 0 where
  -- fresh: it was not recorded, and now it is
  pub mark_fresh :
      (id : String) (w : W)
      → (d.mark_seen id w).0 ≡ ok true
      → (seen w id ≡ false) × (seen (d.mark_seen id w).1 id ≡ true)
  -- not fresh: it was recorded
  pub mark_duplicate : (id : String) (w : W) → (d.mark_seen id w).0 ≡ ok false → seen w id ≡ true
  -- nothing that was recorded is forgotten
  pub mark_keeps : (id j : String) (w : W) → seen w j ≡ true → seen (d.mark_seen id w).1 j ≡ true
  pub mark_others :
      (id j : String) (w : W) → (id == j) ≡ false → seen (d.mark_seen id w).1 j ≡ seen w j
  pub unmark_forgets :
      (id : String) (w : W) → (d.unmark id w).0 ≡ ok tt → seen (d.unmark id w).1 id ≡ false
  pub unmark_others :
      (id j : String) (w : W) → (id == j) ≡ false → seen (d.unmark id w).1 j ≡ seen w j
