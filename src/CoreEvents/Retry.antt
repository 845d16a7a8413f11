-- ===== src/CoreEvents/Retry.antt =====
-- One message that is delivered again and again, by a handler that fails at times.
use quick_bite_analytics_ser.Prelude.{
  ℕ, zero, suc, ◌+◌, String, ◌==◌, ◌≡◌, Bool, true, false, ◌||◌, ◌⊎◌, some, List, [], ◌∷◌, ◌++◌,
}
use quick_bite_analytics_ser.Go.Effect.{Result, ok}
use quick_bite_analytics_ser.CoreEvents.Dedupe.{DedupeLaws}
use quick_bite_analytics_ser.CoreEvents.Consumer.{
  Envelope, EventHandler, Settlement, ack, nack, Consumer, Session, handler_for,
}

abbrev pub copies : {A : Type 0} → ℕ → A → List A
copies zero x = []
copies (suc n) x = x ∷ copies n x

-- The calls for one event, with `runs` for how often its handler was run: those of the deduper do not
-- fail and run no handler, and a run of the handler, whatever it comes to, leaves what is recorded.
pub record Counted {W : Type 0} (c : Consumer W) (seen : W → String → Bool) (e : Envelope)
    (h : EventHandler W) (runs : W → ℕ) : Type 0 where
  pub marks : (w : W) → (b : Bool) × ((c.dedupe.mark_seen e.event_id w).0 ≡ ok b)
  pub unmarks : (w : W) → (c.dedupe.unmark e.event_id w).0 ≡ ok tt
  pub mark_runs : (w : W) → runs (c.dedupe.mark_seen e.event_id w).1 ≡ runs w
  pub unmark_runs : (w : W) → runs (c.dedupe.unmark e.event_id w).1 ≡ runs w
  pub handler_runs : (w : W) → runs (h e.payload w).1 ≡ suc (runs w)
  pub handler_seen : (w : W) → seen (h e.payload w).1 e.event_id ≡ seen w e.event_id

module _ {W : Type 0} (seen : W → String → Bool) (e : Envelope) (runs : W → ℕ) where
  -- The first `failed` deliveries are told to the broker as dead, and there are no others; or the one
  -- after them and the rest are acknowledged. The handler was run once for each that failed and, if
  -- there is one that did not, once more.
  abbrev pub Retried : ℕ → Session W → Session W → Type 0
  Retried k s t =
      (failed : ℕ) × (((failed ≡ k)
          × (t.settled ≡ s.settled ++ copies failed (nack false))
          × (seen t.world e.event_id ≡ false)
          × (runs t.world ≡ runs s.world + failed))
        ⊎ ((rest : ℕ) × (failed + suc rest ≡ k)
            × (t.settled ≡ s.settled ++ (copies failed (nack false) ++ copies (suc rest) ack))
            × (seen t.world e.event_id ≡ true)
            × (runs t.world ≡ runs s.world + suc failed)))

module _ {W : Type 0} (unmarshal : String → Result Envelope) (c : Consumer W)
    (seen : W → String → Bool) (laws : DedupeLaws c.dedupe seen) (body : String) (e : Envelope)
    (h : EventHandler W) (runs : W → ℕ) (counted : Counted c seen e h runs)
    (parsed : unmarshal body ≡ ok e) (valid : (e.event_id == "" || e.event_type == "") ≡ false)
    (registered : handler_for e.event_type c.handlers ≡ some h) where
  -- A delivery that tells the broker `a`, leaves the event recorded or not, and runs the handler so
  -- many times.
  abbrev After : Session W → Session W → Settlement → Bool → ℕ → Type 0
  After s t a b n =
      (t.settled ≡ s.settled ++ a ∷ [])
      × (seen t.world e.event_id ≡ b)
      × (runs t.world ≡ runs s.world + n)

  abbrev marked : Session W → W
  marked s = (c.dedupe.mark_seen e.event_id s.world).1

  abbrev Tried : Session W → Session W → Type 0
  Tried s t = After s t ack true 1 ⊎ After s t (nack false) false 1
