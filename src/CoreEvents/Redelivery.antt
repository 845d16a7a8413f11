-- ===== src/CoreEvents/Redelivery.antt =====
-- What the consumer promises about an event that is delivered again.
use quick_bite_analytics_ser.Prelude.{
  String, ◌==◌, ◌≡◌, refl, Bool, true, false, ◌||◌, Option, none, some, List, [], ◌∷◌, Bool-cases,
  inl, inr, eq_iff, ◌∙◌, ap,
}
use quick_bite_analytics_ser.Go.Effect.{Result, ok, fail}
use quick_bite_analytics_ser.CoreEvents.Dedupe.{DedupeLaws}
use quick_bite_analytics_ser.CoreEvents.Consumer.{
  Envelope, EventHandler, Consumer, Session, finish, dispatch, on_marked, on_envelope,
  handle_message, handle_all, handler_for,
}

module _ {W : Type 0} (unmarshal : String → Result Envelope) (c : Consumer W)
    (seen : W → String → Bool) (laws : DedupeLaws c.dedupe seen) where
  -- A handler leaves the record of events alone.
  abbrev pub KeepsSeen : EventHandler W → Type 0
  KeepsSeen h = (payload : String) (w : W) (j : String) → seen (h payload w).1 j ≡ seen w j

  abbrev pub Handlers : Type 0
  Handlers = (t : String) (h : EventHandler W) → handler_for t c.handlers ≡ some h → KeepsSeen h

  abbrev Kept : String → W → W → Type 0
  Kept j w w' = seen w j ≡ true → seen w' j ≡ true

  finish-keeps :
      (e : Envelope) (j : String) (r : Result (Unit {0})) (w : W) (s : Session W)
      → (e.event_id == j) ≡ false
      → Kept j w (finish c e r w s).world
  unfolding finish
  finish-keeps e j (ok tt) w s ne h = h
  finish-keeps e j (fail x) w s ne h = laws.unmark_others e.event_id j w ne ∙ h

  dispatch-keeps :
      (e : Envelope) (j : String) (o : Option (EventHandler W)) (w : W) (s : Session W)
      → ((h : EventHandler W) → o ≡ some h → KeepsSeen h)
      → (e.event_id == j) ≡ false
      → Kept j w (dispatch c e o w s).world
  unfolding dispatch
  dispatch-keeps e j none w s keeps ne h = h
  dispatch-keeps e j (some f) w s keeps ne h =
      finish-keeps e j (f e.payload w).0 (f e.payload w).1 s ne (keeps f refl e.payload w j ∙ h)

  -- Another event, or the same one again, leaves the record of `j` in place.
  on_marked-keeps :
      (e : Envelope) (j : String) (r : Result Bool) (w w0 : W) (s : Session W)
      → Handlers
      → (r ≡ ok true → seen w0 e.event_id ≡ false)
      → Kept j w0 w
      → Kept j w0 (on_marked c e r w s).world
  unfolding on_marked
  on_marked-keeps e j (fail x) w w0 s keeps fresh kept h = kept h
  on_marked-keeps e j (ok false) w w0 s keeps fresh kept h = kept h
  on_marked-keeps e j (ok true) w w0 s keeps fresh kept h = elim (Bool-cases (e.event_id == j)) [
    | inl same ↦
        let e_is_j : e.event_id ≡ j = (eq_iff e.event_id j).0 same in
        cc (fresh refl, h, ap (seen w0) e_is_j)
    | inr ne ↦
        dispatch-keeps e j (handler_for e.event_type c.handlers) w s (keeps e.event_type) ne
          (kept h)
  ]

  on_envelope-keeps :
      (r : Result Envelope) (j : String) (s : Session W)
      → Handlers
      → Kept j s.world (on_envelope c r s).world
  unfolding on_envelope
  on_envelope-keeps (fail x) j s keeps h = h
  on_envelope-keeps (ok e) j s keeps h =
      elim (Bool-cases (e.event_id == "" || e.event_type == "")) [
        | inl bad ↦ rw bad h
        | inr good ↦ rw good (
            on_marked-keeps e j _ _ s.world s keeps (λ p. (laws.mark_fresh e.event_id s.world p).0)
              (laws.mark_keeps e.event_id j s.world) h)
      ]

  -- Once an event is recorded, it stays recorded whatever is delivered after it.
  pub handle_all-keeps :
      (bodies : List String) (j : String) (s : Session W)
      → Handlers
      → seen s.world j ≡ true
      → seen (handle_all unmarshal c bodies s).world j ≡ true
  unfolding handle_all
  handle_all-keeps [] j s keeps h = h
  handle_all-keeps (body ∷ bodies) j s keeps h =
      handle_all-keeps bodies j (handle_message unmarshal c body s) keeps
        (on_envelope-keeps (unmarshal body) j s keeps h)
