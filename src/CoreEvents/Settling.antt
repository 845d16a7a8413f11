-- ===== src/CoreEvents/Settling.antt =====
-- The settlements of the consumer, counted.
use quick_bite_analytics_ser.Prelude.{
  String, ◌==◌, ◌≡◌, Bool, true, false, ◌||◌, Option, none, some, List, [], ◌∷◌, ◌++◌, ◌+◌, length,
  length-append, arith, Bool-cases, inl, inr,
}
use quick_bite_analytics_ser.Go.Effect.{Result, ok, fail}
use quick_bite_analytics_ser.CoreEvents.Consumer.{
  Envelope, Settlement, Consumer, Session, finish, dispatch, on_marked, on_envelope, handle_message,
  handle_all, handler_for,
}

module _ {W : Type 0} (c : Consumer W) where
  abbrev Settles : Session W → Session W → Type 0
  Settles s s' = length s'.settled ≡ length s.settled + 1

  length-settle :
      (a : Settlement) (s : Session W) → length (s.settled ++ a ∷ []) ≡ length s.settled + 1
  length-settle a s = omega (arith, length-append {0} s.settled (a ∷ []))

  finish-Settles :
      (e : Envelope) (r : Result (Unit {0})) (w : W) (s : Session W) → Settles s (finish c e r w s)
  unfolding finish
  finish-Settles e (ok tt) w s = length-settle _ s
  finish-Settles e (fail x) w s = length-settle _ s

  on_marked-Settles :
      (e : Envelope) (r : Result Bool) (w : W) (s : Session W) → Settles s (on_marked c e r w s)
  unfolding on_marked
  on_marked-Settles e (fail x) w s = length-settle _ s
  on_marked-Settles e (ok false) w s = length-settle _ s
  on_marked-Settles e (ok true) w s = go (handler_for e.event_type c.handlers)
    where
      go : (h : Option (String → W → Result (Unit {0}) × W)) → Settles s (dispatch c e h w s)
      go none = length-settle _ s
      go (some h) = finish-Settles e _ _ s

  on_envelope-Settles : (r : Result Envelope) (s : Session W) → Settles s (on_envelope c r s)
  unfolding on_envelope
  on_envelope-Settles (fail x) s = length-settle _ s
  on_envelope-Settles (ok e) s = elim (Bool-cases (e.event_id == "" || e.event_type == "")) [
    | inl bad ↦ rw bad (length-settle _ s)
    | inr good ↦ rw good (on_marked-Settles e _ _ s)
  ]

-- A queue of messages is settled by as many calls of Ack and Nack, one for each message, whatever
-- the store, the handlers and the bodies are.
pub length-handle_all :
    {W : Type 0} (unmarshal : String → Result Envelope) (c : Consumer W) (bodies : List String)
    (s : Session W)
    → length (handle_all unmarshal c bodies s).settled ≡ length s.settled + length bodies
unfolding handle_all
length-handle_all unmarshal c [] s = omega arith
length-handle_all unmarshal c (body ∷ bodies) s = omega (
  arith,
  on_envelope-Settles c (unmarshal body) s,
  length-handle_all unmarshal c bodies (handle_message unmarshal c body s),
)
