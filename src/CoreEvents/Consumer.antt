-- ===== src/CoreEvents/Consumer.antt =====
-- lib/coreevents/consumer.go and payloads.go. A body and a payload are texts; json.Unmarshal of the
-- envelope is a parameter. Ack and Nack, closures of the broker, are recorded in order. Log lines
-- are left out.
use quick_bite_analytics_ser.Prelude.{
  String, ◌==◌, Bool, true, false, ◌||◌, Option, none, some, List, [], ◌∷◌, ◌++◌, if◌then◌else◌,
}
use quick_bite_analytics_ser.Go.Effect.{Eff, Result, ok, fail}
use quick_bite_analytics_ser.CoreEvents.Dedupe.{EventDeduper}

pub record Envelope : Type 0 where
  pub event_id : String
  pub event_type : String
  pub occurred_at : String
  pub aggregate_type : String
  pub aggregate_id : String
  pub region : String
  pub payload : String

-- msg.Ack() and msg.Nack(requeue)
pub data Settlement : Type 0 where
  ack : Settlement
  nack : Bool → Settlement

abbrev pub EventHandler : Type 0 → Type 0
EventHandler W = String → Eff W Unit

pub record Consumer (W : Type 0) : Type 0 where
  pub dedupe : EventDeduper W
  pub handlers : List (String × EventHandler W)

-- the world, and what this process has told the broker
pub record Session (W : Type 0) : Type 0 where
  pub world : W
  pub settled : List Settlement

module _ {W : Type 0} where
  unfoldable pub new_consumer : EventDeduper W → Consumer W
  new_consumer dedupe = record { dedupe = dedupe; handlers = [] }

  unfoldable pub handler_for : String → List (String × EventHandler W) → Option (EventHandler W)
  handler_for event_type [] = none
  handler_for event_type ((t, h) ∷ hs) =
      if t == event_type then some h else handler_for event_type hs

  -- `none` is the panic on a second handler for a type
  unfoldable pub register : String → EventHandler W → Consumer W → Option (Consumer W)
  unfolding handler_for
  register event_type handler c = elim (handler_for event_type c.handlers) [
    | some _ ↦ none
    | none ↦ some (record c { handlers = (event_type, handler) ∷ c.handlers })
  ]

  abbrev pub settle : Settlement → W → Session W → Session W
  settle a w s = record { world = w; settled = s.settled ++ a ∷ [] }

  -- after the handler: an error unmarks the event, whether or not that works, and goes to the DLQ
  unfoldable pub finish : Consumer W → Envelope → Result (Unit {0}) → W → Session W → Session W
  finish c envelope (ok _) w s = settle ack w s
  finish c envelope (fail e) w s = settle (nack false) (c.dedupe.unmark envelope.event_id w).1 s

  unfoldable pub dispatch :
      Consumer W → Envelope → Option (EventHandler W) → W → Session W → Session W
  unfolding finish
  dispatch c envelope none w s = settle ack w s
  dispatch c envelope (some handler) w s =
      let (result, w') = handler envelope.payload w in finish c envelope result w' s

  -- after MarkSeen
  unfoldable pub on_marked : Consumer W → Envelope → Result Bool → W → Session W → Session W
  unfolding dispatch handler_for
  on_marked c envelope (fail e) w s = settle (nack true) w s
  on_marked c envelope (ok false) w s = settle ack w s
  on_marked c envelope (ok true) w s =
      dispatch c envelope (handler_for envelope.event_type c.handlers) w s

  unfoldable pub on_envelope : Consumer W → Result Envelope → Session W → Session W
  unfolding on_marked
  on_envelope c (fail e) s = settle (nack false) s.world s
  on_envelope c (ok envelope) s =
      if envelope.event_id == "" || envelope.event_type == ""
      then settle (nack false) s.world s
      else (let (marked, w) = c.dedupe.mark_seen envelope.event_id s.world in
          on_marked c envelope marked w s)

  unfoldable pub handle_message :
      (String → Result Envelope) → Consumer W → String → Session W → Session W
  unfolding on_envelope
  handle_message unmarshal c body s = on_envelope c (unmarshal body) s

  -- the messages of a queue in turn
  unfoldable pub handle_all :
      (String → Result Envelope) → Consumer W → List String → Session W → Session W
  unfolding handle_message
  handle_all unmarshal c [] s = s
  handle_all unmarshal c (body ∷ bodies) s =
      handle_all unmarshal c bodies (handle_message unmarshal c body s)
