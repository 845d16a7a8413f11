-- ===== src/Analytics/Ingest/Queue.antt =====
-- The order-events queue as a whole: what its deliveries come to, duplicates included.
use quick_bite_analytics_ser.Prelude.{
  String, ◌==◌, ◌≡◌, refl, sym, ap, ap₂, ◌∙◌, fun_ext, Bool, true, false, ◌||◌, some, subst, List,
  [], ◌∷◌, ◌++◌, if◌then◌else◌,
}
use quick_bite_analytics_ser.Go.Effect.{Result, ok, fail}
use quick_bite_analytics_ser.Go.Time.{Time}
use quick_bite_analytics_ser.Mongo.Bson.{has}
use quick_bite_analytics_ser.Mongo.Driver.{Mongo, MongoLaws}
use quick_bite_analytics_ser.CoreEvents.Consumer.{
  Envelope, EventHandler, ack, handler_for, Consumer, Session, handle_message, handle_all,
}
use quick_bite_analytics_ser.Analytics.Ledger.{Ledger}
use quick_bite_analytics_ser.Analytics.Ledger.View.{view}
use quick_bite_analytics_ser.Analytics.Repository.Collections.{unique_index}
use quick_bite_analytics_ser.Analytics.Repository.EventIds.{seen, event_key}
use quick_bite_analytics_ser.Analytics.EventHandlers.{Wire}
use quick_bite_analytics_ser.Analytics.Service.Refinement.Spec.{Event}
use quick_bite_analytics_ser.Analytics.Ingest.{order_consumer, events_of, apply_all}
use quick_bite_analytics_ser.Analytics.Ingest.Messages.{
  handle_message-Acked, Serves, handler-Serves,
}
use quick_bite_analytics_ser.CoreEvents.Redelivery.{handle_all-keeps}
use quick_bite_analytics_ser.Analytics.Repository.EventIds.Laws.{deduper-DedupeLaws}

-- Each message in turn was acknowledged.
unfoldable pub AllAcked :
    {W : Type 0} → (String → Result Envelope) → Consumer W → List String → Session W → Type 0
AllAcked unmarshal c [] s = Unit
AllAcked unmarshal c (body ∷ bodies) s =
    ((handle_message unmarshal c body s).settled ≡ s.settled ++ ack ∷ [])
    × AllAcked unmarshal c bodies (handle_message unmarshal c body s)

-- The events of the deliveries, each event id counted once, at its first delivery.
unfoldable pub fresh_events :
    (String → Result Envelope) → Wire → (String → Bool) → List String → List Event
fresh_events unmarshal wire known [] = []
fresh_events unmarshal wire known (body ∷ bodies) = elim (unmarshal body) [
  | fail e ↦ fresh_events unmarshal wire known bodies
  | ok e ↦
      (if known e.event_id then [] else events_of wire e)
      ++ fresh_events unmarshal wire (λ j. e.event_id == j || known j) bodies
]

pub fresh_events-next :
    (unmarshal : String → Result Envelope) (wire : Wire) (known : String → Bool) (body : String)
    (bodies : List String) (e : Envelope)
    → unmarshal body ≡ ok e
    → fresh_events unmarshal wire known (body ∷ bodies)
      ≡ (if known e.event_id then [] else events_of wire e)
        ++ fresh_events unmarshal wire (λ j. e.event_id == j || known j) bodies
unfolding fresh_events
fresh_events-next unmarshal wire known body bodies e parsed = rw (parsed, fresh_events) refl

module _ (stored : Time → Time) (day : Time → String) where
  pub apply_all-append :
      (es fs : List Event) (l : Ledger)
      → apply_all stored day (es ++ fs) l ≡ apply_all stored day fs (apply_all stored day es l)
  apply_all-append [] fs l = refl
  apply_all-append (e ∷ es) fs l = apply_all-append es fs _

  apply_all-unless :
      (b : Bool) (es : List Event) (l : Ledger)
      → apply_all stored day (if b then [] else es) l ≡ (if b then l else apply_all stored day es l)
  apply_all-unless true es l = refl
  apply_all-unless false es l = refl

module _ (m : Mongo) (laws : MongoLaws unique_index m) (day : Time → String) (wire : Wire) where
  -- When every delivery of a queue is acknowledged, the documents hold the ledger of before with
  -- each event that was not recorded yet applied once, in the order of the first deliveries.
  pub handle_all-exactly_once :
      (unmarshal : String → Result Envelope) (bodies : List String) (s : Session m.World)
      → AllAcked unmarshal (order_consumer m day wire) bodies s
      → view m (handle_all unmarshal (order_consumer m day wire) bodies s).world
        ≡ apply_all m.stored_time day
            (fresh_events unmarshal wire (seen m s.world) bodies)
            (view m s.world)
  unfolding handle_all fresh_events AllAcked
  handle_all-exactly_once unmarshal [] s acked = refl
  handle_all-exactly_once unmarshal (body ∷ bodies) s (first, others) =
      let (e, parsed, done) = handle_message-Acked m laws day wire unmarshal body s first in
      let s' = handle_message unmarshal (order_consumer m day wire) body s in
      let stored = m.stored_time in
      let all = fresh_events unmarshal wire in
      handle_all-exactly_once unmarshal bodies s' others
      ∙ ap₂ (λ known l. apply_all stored day (all known bodies) l) (fun_ext done.record_of)
          done.ledger
      ∙ ap (apply_all stored day (all (λ j. e.event_id == j || seen m s.world j) bodies)) (
          sym (
            apply_all-unless stored day (seen m s.world e.event_id) (events_of wire e)
              (view m s.world)))
      ∙ sym (
          apply_all-append stored day (if seen m s.world e.event_id then [] else events_of wire e) _
            (view m s.world))
      ∙ ap (λ es. apply_all stored day es (view m s.world))
          (sym (fresh_events-next unmarshal wire (seen m s.world) body bodies e parsed))

  order_handlers-KeepsSeen :
      (t : String) (h : EventHandler m.World)
      → handler_for t (order_consumer m day wire).handlers ≡ some h
      → (payload : String) (w : m.World) (j : String) → seen m (h payload w).1 j ≡ seen m w j
  unfolding seen
  order_handlers-KeepsSeen t h registered payload w j =
      let e : Envelope = record {
        event_id = "";
        event_type = t;
        occurred_at = "";
        aggregate_type = "";
        aggregate_id = "";
        region = "";
        payload = payload;
      } in
      let serves : Serves m laws day wire (events_of wire e) payload (some h) =
        subst (λ o. Serves m laws day wire (events_of wire e) payload o) registered
          (handler-Serves m laws day wire e) in
      ap has (serves.1.at w (event_key j))

  -- An event that is recorded stays recorded, whatever is delivered after it and however the
  -- handlers and the store fail.
  pub handle_all-seen :
      (unmarshal : String → Result Envelope) (bodies : List String) (j : String)
      (s : Session m.World)
      → seen m s.world j ≡ true
      → seen m (handle_all unmarshal (order_consumer m day wire) bodies s).world j ≡ true
  unfolding order_consumer
  handle_all-seen unmarshal bodies j s recorded =
      handle_all-keeps unmarshal (order_consumer m day wire) (seen m) (deduper-DedupeLaws m laws)
        bodies j s order_handlers-KeepsSeen recorded
