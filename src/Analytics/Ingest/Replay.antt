-- ===== src/Analytics/Ingest/Replay.antt =====
-- A queue that is delivered a second time.
use quick_bite_analytics_ser.Prelude.{
  String, ◌==◌, ◌≡◌, refl, ap, ◌∙◌, Bool, true, false, ◌||◌, List, [], ◌∷◌, eq_refl,
}
use quick_bite_analytics_ser.Go.Effect.{Result, ok}
use quick_bite_analytics_ser.Go.Time.{Time}
use quick_bite_analytics_ser.Mongo.Driver.{Mongo, MongoLaws}
use quick_bite_analytics_ser.CoreEvents.Consumer.{Envelope, Session, handle_message, handle_all}
use quick_bite_analytics_ser.Analytics.Ledger.View.{view}
use quick_bite_analytics_ser.Analytics.Repository.Collections.{unique_index}
use quick_bite_analytics_ser.Analytics.Repository.EventIds.{seen}
use quick_bite_analytics_ser.Analytics.EventHandlers.{Wire}
use quick_bite_analytics_ser.Analytics.Ingest.{order_consumer, apply_all}
use quick_bite_analytics_ser.Analytics.Ingest.Messages.{handle_message-Acked}
use quick_bite_analytics_ser.Analytics.Ingest.Queue.{
  AllAcked, fresh_events, fresh_events-next, handle_all-exactly_once, handle_all-seen,
}

-- Every body has an envelope, and its event is known.
abbrev AllKnown : (String → Result Envelope) → (String → Bool) → List String → Type 0
AllKnown unmarshal known [] = Unit
AllKnown unmarshal known (body ∷ bodies) =
    ((e : Envelope) × (unmarshal body ≡ ok e) × (known e.event_id ≡ true))
    × AllKnown unmarshal known bodies

AllKnown-more :
    (unmarshal : String → Result Envelope) (known : String → Bool) (i : String)
    (bodies : List String)
    → AllKnown unmarshal known bodies
    → AllKnown unmarshal (λ j. i == j || known j) bodies
AllKnown-more unmarshal known i [] all = tt
AllKnown-more unmarshal known i (body ∷ bodies) ((e, parsed, old), all) =
    ((e, parsed, or_true (i == e.event_id) old), AllKnown-more unmarshal known i bodies all)
  where
    or_true : (b : Bool) {k : Bool} → k ≡ true → (b || k) ≡ true
    or_true true h = refl
    or_true false h = h

fresh_events-AllKnown :
    (unmarshal : String → Result Envelope) (wire : Wire) (known : String → Bool)
    (bodies : List String)
    → AllKnown unmarshal known bodies
    → fresh_events unmarshal wire known bodies ≡ []
unfolding fresh_events
fresh_events-AllKnown unmarshal wire known [] all = refl
fresh_events-AllKnown unmarshal wire known (body ∷ bodies) ((e, parsed, old), all) =
    fresh_events-next unmarshal wire known body bodies e parsed
    ∙ rw old (
        fresh_events-AllKnown unmarshal wire (λ j. e.event_id == j || known j) bodies
          (AllKnown-more unmarshal known e.event_id bodies all))

module _ (m : Mongo) (laws : MongoLaws unique_index m) (day : Time → String) (wire : Wire)
    (unmarshal : String → Result Envelope) where
  acked-AllKnown :
      (bodies : List String) (s : Session m.World)
      → AllAcked unmarshal (order_consumer m day wire) bodies s
      → AllKnown unmarshal
          (seen m (handle_all unmarshal (order_consumer m day wire) bodies s).world)
          bodies
  unfolding AllAcked handle_all
  acked-AllKnown [] s acked = tt
  acked-AllKnown (body ∷ bodies) s (first, others) =
      let (e, parsed, done) = handle_message-Acked m laws day wire unmarshal body s first in
      let s' = handle_message unmarshal (order_consumer m day wire) body s in
      let recorded : seen m s'.world e.event_id ≡ true =
        done.record_of e.event_id ∙ ap (λ b. b || seen m s.world e.event_id) (eq_refl e.event_id) in
      (
        (e, parsed, handle_all-seen m laws day wire unmarshal bodies e.event_id s' recorded),
        acked-AllKnown bodies s' others,
      )

  -- A queue whose deliveries were all acknowledged can be delivered again: if the second deliveries
  -- are acknowledged too, the ledger is the one after the first.
  pub handle_all-again :
      (bodies : List String) (s : Session m.World)
      → AllAcked unmarshal (order_consumer m day wire) bodies s
      → AllAcked unmarshal
          (order_consumer m day wire)
          bodies
          (handle_all unmarshal (order_consumer m day wire) bodies s)
      → view m
          (handle_all unmarshal
            (order_consumer m day wire)
            bodies
            (handle_all unmarshal (order_consumer m day wire) bodies s)).world
        ≡ view m (handle_all unmarshal (order_consumer m day wire) bodies s).world
  handle_all-again bodies s acked again =
      let s' = handle_all unmarshal (order_consumer m day wire) bodies s in
      handle_all-exactly_once m laws day wire unmarshal bodies s' again
      ∙ ap (λ es. apply_all m.stored_time day es (view m s'.world))
          (fresh_events-AllKnown unmarshal wire (seen m s'.world) bodies
            (acked-AllKnown bodies s acked))
