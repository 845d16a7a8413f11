-- ===== src/Analytics/Ingest/Messages.antt =====
-- One message of the order-events queue.
use quick_bite_analytics_ser.Prelude.{
  String, ◌==◌, ◌≡◌, refl, ap, ◌∙◌, Bool, true, false, ◌||◌, Option, none, some, List, [], ◌∷◌,
  ◌++◌, if◌then◌else◌, Bool-cases, inl, inr, eq_iff, subst,
}
use quick_bite_analytics_ser.Go.Effect.{Result, ok, fail}
use quick_bite_analytics_ser.Go.Time.{Time}
use quick_bite_analytics_ser.Mongo.Bson.{Doc, has}
use quick_bite_analytics_ser.Mongo.Driver.{Mongo, MongoLaws}
use quick_bite_analytics_ser.CoreEvents.Consumer.{
  Envelope, EventHandler, Settlement, ack, nack, Session, settle, finish, dispatch, on_marked,
  on_envelope, handle_message, handler_for,
}
use quick_bite_analytics_ser.Analytics.Ledger.View.{view, Updates}
use quick_bite_analytics_ser.Analytics.Ledger.View.Frames.{view-event_ids}
use quick_bite_analytics_ser.Analytics.Repository.Collections.{unique_index, coll_event_ids}
use quick_bite_analytics_ser.Analytics.Repository.EventIds.{deduper, seen, event_key}
use quick_bite_analytics_ser.Analytics.Repository.EventIds.Laws.{deduper-DedupeLaws}
use quick_bite_analytics_ser.Analytics.Service.Frames.{Leaves}
use quick_bite_analytics_ser.Analytics.EventHandlers.{Wire}
use quick_bite_analytics_ser.Analytics.Ingest.{order_consumer, events_of, apply_all}
use quick_bite_analytics_ser.Analytics.Service.Refinement.Spec.{Event}
use quick_bite_analytics_ser.Analytics.Ingest.Handlers.{
  order_placed-Updates, order_delivered-Updates, order_rejected-Updates, payment_completed-Updates,
  order_placed-Leaves, order_delivered-Leaves, order_rejected-Leaves, payment_completed-Leaves,
}

nack_ne : {b : Bool} → nack b ≡ ack → ⊥
nack_ne h = cc

last_inj : (xs : List Settlement) (a b : Settlement) → xs ++ a ∷ [] ≡ xs ++ b ∷ [] → a ≡ b
last_inj [] a b h = cc
last_inj (x ∷ xs) a b h = last_inj xs a b cc

module _ (m : Mongo) (laws : MongoLaws unique_index m) (day : Time → String) (wire : Wire) where
  mark-view : (id : String) (w : m.World) → view m ((deduper m).mark_seen id w).1 ≡ view m w
  unfolding deduper
  mark-view id w =
      view-event_ids m w _ (λ c f off. laws.insert_elsewhere coll_event_ids c _ f w off)

  -- The handler, if there is one, does these events, and leaves the record of events alone.
  abbrev pub Serves : List Event → String → Option (EventHandler m.World) → Type 0
  Serves es payload none = es ≡ []
  Serves es payload (some h) =
      Updates m (h payload) (apply_all m.stored_time day es) × Leaves m (h payload)

  Serves-if :
      (b : Bool) (es fs : List Event) (payload : String) (h o : Option (EventHandler m.World))
      → Serves es payload h
      → Serves fs payload o
      → Serves (if b then es else fs) payload (if b then h else o)
  Serves-if true es fs payload h o sh so = sh
  Serves-if false es fs payload h o sh so = so

  pub handler-Serves :
      (e : Envelope)
      → Serves
          (events_of wire e)
          e.payload
          (handler_for e.event_type (order_consumer m day wire).handlers)
  unfolding handler_for order_consumer events_of
  handler-Serves e =
      Serves-if ("payment.completed" == e.event_type) _ _ e.payload _ _
        (
          payment_completed-Updates m laws day wire e.payload,
          payment_completed-Leaves m laws day wire e.payload,
        )
        (Serves-if ("order.rejected" == e.event_type) _ _ e.payload _ _
          (
            order_rejected-Updates m laws day wire e.payload,
            order_rejected-Leaves m laws day wire e.payload,
          )
          (Serves-if ("order.delivered" == e.event_type) _ _ e.payload _ _
            (
              order_delivered-Updates m laws day wire e.payload,
              order_delivered-Leaves m laws day wire e.payload,
            )
            (Serves-if ("order.placed" == e.event_type) _ _ e.payload _ _
              (
                order_placed-Updates m laws day wire e.payload,
                order_placed-Leaves m laws day wire e.payload,
              )
              refl)))

  -- An acknowledged message: its event, if it was not yet recorded, is applied and is recorded now.
  pub record Acked (e : Envelope) (w w' : m.World) : Type 0 where
    pub ledger : view m w' ≡ (
        if seen m w e.event_id
        then view m w
        else apply_all m.stored_time day (events_of wire e) (view m w))
    pub record_of : (j : String) → seen m w' j ≡ (e.event_id == j || seen m w j)

  dispatch-Acked :
      (e : Envelope) (o : Option (EventHandler m.World)) (w : m.World) (s : Session m.World)
      → Serves (events_of wire e) e.payload o
      → (dispatch (order_consumer m day wire) e o w s).settled ≡ s.settled ++ ack ∷ []
      → (view m (dispatch (order_consumer m day wire) e o w s).world
          ≡ apply_all m.stored_time day (events_of wire e) (view m w))
        × ((j : String)
            → seen m (dispatch (order_consumer m day wire) e o w s).world j ≡ seen m w j)
  unfolding dispatch
  dispatch-Acked e none w s nothing acked = (rw nothing refl, λ j. refl)
  dispatch-Acked e (some h) w s (does, leaves) acked =
      finish_case (h e.payload w).0 (h e.payload w).1 (does.at w) (leaves.at w) acked
    where
      finish_case :
          (r : Result (Unit {0})) (w' : m.World)
          → (r ≡ ok tt → view m w' ≡ apply_all m.stored_time day (events_of wire e) (view m w))
          → ((g : Doc) → m.point w' coll_event_ids g ≡ m.point w coll_event_ids g)
          → (finish (order_consumer m day wire) e r w' s).settled ≡ s.settled ++ ack ∷ []
          → (view m (finish (order_consumer m day wire) e r w' s).world
              ≡ apply_all m.stored_time day (events_of wire e) (view m w))
            × ((j : String)
                → seen m (finish (order_consumer m day wire) e r w' s).world j ≡ seen m w j)
      finish_case (ok tt) w' up same a = (up refl, λ j. unfold seen in ap has (same (event_key j)))
      finish_case (fail x) w' up same a = absurd (nack_ne (last_inj s.settled _ _ a))

  marked_fresh :
      (e : Envelope) (w w1 w2 : m.World)
      → (seen m w e.event_id ≡ false)
      → (seen m w1 e.event_id ≡ true)
      → ((j : String) → (e.event_id == j) ≡ false → seen m w1 j ≡ seen m w j)
      → view m w1 ≡ view m w
      → (view m w2 ≡ apply_all m.stored_time day (events_of wire e) (view m w1))
      → ((j : String) → seen m w2 j ≡ seen m w1 j)
      → Acked e w w2
  marked_fresh e w w1 w2 new now others same does keeps = record {
    ledger = rw new (does ∙ ap (apply_all m.stored_time day (events_of wire e)) same);
    record_of = λ j. elim (Bool-cases (e.event_id == j)) [
      | inl hit ↦
          rw hit (keeps j ∙ subst (λ k. seen m w1 k ≡ true) ((eq_iff e.event_id j).0 hit) now)
      | inr miss ↦ rw miss (keeps j ∙ others j miss)
    ];
  }

  marked_again :
      (e : Envelope) (w w1 : m.World)
      → (seen m w e.event_id ≡ true)
      → (seen m w1 e.event_id ≡ true)
      → ((j : String) → (e.event_id == j) ≡ false → seen m w1 j ≡ seen m w j)
      → view m w1 ≡ view m w
      → Acked e w w1
  marked_again e w w1 old now others same = record {
    ledger = rw old same;
    record_of = λ j. elim (Bool-cases (e.event_id == j)) [
      | inl hit ↦ rw hit (subst (λ k. seen m w1 k ≡ true) ((eq_iff e.event_id j).0 hit) now)
      | inr miss ↦ rw miss (others j miss)
    ];
  }

  on_marked-Acked :
      (e : Envelope) (r : Result Bool) (w w1 : m.World) (s : Session m.World)
      → (r ≡ ok true → (seen m w e.event_id ≡ false) × (seen m w1 e.event_id ≡ true))
      → (r ≡ ok false → (seen m w e.event_id ≡ true) × (seen m w1 e.event_id ≡ true))
      → ((j : String) → (e.event_id == j) ≡ false → seen m w1 j ≡ seen m w j)
      → view m w1 ≡ view m w
      → (on_marked (order_consumer m day wire) e r w1 s).settled ≡ s.settled ++ ack ∷ []
      → Acked e w (on_marked (order_consumer m day wire) e r w1 s).world
  unfolding on_marked
  on_marked-Acked e (fail x) w w1 s fresh stale others same acked =
      absurd (nack_ne (last_inj s.settled _ _ acked))
  on_marked-Acked e (ok false) w w1 s fresh stale others same acked =
      marked_again e w w1 (stale refl).0 (stale refl).1 others same
  on_marked-Acked e (ok true) w w1 s fresh stale others same acked =
      let (does, keeps) = dispatch-Acked e _ w1 s (handler-Serves e) acked in
      marked_fresh e w w1 _ (fresh refl).0 (fresh refl).1 others same does keeps

  envelope-Acked :
      (e : Envelope) (s : Session m.World) (invalid : Bool)
      → (if invalid
          then settle (nack false) s.world s
          else on_marked
              (order_consumer m day wire)
              e
              ((deduper m).mark_seen e.event_id s.world).0
              ((deduper m).mark_seen e.event_id s.world).1
              s).settled
        ≡ s.settled ++ ack ∷ []
      → Acked e s.world
          (if invalid
            then settle (nack false) s.world s
            else on_marked
                (order_consumer m day wire)
                e
                ((deduper m).mark_seen e.event_id s.world).0
                ((deduper m).mark_seen e.event_id s.world).1
                s).world
  envelope-Acked e s true acked = absurd (nack_ne (last_inj s.settled _ _ acked))
  envelope-Acked e s false acked =
      let dl = deduper-DedupeLaws m laws in
      on_marked-Acked e _ s.world _ s (λ p. dl.mark_fresh e.event_id s.world p)
        (λ p. (
          dl.mark_duplicate e.event_id s.world p,
          dl.mark_keeps e.event_id e.event_id s.world (dl.mark_duplicate e.event_id s.world p),
        ))
        (λ j. dl.mark_others e.event_id j s.world) (mark-view e.event_id s.world) acked

  on_envelope-Acked :
      (r : Result Envelope) (s : Session m.World)
      → (on_envelope (order_consumer m day wire) r s).settled ≡ s.settled ++ ack ∷ []
      → (e : Envelope) × (r ≡ ok e)
        × Acked e s.world (on_envelope (order_consumer m day wire) r s).world
  unfolding on_envelope order_consumer
  on_envelope-Acked (fail x) s acked = absurd (nack_ne (last_inj s.settled _ _ acked))
  on_envelope-Acked (ok e) s acked =
      (e, refl, envelope-Acked e s (e.event_id == "" || e.event_type == "") acked)

  -- A message that is acknowledged had a body that is an envelope; its event, if it was not recorded
  -- before, is applied to the ledger once and is recorded now, and no other record changes.
  pub handle_message-Acked :
      (unmarshal : String → Result Envelope) (body : String) (s : Session m.World)
      → (handle_message unmarshal (order_consumer m day wire) body s).settled
        ≡ s.settled ++ ack ∷ []
      → (e : Envelope) × (unmarshal body ≡ ok e)
        × Acked e s.world (handle_message unmarshal (order_consumer m day wire) body s).world
  unfolding handle_message
  handle_message-Acked unmarshal body s acked = on_envelope-Acked (unmarshal body) s acked
