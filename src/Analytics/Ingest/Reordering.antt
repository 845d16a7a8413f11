-- ===== src/Analytics/Ingest/Reordering.antt =====
-- The queue in another order.
use quick_bite_analytics_ser.Prelude.{String, ◌≡◌, refl, sym, ap, ◌∙◌, List, ◌∷◌}
use quick_bite_analytics_ser.Go.Effect.{Result}
use quick_bite_analytics_ser.Go.Time.{Time}
use quick_bite_analytics_ser.Mongo.Driver.{Mongo, MongoLaws}
use quick_bite_analytics_ser.CoreEvents.Consumer.{Envelope, Session, handle_all}
use quick_bite_analytics_ser.Analytics.Ledger.{Ledger}
use quick_bite_analytics_ser.Analytics.Ledger.View.{view}
use quick_bite_analytics_ser.Analytics.Repository.Collections.{unique_index}
use quick_bite_analytics_ser.Analytics.Repository.EventIds.{seen}
use quick_bite_analytics_ser.Analytics.EventHandlers.{Wire}
use quick_bite_analytics_ser.Analytics.Service.Refinement.Spec.{Event}
use quick_bite_analytics_ser.Analytics.Service.Refinement.Reorder.{Uses}
use quick_bite_analytics_ser.Analytics.Service.Refinement.Commute.{OtherOrder, apply_comm}
use quick_bite_analytics_ser.Analytics.Ingest.{order_consumer, apply_all}
use quick_bite_analytics_ser.Analytics.Ingest.Queue.{
  AllAcked, fresh_events, handle_all-exactly_once,
}

-- The lists have the same events, those of one order in the same order; each placed order that moves
-- has the currency `c`.
pub data Reordered (stored : Time → Time) (day : Time → String) (c : String)
    : List Event → List Event → Type 0 where
  unmoved : (es : List Event) → Reordered stored day c es es
  swapped :
      (a b : Event) (es : List Event)
      → Uses stored day c a
      → Uses stored day c b
      → OtherOrder a b
      → Reordered stored day c (a ∷ b ∷ es) (b ∷ a ∷ es)
  under :
      (a : Event) {es fs : List Event}
      → Reordered stored day c es fs
      → Reordered stored day c (a ∷ es) (a ∷ fs)
  then_on :
      {es fs gs : List Event}
      → Reordered stored day c es fs
      → Reordered stored day c fs gs
      → Reordered stored day c es gs

apply_all-Reordered :
    (stored : Time → Time) (day : Time → String) (c : String) {es fs : List Event}
    → Reordered stored day c es fs
    → (l : Ledger) → apply_all stored day es l ≡ apply_all stored day fs l
apply_all-Reordered stored day c (unmoved es) l = refl
apply_all-Reordered stored day c (swapped a b es ua ub other) l =
    ap (apply_all stored day es) (sym (apply_comm stored day c a b l ua ub other))
apply_all-Reordered stored day c (under a r) l = apply_all-Reordered stored day c r _
apply_all-Reordered stored day c (then_on r q) l =
    apply_all-Reordered stored day c r l ∙ apply_all-Reordered stored day c q l

module _ (m : Mongo) (laws : MongoLaws unique_index m) (day : Time → String) (wire : Wire) where
  -- Two queues that bring the same events, those of one order in the same order, leave documents with
  -- the same ledger, when every delivery of both is acknowledged and the placed orders that move are
  -- in one currency.
  pub handle_all-Reordered :
      (c : String) (unmarshal : String → Result Envelope) (bodies others : List String)
      (s : Session m.World)
      → AllAcked unmarshal (order_consumer m day wire) bodies s
      → AllAcked unmarshal (order_consumer m day wire) others s
      → Reordered m.stored_time day c
          (fresh_events unmarshal wire (seen m s.world) bodies)
          (fresh_events unmarshal wire (seen m s.world) others)
      → view m (handle_all unmarshal (order_consumer m day wire) bodies s).world
        ≡ view m (handle_all unmarshal (order_consumer m day wire) others s).world
  handle_all-Reordered c unmarshal bodies others s acked acked' r =
      handle_all-exactly_once m laws day wire unmarshal bodies s acked
      ∙ apply_all-Reordered m.stored_time day c r (view m s.world)
      ∙ sym (handle_all-exactly_once m laws day wire unmarshal others s acked')
