-- ===== src/Analytics/Ingest.antt =====
-- lib/boot's order-events consumer: EventIDsRepo for the dedupe, and the handlers of
-- eventhandlers.Register over the service.
pub mod Reported
pub mod Reordering
pub mod Handlers
pub mod Marking
pub mod Messages
pub mod Queue
pub mod Replay
use quick_bite_analytics_ser.Prelude.{
  String, ◌==◌, ◌≡◌, refl, Option, some, List, [], ◌∷◌, foldl, if◌then◌else◌,
}
use quick_bite_analytics_ser.Go.Effect.{Result, ok, fail}
use quick_bite_analytics_ser.Go.Time.{Time}
use quick_bite_analytics_ser.Mongo.Driver.{Mongo}
use quick_bite_analytics_ser.CoreEvents.Consumer.{Envelope, Consumer, new_consumer, register}
use quick_bite_analytics_ser.Analytics.Ledger.{Ledger}
use quick_bite_analytics_ser.Analytics.Repository.EventIds.{deduper}
use quick_bite_analytics_ser.Analytics.EventHandlers.{
  Wire, placed_input, delivered_input, rejected_input, paid_input, order_placed_handler,
  order_delivered_handler, order_rejected_handler, payment_completed_handler, register_all,
}
use quick_bite_analytics_ser.Analytics.Service.Refinement.Spec.{
  Event, placed, delivered, rejected, paid, apply,
}

module _ (m : Mongo) (day : Time → String) (wire : Wire) where
  unfoldable pub order_consumer : Consumer m.World
  order_consumer = record {
    dedupe = deduper m;
    handlers =
        ("payment.completed", payment_completed_handler m day wire)
        ∷ ("order.rejected", order_rejected_handler m day wire)
        ∷ ("order.delivered", order_delivered_handler m day wire)
        ∷ ("order.placed", order_placed_handler m day wire)
        ∷ [];
  }

  -- Registration of the four handlers does not panic, and gives this consumer.
  register_all-order_consumer :
      register_all m day wire (new_consumer (deduper m)) ≡ some order_consumer
  unfolding register_all new_consumer order_consumer
  register_all-order_consumer = refl

-- The event that a payload stands for, if it is well-formed.
abbrev pub event_if : {P : Type 0} → Result P → (P → Result Time) → (P → Time → Event) → List Event
event_if (fail e) time make = []
event_if (ok p) time make = elim (time p) [ ok t ↦ make p t ∷ [] | fail e ↦ [] ]

module _ (wire : Wire) where
  abbrev pub placed_event : String → List Event
  placed_event payload =
      event_if (wire.order_placed payload) (λ p. wire.parse_time p.placed_at)
        (λ p t. placed (placed_input p t))

  abbrev pub delivered_event : String → List Event
  delivered_event payload =
      event_if (wire.order_delivered payload) (λ p. wire.parse_time p.delivered_at)
        (λ p t. delivered (delivered_input p t))

  abbrev pub rejected_event : String → List Event
  rejected_event payload =
      event_if (wire.order_rejected payload) (λ p. wire.parse_time p.occurred_at)
        (λ p t. rejected (rejected_input p t))

  abbrev pub paid_event : String → List Event
  paid_event payload =
      event_if (wire.payment_completed payload) (λ p. wire.parse_time p.completed_at)
        (λ p t. paid (paid_input p t))

  -- What an envelope asks for: nothing, if no handler takes its type.
  unfoldable pub events_of : Envelope → List Event
  events_of e =
      if "payment.completed" == e.event_type
      then paid_event e.payload
      else if "order.rejected" == e.event_type
      then rejected_event e.payload
      else if "order.delivered" == e.event_type
      then delivered_event e.payload
      else if "order.placed" == e.event_type
      then placed_event e.payload
      else []

abbrev pub apply_all : (Time → Time) → (Time → String) → List Event → Ledger → Ledger
apply_all stored day [] l = l
apply_all stored day (e ∷ es) l = apply_all stored day es (apply stored day e l)
