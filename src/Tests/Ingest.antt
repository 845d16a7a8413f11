-- ===== src/Tests/Ingest.antt =====
-- The consumer at a queue of two deliveries of one payment.
use quick_bite_analytics_ser.Prelude.{String, ◌≡◌, refl, List, [], ◌∷◌, length, ◌+◌}
use quick_bite_analytics_ser.Go.Effect.{ok}
use quick_bite_analytics_ser.CoreEvents.Consumer.{
  Envelope, finish, dispatch, on_marked, on_envelope, handle_message, handle_all, handler_for,
}
use quick_bite_analytics_ser.CoreEvents.Settling.{length-handle_all}
use quick_bite_analytics_ser.Analytics.Ledger.View.{view}
use quick_bite_analytics_ser.Analytics.Repository.PlatformDays
use quick_bite_analytics_ser.Analytics.Repository.EventIds.{seen, mark_seen, deduper}
use quick_bite_analytics_ser.Analytics.Service.Writes.{on_payment_completed}
use quick_bite_analytics_ser.Analytics.EventHandlers.{payment_completed_handler}
use quick_bite_analytics_ser.Analytics.Ingest.{order_consumer, apply_all}
use quick_bite_analytics_ser.Analytics.Ingest.Messages.{Acked, handle_message-Acked}
use quick_bite_analytics_ser.Analytics.Ingest.Queue.{
  AllAcked, fresh_events, handle_all-exactly_once,
}
use quick_bite_analytics_ser.Analytics.Ingest.Replay.{handle_all-again}
use quick_bite_analytics_ser.Tests.Store.{memory}
use quick_bite_analytics_ser.Tests.Store.Writes.{memory-MongoLaws}
use quick_bite_analytics_ser.Tests.Inputs.{day, wire, unmarshal, session}

abbrev bodies : List String
bodies = "e1" ∷ "e1" ∷ []

handle_all-exactly_once_example :
    view memory (handle_all unmarshal (order_consumer memory day wire) bodies session).world
    ≡ apply_all memory.stored_time day
        (fresh_events unmarshal wire (seen memory session.world) bodies)
        (view memory session.world)
unfolding AllAcked handle_message on_envelope on_marked dispatch finish handler_for order_consumer
    deduper mark_seen payment_completed_handler on_payment_completed
    PlatformDays.apply_payment_completed PlatformDays.upsert
handle_all-exactly_once_example =
    handle_all-exactly_once memory memory-MongoLaws day wire unmarshal bodies session
      (refl, (refl, tt))

handle_message-Acked_example :
    (e : Envelope) × (unmarshal "e1" ≡ ok e)
    × Acked memory memory-MongoLaws day wire e session.world
        (handle_message unmarshal (order_consumer memory day wire) "e1" session).world
unfolding handle_message on_envelope on_marked dispatch finish handler_for order_consumer deduper
    mark_seen payment_completed_handler on_payment_completed PlatformDays.apply_payment_completed
    PlatformDays.upsert
handle_message-Acked_example =
    handle_message-Acked memory memory-MongoLaws day wire unmarshal "e1" session refl

handle_all-again_example :
    view memory
      (handle_all unmarshal
        (order_consumer memory day wire)
        bodies
        (handle_all unmarshal (order_consumer memory day wire) bodies session)).world
    ≡ view memory (handle_all unmarshal (order_consumer memory day wire) bodies session).world
unfolding AllAcked handle_all handle_message on_envelope on_marked dispatch finish handler_for
    order_consumer deduper mark_seen payment_completed_handler on_payment_completed
    PlatformDays.apply_payment_completed PlatformDays.upsert
handle_all-again_example =
    handle_all-again memory memory-MongoLaws day wire unmarshal bodies session (refl, (refl, tt))
      (refl, (refl, tt))

length-handle_all_example :
    length (handle_all unmarshal (order_consumer memory day wire) bodies session).settled ≡ 0 + 2
length-handle_all_example =
    length-handle_all unmarshal (order_consumer memory day wire) bodies session
