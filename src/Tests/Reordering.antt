-- ===== src/Tests/Reordering.antt =====
-- Two orders, placed in one order and in the other.
use quick_bite_analytics_ser.Prelude.{◌≡◌, refl, [], ◌∷◌}
use quick_bite_analytics_ser.CoreEvents.Consumer.{
  finish, dispatch, on_marked, on_envelope, handle_message, handle_all, handler_for,
}
use quick_bite_analytics_ser.Analytics.Ledger.View.{view}
use quick_bite_analytics_ser.Analytics.Repository.RestaurantDays
use quick_bite_analytics_ser.Analytics.Repository.BranchDays
use quick_bite_analytics_ser.Analytics.Repository.ProductDays
use quick_bite_analytics_ser.Analytics.Repository.PlatformDays
use quick_bite_analytics_ser.Analytics.Repository.OrderContexts
use quick_bite_analytics_ser.Analytics.Repository.EventIds.{seen, mark_seen, deduper}
use quick_bite_analytics_ser.Analytics.Service.Writes.{on_order_placed}
use quick_bite_analytics_ser.Analytics.EventHandlers.{order_placed_handler}
use quick_bite_analytics_ser.Analytics.Ingest.{order_consumer, events_of}
use quick_bite_analytics_ser.Analytics.Ingest.Queue.{AllAcked, fresh_events}
use quick_bite_analytics_ser.Analytics.Ingest.Reordering.{swapped, handle_all-Reordered}
use quick_bite_analytics_ser.Tests.Store.{memory}
use quick_bite_analytics_ser.Tests.Store.Writes.{memory-MongoLaws}
use quick_bite_analytics_ser.Tests.Inputs.{day, wire, session}
use quick_bite_analytics_ser.Tests.Reports.{placed_body}

handle_all-Reordered_example :
    view memory
      (handle_all placed_body (order_consumer memory day wire) ("o1" ∷ "o2" ∷ []) session).world
    ≡ view memory
        (handle_all placed_body (order_consumer memory day wire) ("o2" ∷ "o1" ∷ []) session).world
unfolding AllAcked fresh_events seen events_of handle_message on_envelope on_marked dispatch finish
    handler_for order_consumer deduper mark_seen order_placed_handler on_order_placed
    RestaurantDays.apply_order_placed RestaurantDays.upsert BranchDays.apply_order_placed
    BranchDays.upsert ProductDays.apply_order_placed_items PlatformDays.apply_order_placed
    PlatformDays.upsert OrderContexts.save
handle_all-Reordered_example =
    handle_all-Reordered memory memory-MongoLaws day wire "EGP" placed_body ("o1" ∷ "o2" ∷ [])
      ("o2" ∷ "o1" ∷ []) session (refl, (refl, tt)) (refl, (refl, tt))
      (swapped _ _ [] refl refl refl)
