-- ===== src/Analytics/Ingest/Reported.antt =====
-- From the queue to the reports.
use quick_bite_analytics_ser.Prelude.{ℤ, String, ◌≡◌, subst, List, [], ◌∷◌}
use quick_bite_analytics_ser.Go.Effect.{Result, ok}
use quick_bite_analytics_ser.Go.Time.{Time}
use quick_bite_analytics_ser.Mongo.Driver.{Mongo, MongoLaws}
use quick_bite_analytics_ser.Mongo.Finding.{Finds}
use quick_bite_analytics_ser.CoreEvents.Consumer.{Envelope, Session, handle_all}
use quick_bite_analytics_ser.Analytics.Types.{RestaurantDayRow, FailureRow, DeliveryAvgRow}
use quick_bite_analytics_ser.Analytics.Ledger.{Ledger}
use quick_bite_analytics_ser.Analytics.Ledger.View.{view}
use quick_bite_analytics_ser.Analytics.Repository.Collections.{unique_index, coll_restaurant_day}
use quick_bite_analytics_ser.Analytics.Repository.RestaurantDays.{restaurant_range}
use quick_bite_analytics_ser.Analytics.Repository.EventIds.{seen}
use quick_bite_analytics_ser.Analytics.EventHandlers.{Wire}
use quick_bite_analytics_ser.Analytics.Service.Reads.{
  Floats, get_restaurant_days, get_restaurant_failures, get_restaurant_delivery_avg,
}
use quick_bite_analytics_ser.Analytics.Service.Reads.Reports.{Reported, get_restaurant_days-day_row}
use quick_bite_analytics_ser.Analytics.Ingest.{order_consumer, apply_all}
use quick_bite_analytics_ser.Analytics.Ingest.Queue.{
  AllAcked, fresh_events, handle_all-exactly_once,
}

module _ (m : Mongo) (laws : MongoLaws unique_index m) (day : Time → String) (wire : Wire)
    (unmarshal : String → Result Envelope) (bodies : List String) (s : Session m.World) where
  -- The world after the deliveries, and the ledger of their events.
  abbrev pub consumed : m.World
  consumed = (handle_all unmarshal (order_consumer m day wire) bodies s).world

  abbrev pub ledger_of : Ledger
  ledger_of =
      apply_all m.stored_time day (fresh_events unmarshal wire (seen m s.world) bodies)
        (view m s.world)

  -- After the deliveries of a queue, each acknowledged, the three reports on a restaurant, where they
  -- return, list by ascending date the days of the range that the restaurant has a document for,
  -- and hold what the events come to that were delivered, each event id counted once, on top of
  -- the ledger of before.
  pub handle_all-get_restaurant_days :
      {F : Type 0} (floats : Floats F) (id : ℤ) (from to : String) {days : List RestaurantDayRow}
      {failures : List (FailureRow F)} {deliveries : List DeliveryAvgRow}
      → AllAcked unmarshal (order_consumer m day wire) bodies s
      → Finds unique_index m coll_restaurant_day
          (restaurant_range id from to)
          ("date" ∷ [])
          consumed
      → (get_restaurant_days m id from to consumed).0 ≡ ok days
      → (get_restaurant_failures m floats id from to consumed).0 ≡ ok failures
      → (get_restaurant_delivery_avg m id from to consumed).0 ≡ ok deliveries
      → Reported m id from to consumed floats (ledger_of.restaurant id) days failures deliveries
  handle_all-get_restaurant_days floats id from to {days} {failures} {deliveries} acked finds h k
        l =
      let once = handle_all-exactly_once m laws day wire unmarshal bodies s acked in
      let rows = get_restaurant_days-day_row m id from to consumed finds floats h k l in
      subst
        (λ ledger.
          Reported m id from to consumed floats (ledger.restaurant id) days failures deliveries)
        once rows
