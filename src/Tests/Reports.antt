-- ===== src/Tests/Reports.antt =====
-- The reports after one order.
use quick_bite_analytics_ser.Prelude.{pos, ◌+ℤ◌, String, ◌≡◌, refl, none, List, [], ◌∷◌, map}
use quick_bite_analytics_ser.Go.Effect.{Result, ok}
use quick_bite_analytics_ser.Mongo.Bson.{Doc, datetime, text, as_text, field}
use quick_bite_analytics_ser.CoreEvents.Consumer.{
  Envelope, Session, finish, dispatch, on_marked, on_envelope, handle_message, handle_all,
  handler_for,
}
use quick_bite_analytics_ser.Analytics.Repository.Collections.{
  coll_restaurant_day, coll_product_day,
}
use quick_bite_analytics_ser.Analytics.Repository.RestaurantDays
use quick_bite_analytics_ser.Analytics.Repository.RestaurantDays.{
  restaurant_key, restaurant_update, restaurant_range,
}
use quick_bite_analytics_ser.Analytics.Service.Reads.Reports.{
  day_row, failures_on, delivery_on, Reported,
}
use quick_bite_analytics_ser.Analytics.Ledger.{DayTotals}
use quick_bite_analytics_ser.Analytics.Decode.{
  decode_all, decode_restaurant_day, decode_product_day,
}
use quick_bite_analytics_ser.Analytics.Repository.BranchDays
use quick_bite_analytics_ser.Analytics.Repository.ProductDays
use quick_bite_analytics_ser.Analytics.Repository.PlatformDays
use quick_bite_analytics_ser.Analytics.Repository.OrderContexts
use quick_bite_analytics_ser.Analytics.Repository.EventIds.{mark_seen, deduper}
use quick_bite_analytics_ser.Analytics.Service.Writes.{on_order_placed}
use quick_bite_analytics_ser.Analytics.Service.Reads.{
  get_restaurant_days, get_restaurant_failures, get_restaurant_delivery_avg, get_product_days,
}
use quick_bite_analytics_ser.Analytics.EventHandlers.{order_placed_handler}
use quick_bite_analytics_ser.Analytics.Ingest.{order_consumer}
use quick_bite_analytics_ser.Analytics.Ingest.Queue.{AllAcked}
use quick_bite_analytics_ser.Analytics.Repository.BranchDays.{
  branch_key, branch_update, branch_range,
}
use quick_bite_analytics_ser.Analytics.Repository.ProductDays.{
  product_key, product_update, product_range,
}
use quick_bite_analytics_ser.Analytics.Ledger.View.{view}
use quick_bite_analytics_ser.Analytics.Service.Reads.BranchReports.{
  product_row, ProductDates, product_at, get_product_days-product_row,
}
use quick_bite_analytics_ser.Analytics.Ingest.Reported.{
  consumed, ledger_of, handle_all-get_restaurant_days,
}
use quick_bite_analytics_ser.Tests.Store.Writes.{memory-MongoLaws}
use quick_bite_analytics_ser.Tests.Reads.{ratio}
use quick_bite_analytics_ser.Tests.Store.{memory, Memory, upserted}
use quick_bite_analytics_ser.Tests.Inputs.{day, wire, envelope_of, empty, order}
use quick_bite_analytics_ser.Tests.Store.Found.{new_in-false, Finds-one}

abbrev pub placed_body : String → Result Envelope
placed_body body = ok (record (envelope_of body) { event_type = "order.placed" })

-- The document of the restaurant after one order, and a store whose queries find it.
abbrev restaurant_doc : Doc
restaurant_doc =
    upserted (restaurant_key (pos 7) "2024-01-01")
      (restaurant_update (pos 7) "2024-01-01"
        (("orders_count", pos 1) ∷ ("revenue_sum", pos 1500) ∷ []) (("currency", text "EGP") ∷ [])
        (datetime (pos 500)))
      none

abbrev start : Session Memory
start = record { world = record empty { found = restaurant_doc ∷ [] }; settled = [] }

abbrev bodies : List String
bodies = "o1" ∷ "o1" ∷ []

abbrev january : List String
january = "2024-01-01" ∷ []

abbrev totals : DayTotals
totals = record {
  currency = "EGP";
  orders_count = pos 1;
  revenue_sum = pos 1500;
  delivery_ms_sum = pos 0;
  delivery_ms_count = pos 0;
  failed_count = pos 0;
}

handle_all-get_restaurant_days_example :
    Reported memory
      (pos 7)
      "2024-01-01"
      "2024-01-31"
      (consumed memory memory-MongoLaws day wire placed_body bodies start)
      ratio
      ((ledger_of memory memory-MongoLaws day wire placed_body bodies start).restaurant (pos 7))
      (day_row "2024-01-01" totals ∷ [])
      (failures_on ratio "2024-01-01" totals ∷ [])
      (delivery_on "2024-01-01" totals ∷ [])
unfolding AllAcked handle_message on_envelope on_marked dispatch finish handler_for order_consumer
    deduper mark_seen order_placed_handler on_order_placed RestaurantDays.apply_order_placed
    RestaurantDays.upsert BranchDays.apply_order_placed BranchDays.upsert
    ProductDays.apply_order_placed_items PlatformDays.apply_order_placed PlatformDays.upsert
    OrderContexts.save handle_all get_restaurant_days get_restaurant_failures
    get_restaurant_delivery_avg RestaurantDays.find_by_date_range decode_all decode_restaurant_day
    ◌+ℤ◌
handle_all-get_restaurant_days_example =
    handle_all-get_restaurant_days memory memory-MongoLaws day wire placed_body bodies start ratio
      (pos 7) "2024-01-01" "2024-01-31" (refl, (refl, tt))
      (Finds-one coll_restaurant_day (restaurant_range (pos 7) "2024-01-01" "2024-01-31")
        ("date" ∷ []) (restaurant_key (pos 7) "2024-01-01") restaurant_doc _ refl
        (λ g. new_in-false _ _) refl refl refl refl)
      refl refl refl

-- The document of the product after the order of the inputs.
abbrev product_doc : Doc
product_doc =
    upserted (product_key (pos 3) (pos 5) "2024-01-01")
      (product_update (pos 3) "2024-01-01" "EGP" (datetime (pos 500))
        (record { product_id = pos 5; quantity = pos 2; line_total_minor = pos 1500 }))
      none

-- The store after the order, whose queries find `d`.
abbrev ordered : Doc → Memory
ordered d = record (on_order_placed memory day order empty).1 { found = d ∷ [] }

get_product_days-product_row_example :
    (dates : List String) × ProductDates memory
      (pos 3)
      (pos 5)
      "2024-01-01"
      "2024-01-31"
      (ordered product_doc)
      dates
    × (product_row "2024-01-01" "EGP" (record { quantity_sum = pos 2; revenue_sum = pos 1500 }) ∷ []
        ≡ map
            (λ date.
              product_row date
                (as_text
                  (field "currency" (product_at memory (pos 3) (pos 5) (ordered product_doc) date)))
                ((view memory (ordered product_doc)).product (pos 3) (pos 5) date))
            dates)
unfolding on_order_placed RestaurantDays.apply_order_placed RestaurantDays.upsert
    BranchDays.apply_order_placed BranchDays.upsert ProductDays.apply_order_placed_items
    PlatformDays.apply_order_placed PlatformDays.upsert OrderContexts.save get_product_days
    ProductDays.find_by_date_range decode_all decode_product_day ◌+ℤ◌ ProductDays.write_models
get_product_days-product_row_example =
    get_product_days-product_row memory (pos 3) (pos 5) "2024-01-01" "2024-01-31"
      (ordered product_doc)
      (Finds-one coll_product_day (product_range (pos 3) (pos 5) "2024-01-01" "2024-01-31")
        ("date" ∷ []) (product_key (pos 3) (pos 5) "2024-01-01") product_doc _ refl (λ g. refl) refl
        refl refl refl)
      refl
