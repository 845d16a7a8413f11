-- ===== src/Backfill/Live.antt =====
-- An order of the history, beside the order.placed event of the same order.
use quick_bite_analytics_ser.Prelude.{String, ◌≡◌, ◌↔◌, refl, ap, List, [], ◌∷◌, map}
use quick_bite_analytics_ser.Go.Effect.{wrapping, Result, ok, fail, proceed}
use quick_bite_analytics_ser.Go.Time.{Time}
use quick_bite_analytics_ser.Mongo.Driver.{Mongo}
use quick_bite_analytics_ser.Analytics.Service.Writes.{on_order_placed}
use quick_bite_analytics_ser.Analytics.EventHandlers.{
  OrderPlacedItemPayload, OrderPlacedPayload, Wire, items_of, placed_input, order_placed_handler,
}
use quick_bite_analytics_ser.Backfill.{
  OrderHistoryLineItem, OrderHistoryItem, Formats, history_line, history_input, place,
}

-- The payload with the same fields.
abbrev line_payload : OrderHistoryLineItem → OrderPlacedItemPayload
line_payload it = record {
  product_id = it.product_id;
  quantity = it.quantity;
  line_total = it.line_total;
}

abbrev pub payload_of : OrderHistoryItem → OrderPlacedPayload
payload_of o = record {
  order_id = o.order_id;
  restaurant_id = o.restaurant_id;
  branch_id = o.branch_id;
  total = o.total;
  currency = o.currency;
  placed_at = o.placed_at;
  items = map line_payload o.items;
}

items_of-map :
    (items : List OrderHistoryLineItem) → items_of (map line_payload items) ≡ map history_line items
items_of-map [] = refl
items_of-map (it ∷ items) = cc (items_of-map items)

placed_input-payload_of :
    (o : OrderHistoryItem) (t : Time) → placed_input (payload_of o) t ≡ history_input o t
placed_input-payload_of o t =
    ap (λ l. record (history_input o t) { items = l }) (items_of-map o.items)

module _ (m : Mongo) (day : Time → String) (formats : Formats) (wire : Wire) where
  place-handler :
      (o : OrderHistoryItem) (w : m.World) (r : Result Time)
      → ((proceed r (λ t. on_order_placed m day (history_input o t)) w).1
          ≡ (proceed
              (wrapping "order.placed: parse placedAt %q: %w" (o.placed_at ∷ []) r)
              (λ t. on_order_placed m day (placed_input (payload_of o) t))
              w).1)
        × (((proceed r (λ t. on_order_placed m day (history_input o t)) w).0 ≡ ok tt) ↔ (
            (proceed
              (wrapping "order.placed: parse placedAt %q: %w" (o.placed_at ∷ []) r)
              (λ t. on_order_placed m day (placed_input (payload_of o) t))
              w).0
            ≡ ok tt))
  place-handler o w (ok t) = rw (placed_input-payload_of o t) (refl, (λ h. h, λ h. h))
  place-handler o w (fail e) = (refl, (λ h. cc, λ h. cc))

  -- What the backfill writes for an order of the history is what the consumer's handler writes for an
  -- order.placed event whose payload has the same fields, if both read times alike; and one of the two
  -- returns without an error if the other does.
  pub place-order_placed_handler :
      (o : OrderHistoryItem) (payload : String) (w : m.World)
      → wire.order_placed payload ≡ ok (payload_of o)
      → formats.parse_time o.placed_at ≡ wire.parse_time o.placed_at
      → ((place m day formats o w).1 ≡ (order_placed_handler m day wire payload w).1)
        × (((place m day formats o w).0 ≡ ok tt)
            ↔ ((order_placed_handler m day wire payload w).0 ≡ ok tt))
  unfolding place order_placed_handler
  place-order_placed_handler o payload w parsed times =
      rw (parsed, times) (place-handler o w (wire.parse_time o.placed_at))
