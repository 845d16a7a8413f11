-- ===== src/Analytics/EventHandlers.antt =====
-- app/analytics/eventhandlers/handlers.go: from the payload on the wire to the service method.
-- json.Unmarshal of each payload and time.Parse are parameters.
use quick_bite_analytics_ser.Prelude.{ℤ, String, Option, none, some, List, [], ◌∷◌}
use quick_bite_analytics_ser.Go.Effect.{wrapping, Result, reads, ◌>>=◌}
use quick_bite_analytics_ser.Go.Time.{Time}
use quick_bite_analytics_ser.Mongo.Driver.{Mongo}
use quick_bite_analytics_ser.CoreEvents.Consumer.{EventHandler, Consumer, register}
use quick_bite_analytics_ser.Analytics.Types.{
  OrderPlacedItem, OnOrderPlacedInput, OnOrderDeliveredInput, OnOrderRejectedInput,
  OnPaymentCompletedInput,
}
use quick_bite_analytics_ser.Analytics.Service.Writes.{
  on_order_placed, on_order_delivered, on_order_rejected, on_payment_completed,
}

pub record OrderPlacedItemPayload : Type 0 where
  pub product_id : ℤ
  pub quantity : ℤ
  pub line_total : ℤ

pub record OrderPlacedPayload : Type 0 where
  pub order_id : String
  pub restaurant_id : ℤ
  pub branch_id : ℤ
  pub total : ℤ
  pub currency : String
  pub placed_at : String
  pub items : List OrderPlacedItemPayload

pub record OrderDeliveredPayload : Type 0 where
  pub order_id : String
  pub restaurant_id : ℤ
  pub branch_id : ℤ
  pub currency : String
  pub delivered_at : String

pub record OrderRejectedPayload : Type 0 where
  pub order_id : String
  pub restaurant_id : ℤ
  pub branch_id : ℤ
  pub occurred_at : String

pub record PaymentCompletedPayload : Type 0 where
  pub currency : String
  pub amount : ℤ
  pub completed_at : String

-- json.Unmarshal into each payload, and time.Parse(time.RFC3339Nano, …)
pub record Wire : Type 0 where
  pub order_placed : String → Result OrderPlacedPayload
  pub order_delivered : String → Result OrderDeliveredPayload
  pub order_rejected : String → Result OrderRejectedPayload
  pub payment_completed : String → Result PaymentCompletedPayload
  pub parse_time : String → Result Time

abbrev pub item_of : OrderPlacedItemPayload → OrderPlacedItem
item_of item = record {
  product_id = item.product_id;
  quantity = item.quantity;
  line_total_minor = item.line_total;
}

abbrev pub items_of : List OrderPlacedItemPayload → List OrderPlacedItem
items_of [] = []
items_of (item ∷ items) = item_of item ∷ items_of items

abbrev pub placed_input : OrderPlacedPayload → Time → OnOrderPlacedInput
placed_input p placed_at = record {
  order_id = p.order_id;
  restaurant_id = p.restaurant_id;
  branch_id = p.branch_id;
  currency = p.currency;
  total_minor = p.total;
  placed_at = placed_at;
  items = items_of p.items;
}

abbrev pub delivered_input : OrderDeliveredPayload → Time → OnOrderDeliveredInput
delivered_input p delivered_at = record {
  order_id = p.order_id;
  restaurant_id = p.restaurant_id;
  branch_id = p.branch_id;
  currency = p.currency;
  delivered_at = delivered_at;
}

abbrev pub rejected_input : OrderRejectedPayload → Time → OnOrderRejectedInput
rejected_input p occurred_at = record {
  order_id = p.order_id;
  restaurant_id = p.restaurant_id;
  branch_id = p.branch_id;
  occurred_at = occurred_at;
}

abbrev pub paid_input : PaymentCompletedPayload → Time → OnPaymentCompletedInput
paid_input p completed_at = record {
  currency = p.currency;
  amount_minor = p.amount;
  completed_at = completed_at;
}

module _ (m : Mongo) (day : Time → String) (wire : Wire) where
  unfoldable pub order_placed_handler : EventHandler m.World
  order_placed_handler payload = do
    p ← reads (λ _. wrapping "order.placed: unmarshal payload: %w" [] (wire.order_placed payload))
    placed_at ← reads (λ _.
        wrapping "order.placed: parse placedAt %q: %w" (p.placed_at ∷ [])
          (wire.parse_time p.placed_at))
    on_order_placed m day (placed_input p placed_at)

  unfoldable pub order_delivered_handler : EventHandler m.World
  order_delivered_handler payload = do
    p ←
        reads
          (λ _. wrapping "order.delivered: unmarshal payload: %w" [] (wire.order_delivered payload))
    delivered_at ← reads (λ _.
        wrapping "order.delivered: parse deliveredAt %q: %w" (p.delivered_at ∷ [])
          (wire.parse_time p.delivered_at))
    on_order_delivered m day (delivered_input p delivered_at)

  unfoldable pub order_rejected_handler : EventHandler m.World
  order_rejected_handler payload = do
    p ←
        reads
          (λ _. wrapping "order.rejected: unmarshal payload: %w" [] (wire.order_rejected payload))
    occurred_at ← reads (λ _.
        wrapping "order.rejected: parse occurredAt %q: %w" (p.occurred_at ∷ [])
          (wire.parse_time p.occurred_at))
    on_order_rejected m day (rejected_input p occurred_at)

  unfoldable pub payment_completed_handler : EventHandler m.World
  payment_completed_handler payload = do
    p ← reads (λ _.
        wrapping "payment.completed: unmarshal payload: %w" [] (wire.payment_completed payload))
    completed_at ← reads (λ _.
        wrapping "payment.completed: parse completedAt %q: %w" (p.completed_at ∷ [])
          (wire.parse_time p.completed_at))
    on_payment_completed m day (paid_input p completed_at)

  abbrev and_then :
      Option (Consumer m.World)
      → (Consumer m.World → Option (Consumer m.World))
      → Option (Consumer m.World)
  and_then none f = none
  and_then (some c) f = f c

  -- eventhandlers.Register; `none` is a panic
  unfoldable pub register_all : Consumer m.World → Option (Consumer m.World)
  unfolding register
  register_all consumer =
      and_then
        (and_then
          (and_then (register "order.placed" order_placed_handler consumer)
            (register "order.delivered" order_delivered_handler))
          (register "order.rejected" order_rejected_handler))
        (register "payment.completed" payment_completed_handler)
