-- ===== src/Tests/Inputs.antt =====
-- The inputs of the examples: one order, its messages, and an empty store.
use quick_bite_analytics_ser.Prelude.{pos, String, ◌==◌, none, [], ◌∷◌, ltb_ℤ, if◌then◌else◌}
use quick_bite_analytics_ser.Errors.{plain}
use quick_bite_analytics_ser.Go.Effect.{Result, ok, fail}
use quick_bite_analytics_ser.Go.Time.{Time}
use quick_bite_analytics_ser.CoreEvents.Consumer.{Envelope, Session}
use quick_bite_analytics_ser.Analytics.Types.{
  OnOrderPlacedInput, OnOrderDeliveredInput, OnOrderRejectedInput, OnPaymentCompletedInput,
}
use quick_bite_analytics_ser.Analytics.EventHandlers.{Wire}
use quick_bite_analytics_ser.Tests.Store.{Memory}

abbrev pub day : Time → String
day t = if ltb_ℤ t (pos 1000) then "2024-01-01" else "2024-01-02"

abbrev pub empty : Memory
empty = record { clock = pos 500; points = λ c d. none; found = []; grouped = []; down = "" }

abbrev pub order : OnOrderPlacedInput
order = record {
  order_id = "o1";
  restaurant_id = pos 7;
  branch_id = pos 3;
  currency = "EGP";
  total_minor = pos 1500;
  placed_at = pos 10;
  items = record { product_id = pos 5; quantity = pos 2; line_total_minor = pos 1500 } ∷ [];
}

abbrev pub delivery : OnOrderDeliveredInput
delivery = record {
  order_id = "o1";
  restaurant_id = pos 7;
  branch_id = pos 3;
  currency = "EGP";
  delivered_at = pos 3000010;
}

abbrev pub rejection : OnOrderRejectedInput
rejection = record {
  order_id = "o1";
  restaurant_id = pos 7;
  branch_id = pos 3;
  occurred_at = pos 20;
}

abbrev pub payment : OnPaymentCompletedInput
payment = record { currency = "EGP"; amount_minor = pos 1500; completed_at = pos 15 }

abbrev pub wire : Wire
wire = record {
  order_placed = λ s. ok (record {
    order_id = s;
    restaurant_id = pos 7;
    branch_id = pos 3;
    total = pos 1500;
    currency = "EGP";
    placed_at = "10";
    items = [];
  });
  order_delivered = λ s. fail (plain "json");
  order_rejected = λ s. fail (plain "json");
  payment_completed = λ s. ok (record { currency = "EGP"; amount = pos 1500; completed_at = "10" });
  parse_time = λ s. if s == "10" then ok (pos 10) else fail (plain "time");
}

-- a body is the id and the payload of an event
abbrev pub envelope_of : String → Envelope
envelope_of body = record {
  event_id = body;
  event_type = "payment.completed";
  occurred_at = "10";
  aggregate_type = "order";
  aggregate_id = body;
  region = "eg";
  payload = body;
}

abbrev pub unmarshal : String → Result Envelope
unmarshal body = ok (envelope_of body)

abbrev pub session : Session Memory
session = record { world = empty; settled = [] }
