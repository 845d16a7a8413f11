-- ===== src/Tests/Service.antt =====
-- The service at one order.
use quick_bite_analytics_ser.Prelude.{◌≡◌, refl}
use quick_bite_analytics_ser.Analytics.Ledger.View.{view}
use quick_bite_analytics_ser.Analytics.Decode.{decode_order_context}
use quick_bite_analytics_ser.Analytics.Repository.RestaurantDays
use quick_bite_analytics_ser.Analytics.Repository.BranchDays
use quick_bite_analytics_ser.Analytics.Repository.ProductDays
use quick_bite_analytics_ser.Analytics.Repository.PlatformDays
use quick_bite_analytics_ser.Analytics.Repository.OrderContexts
use quick_bite_analytics_ser.Analytics.Service.Writes.{
  on_order_placed, deliver, on_order_delivered, reject_platform, on_order_rejected,
  on_payment_completed,
}
use quick_bite_analytics_ser.Analytics.Service.Refinement.Spec.{
  apply_placed, apply_delivered, apply_rejected, apply_paid,
}
use quick_bite_analytics_ser.Analytics.Service.Correct.{
  on_order_placed-apply_placed, on_order_delivered-apply_delivered,
  on_order_rejected-apply_rejected, on_payment_completed-apply_paid,
}
use quick_bite_analytics_ser.Tests.Store.{memory}
use quick_bite_analytics_ser.Tests.Store.Writes.{memory-MongoLaws}
use quick_bite_analytics_ser.Tests.Inputs.{day, empty, order, delivery, rejection, payment}

on_order_placed-apply_placed_example :
    view memory (on_order_placed memory day order empty).1
    ≡ apply_placed memory.stored_time day order (view memory empty)
unfolding on_order_placed RestaurantDays.apply_order_placed BranchDays.apply_order_placed
    ProductDays.apply_order_placed_items PlatformDays.apply_order_placed OrderContexts.save
    RestaurantDays.upsert BranchDays.upsert PlatformDays.upsert ProductDays.write_models
on_order_placed-apply_placed_example =
    on_order_placed-apply_placed memory memory-MongoLaws day order empty refl

on_order_delivered-apply_delivered_example :
    view memory
      (on_order_delivered memory day delivery (on_order_placed memory day order empty).1).1
    ≡ apply_delivered memory.stored_time day delivery
        (view memory (on_order_placed memory day order empty).1)
unfolding on_order_placed RestaurantDays.apply_order_placed BranchDays.apply_order_placed
    ProductDays.apply_order_placed_items PlatformDays.apply_order_placed OrderContexts.save
    RestaurantDays.upsert BranchDays.upsert PlatformDays.upsert on_order_delivered deliver
    OrderContexts.find RestaurantDays.apply_order_delivered BranchDays.apply_order_delivered
    PlatformDays.apply_order_delivered decode_order_context ProductDays.write_models
on_order_delivered-apply_delivered_example =
    on_order_delivered-apply_delivered memory memory-MongoLaws day delivery
      (on_order_placed memory day order empty).1 refl

on_order_rejected-apply_rejected_example :
    view memory (on_order_rejected memory day rejection empty).1
    ≡ apply_rejected memory.stored_time day rejection (view memory empty)
unfolding on_order_rejected reject_platform RestaurantDays.apply_order_rejected
    BranchDays.apply_order_rejected RestaurantDays.upsert BranchDays.upsert OrderContexts.find
on_order_rejected-apply_rejected_example =
    on_order_rejected-apply_rejected memory memory-MongoLaws day rejection empty refl

on_payment_completed-apply_paid_example :
    view memory (on_payment_completed memory day payment empty).1
    ≡ apply_paid memory.stored_time day payment (view memory empty)
unfolding on_payment_completed PlatformDays.apply_payment_completed PlatformDays.upsert
on_payment_completed-apply_paid_example =
    on_payment_completed-apply_paid memory memory-MongoLaws day payment empty refl
