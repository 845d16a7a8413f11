-- ===== src/Analytics/Service/Writes.antt =====
-- The event side of app/analytics/service/analytics.service.go, over the repositories that lib/boot
-- wires in. `day` is `UTC().Format("2006-01-02")`. Log lines are left out.
use quick_bite_analytics_ser.Prelude.{ℤ, pos, ltb_ℤ, String, Option, none, some, if◌then◌else◌}
use quick_bite_analytics_ser.Go.Effect.{Eff, return, ◌>>=◌, ◌>>◌}
use quick_bite_analytics_ser.Go.Time.{Time, sub, milliseconds}
use quick_bite_analytics_ser.Mongo.Driver.{Mongo}
use quick_bite_analytics_ser.Analytics.Types.{
  OnOrderPlacedInput, OnOrderDeliveredInput, OnOrderRejectedInput, OnPaymentCompletedInput,
}
use quick_bite_analytics_ser.Analytics.Entity.{OrderContext}
use quick_bite_analytics_ser.Analytics.Repository.RestaurantDays
use quick_bite_analytics_ser.Analytics.Repository.BranchDays
use quick_bite_analytics_ser.Analytics.Repository.ProductDays
use quick_bite_analytics_ser.Analytics.Repository.PlatformDays
use quick_bite_analytics_ser.Analytics.Repository.OrderContexts

-- The time from placing to delivery in milliseconds, at least 0.
unfoldable pub delivery_ms : Time → Time → ℤ
unfolding sub milliseconds
delivery_ms delivered_at placed_at =
    let ms = milliseconds (sub delivered_at placed_at) in if ltb_ℤ ms (pos 0) then pos 0 else ms

module _ (m : Mongo) (day : Time → String) where
  unfoldable pub on_order_placed : OnOrderPlacedInput → Eff m.World Unit
  on_order_placed input = do
    let date = day input.placed_at
    RestaurantDays.apply_order_placed m day input
    BranchDays.apply_order_placed m input.branch_id date input.currency input.total_minor
    ProductDays.apply_order_placed_items m input.branch_id date input.currency input.items
    PlatformDays.apply_order_placed m date input.currency input.total_minor
    OrderContexts.save m input.order_id input.currency input.placed_at

  -- the rest of OnOrderDelivered, after the lookup
  unfoldable pub deliver : OnOrderDeliveredInput → Option OrderContext → Eff m.World Unit
  deliver input none = return tt
  deliver input (some order_ctx) = do
    let ms = delivery_ms input.delivered_at order_ctx.placed_at
    let date = day order_ctx.placed_at
    RestaurantDays.apply_order_delivered m input.restaurant_id date ms
    BranchDays.apply_order_delivered m input.branch_id date ms
    PlatformDays.apply_order_delivered m date input.currency ms

  unfoldable pub on_order_delivered : OnOrderDeliveredInput → Eff m.World Unit
  unfolding deliver
  on_order_delivered input = do found ← OrderContexts.find m input.order_id; deliver input found

  -- the rest of OnOrderRejected, after the lookup
  unfoldable pub reject_platform : String → Option OrderContext → Eff m.World Unit
  reject_platform date none = return tt
  reject_platform date (some order_ctx) =
      PlatformDays.apply_order_rejected m date order_ctx.currency

  unfoldable pub on_order_rejected : OnOrderRejectedInput → Eff m.World Unit
  unfolding reject_platform
  on_order_rejected input = do
    let date = day input.occurred_at
    RestaurantDays.apply_order_rejected m input.restaurant_id date
    BranchDays.apply_order_rejected m input.branch_id date
    found ← OrderContexts.find m input.order_id
    reject_platform date found

  unfoldable pub on_payment_completed : OnPaymentCompletedInput → Eff m.World Unit
  on_payment_completed input =
      PlatformDays.apply_payment_completed m (day input.completed_at) input.currency
        input.amount_minor
