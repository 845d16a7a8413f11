-- ===== src/Analytics/Service/Refinement/Spec.antt =====
-- What each event means for the ledger. A stored timestamp is read back as `stored` gives it.
use quick_bite_analytics_ser.Prelude.{String, Option, none, some}
use quick_bite_analytics_ser.Go.Time.{Time}
use quick_bite_analytics_ser.Analytics.Types.{
  OnOrderPlacedInput, OnOrderDeliveredInput, OnOrderRejectedInput, OnPaymentCompletedInput,
}
use quick_bite_analytics_ser.Analytics.Ledger.{
  Ledger, Known, placed_day, delivered_day, rejected_day, placed_platform, delivered_platform,
  rejected_platform, paid_platform, at_restaurant, at_branch, at_products, at_platform, at_context,
}
use quick_bite_analytics_ser.Analytics.Service.Writes.{delivery_ms}

pub data Event : Type 0 where
  placed : OnOrderPlacedInput → Event
  delivered : OnOrderDeliveredInput → Event
  rejected : OnOrderRejectedInput → Event
  paid : OnPaymentCompletedInput → Event

module _ (stored : Time → Time) (day : Time → String) where
  abbrev pub apply_placed : OnOrderPlacedInput → Ledger → Ledger
  apply_placed input l =
      let date = day input.placed_at in
      at_context input.order_id
        (record { currency = input.currency; placed_at = stored input.placed_at })
        (at_platform date input.currency (placed_platform input.total_minor) (
          at_products input.branch_id date input.items (
            at_branch input.branch_id date (placed_day input.currency input.total_minor) (
              at_restaurant input.restaurant_id date (placed_day input.currency input.total_minor)
                l))))

  abbrev pub deliver_known : OnOrderDeliveredInput → Option Known → Ledger → Ledger
  deliver_known input none l = l
  deliver_known input (some known) l =
      let ms = delivery_ms input.delivered_at known.placed_at in
      let date = day known.placed_at in
      at_platform date input.currency (delivered_platform ms) (
        at_branch input.branch_id date (delivered_day ms)
          (at_restaurant input.restaurant_id date (delivered_day ms) l))

  abbrev pub apply_delivered : OnOrderDeliveredInput → Ledger → Ledger
  apply_delivered input l = deliver_known input (l.context input.order_id) l

  abbrev pub reject_known : String → Option Known → Ledger → Ledger
  reject_known date none l = l
  reject_known date (some known) l = at_platform date known.currency rejected_platform l

  abbrev pub apply_rejected : OnOrderRejectedInput → Ledger → Ledger
  apply_rejected input l =
      let date = day input.occurred_at in
      reject_known date (l.context input.order_id) (
        at_branch input.branch_id date rejected_day
          (at_restaurant input.restaurant_id date rejected_day l))

  abbrev pub apply_paid : OnPaymentCompletedInput → Ledger → Ledger
  apply_paid input l =
      at_platform (day input.completed_at) input.currency (paid_platform input.amount_minor) l

  -- the meaning of an event
  abbrev pub apply : Event → Ledger → Ledger
  apply (placed input) = apply_placed input
  apply (delivered input) = apply_delivered input
  apply (rejected input) = apply_rejected input
  apply (paid input) = apply_paid input
