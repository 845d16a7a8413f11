-- ===== src/Analytics/Service/Correct.antt =====
-- app/analytics/service/analytics.service.go: the documents after a method of the event side.
use quick_bite_analytics_ser.Prelude.{String, List, ◌≡◌, foldl}
use quick_bite_analytics_ser.Go.Effect.{ok}
use quick_bite_analytics_ser.Go.Time.{Time}
use quick_bite_analytics_ser.Mongo.Driver.{Mongo, MongoLaws}
use quick_bite_analytics_ser.Analytics.Types.{
  OnOrderPlacedInput, OnOrderDeliveredInput, OnOrderRejectedInput, OnPaymentCompletedInput,
}
use quick_bite_analytics_ser.Analytics.Ledger.View.{view}
use quick_bite_analytics_ser.Analytics.Repository.Collections.{unique_index}
use quick_bite_analytics_ser.Analytics.Service.Writes.{
  on_order_placed, on_order_delivered, on_order_rejected, on_payment_completed,
}
use quick_bite_analytics_ser.Analytics.Service.Refinement.{
  serve_all, placed-refines, delivered-refines, rejected-refines, paid-refines, serve_all-refines,
}
use quick_bite_analytics_ser.Analytics.Service.Refinement.Spec.{
  Event, apply, apply_placed, apply_delivered, apply_rejected, apply_paid,
}

module _ (m : Mongo) (laws : MongoLaws unique_index m) (day : Time → String) where
  -- OnOrderPlaced, when it returns no error: the totals of the restaurant, of the branch and of the
  -- currency on the day of placing have one more order and its total, each product of the branch the
  -- quantities and line totals of its items, and the order's context is recorded; all else is as before.
  pub on_order_placed-apply_placed :
      (input : OnOrderPlacedInput) (w : m.World)
      → (on_order_placed m day input w).0 ≡ ok tt
      → view m (on_order_placed m day input w).1 ≡ apply_placed m.stored_time day input (view m w)
  on_order_placed-apply_placed input w = (placed-refines m laws day input).at w

  -- OnOrderDelivered, when it returns no error: with no context of the order nothing changes; with
  -- one, the totals of the restaurant, of the branch and of the event's currency get one delivery and
  -- its time, on the day the order was placed; all else is as before.
  pub on_order_delivered-apply_delivered :
      (input : OnOrderDeliveredInput) (w : m.World)
      → (on_order_delivered m day input w).0 ≡ ok tt
      → view m (on_order_delivered m day input w).1
        ≡ apply_delivered m.stored_time day input (view m w)
  on_order_delivered-apply_delivered input w = (delivered-refines m laws day input).at w

  -- OnOrderRejected, when it returns no error: the restaurant and the branch have one more failure on
  -- the day of the rejection, and so has the currency of the order's context, if there is one.
  pub on_order_rejected-apply_rejected :
      (input : OnOrderRejectedInput) (w : m.World)
      → (on_order_rejected m day input w).0 ≡ ok tt
      → view m (on_order_rejected m day input w).1
        ≡ apply_rejected m.stored_time day input (view m w)
  on_order_rejected-apply_rejected input w = (rejected-refines m laws day input).at w

  -- OnPaymentCompleted, when it returns no error: the currency has one more online payment and its
  -- amount on the day of completion, and all else is as before.
  pub on_payment_completed-apply_paid :
      (input : OnPaymentCompletedInput) (w : m.World)
      → (on_payment_completed m day input w).0 ≡ ok tt
      → view m (on_payment_completed m day input w).1
        ≡ apply_paid m.stored_time day input (view m w)
  on_payment_completed-apply_paid input w = (paid-refines m laws day input).at w

  -- Any sequence of events that the service handles with no error changes the documents as the
  -- events, applied in turn to the ledger, say.
  serve_all-foldl :
      (es : List Event) (w : m.World)
      → (serve_all m day es w).0 ≡ ok tt
      → view m (serve_all m day es w).1 ≡ foldl (λ l e. apply m.stored_time day e l) (view m w) es
  serve_all-foldl es w = (serve_all-refines m laws day es).at w
