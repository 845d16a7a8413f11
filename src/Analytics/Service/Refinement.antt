-- ===== src/Analytics/Service/Refinement.antt =====
-- The service methods against the ledger, step by step.
pub mod Reorder
pub mod Commute
pub mod Spec
pub mod Rules
use quick_bite_analytics_ser.Prelude.{
  String, Option, none, some, List, [], ◌∷◌, ◌≡◌, refl, ◌∙◌, foldl,
}
use quick_bite_analytics_ser.Go.Effect.{Eff, return, ok, ◌>>=◌, ◌>>◌}
use quick_bite_analytics_ser.Go.Time.{Time}
use quick_bite_analytics_ser.Analytics.Repository.Collections.{unique_index}
use quick_bite_analytics_ser.Mongo.Driver.{Mongo, MongoLaws}
use quick_bite_analytics_ser.Analytics.Types.{
  OnOrderPlacedInput, OnOrderDeliveredInput, OnOrderRejectedInput, OnPaymentCompletedInput,
}
use quick_bite_analytics_ser.Analytics.Entity.{OrderContext}
use quick_bite_analytics_ser.Analytics.Ledger.{Ledger, at_restaurant, at_branch}
use quick_bite_analytics_ser.Analytics.Ledger.View.{Updates, view}
use quick_bite_analytics_ser.Analytics.Ledger.Writes.Days.{
  restaurant_placed-Updates, restaurant_delivered-Updates, restaurant_rejected-Updates,
  branch_placed-Updates, branch_delivered-Updates, branch_rejected-Updates,
}
use quick_bite_analytics_ser.Analytics.Ledger.Writes.Platform.{
  platform_placed-Updates, platform_delivered-Updates, platform_rejected-Updates,
  platform_paid-Updates, context_saved-Updates, products_sold-Updates,
}
use quick_bite_analytics_ser.Analytics.Service.Writes.{
  on_order_placed, deliver, on_order_delivered, reject_platform, on_order_rejected,
  on_payment_completed,
}
use Spec.{
  Event, placed, delivered, rejected, paid, apply, apply_placed, apply_delivered, apply_rejected,
  apply_paid, deliver_known, reject_known,
}
use Rules.{Updates-return, Updates-then, Updates-find, knowns}

module _ (m : Mongo) (day : Time → String) where
  -- the service method for an event
  unfoldable pub serve : Event → Eff m.World Unit
  serve (placed input) = on_order_placed m day input
  serve (delivered input) = on_order_delivered m day input
  serve (rejected input) = on_order_rejected m day input
  serve (paid input) = on_payment_completed m day input

  -- events in turn, up to the first error
  unfoldable pub serve_all : List Event → Eff m.World Unit
  serve_all [] = return tt
  serve_all (e ∷ es) = do serve e; serve_all es

module _ (m : Mongo) (laws : MongoLaws unique_index m) (day : Time → String) where
  pub placed-refines :
      (input : OnOrderPlacedInput)
      → Updates m (on_order_placed m day input) (apply_placed m.stored_time day input)
  unfolding on_order_placed
  placed-refines input = Updates-then m (restaurant_placed-Updates m laws day input) (
      Updates-then m (branch_placed-Updates m laws _ _ _ _) (
        Updates-then m (products_sold-Updates m laws _ _ _ _) (
          Updates-then m (platform_placed-Updates m laws _ _ _)
            (context_saved-Updates m laws _ _ _))))

  deliver-refines :
      (input : OnOrderDeliveredInput) (found : Option OrderContext)
      → Updates m (deliver m day input found) (deliver_known m.stored_time day input (knowns found))
  unfolding deliver
  deliver-refines input none = Updates-return m
  deliver-refines input (some order_ctx) =
      Updates-then m (restaurant_delivered-Updates m laws _ _ _) (
        Updates-then m (branch_delivered-Updates m laws _ _ _)
          (platform_delivered-Updates m laws _ _ _))

  pub delivered-refines :
      (input : OnOrderDeliveredInput)
      → Updates m (on_order_delivered m day input) (apply_delivered m.stored_time day input)
  unfolding on_order_delivered
  delivered-refines input =
      Updates-find m laws input.order_id _ (deliver_known m.stored_time day input)
        (deliver-refines input)

  reject-refines :
      (date : String) (found : Option OrderContext)
      → Updates m
          (reject_platform m day date found)
          (reject_known m.stored_time day date (knowns found))
  unfolding reject_platform
  reject-refines date none = Updates-return m
  reject-refines date (some order_ctx) = platform_rejected-Updates m laws _ _

  pub rejected-refines :
      (input : OnOrderRejectedInput)
      → Updates m (on_order_rejected m day input) (apply_rejected m.stored_time day input)
  unfolding on_order_rejected at_restaurant at_branch
  rejected-refines input = Updates-then m (restaurant_rejected-Updates m laws _ _) (
      Updates-then m (branch_rejected-Updates m laws _ _) (
        Updates-find m laws input.order_id _
          (reject_known m.stored_time day (day input.occurred_at))
          (reject-refines (day input.occurred_at))))

  pub paid-refines :
      (input : OnPaymentCompletedInput)
      → Updates m (on_payment_completed m day input) (apply_paid m.stored_time day input)
  unfolding on_payment_completed
  paid-refines input = platform_paid-Updates m laws _ _ _

  pub serve-refines : (e : Event) → Updates m (serve m day e) (apply m.stored_time day e)
  unfolding serve
  serve-refines (placed input) = placed-refines input
  serve-refines (delivered input) = delivered-refines input
  serve-refines (rejected input) = rejected-refines input
  serve-refines (paid input) = paid-refines input

  pub serve_all-refines :
      (es : List Event)
      → Updates m (serve_all m day es) (λ l. foldl (λ k e. apply m.stored_time day e k) l es)
  unfolding serve_all
  serve_all-refines [] = Updates-return m
  serve_all-refines (e ∷ es) = Updates-then m (serve-refines e) (serve_all-refines es)
