-- ===== src/Analytics/Ingest/Handlers.antt =====
-- What a handler that returns has done, and what no handler does.
use quick_bite_analytics_ser.Prelude.{String, List, [], ◌∷◌}
use quick_bite_analytics_ser.Go.Effect.{wrapping, Result, ok, fail, Eff, reads, ◌>>=◌}
use quick_bite_analytics_ser.Go.Time.{Time}
use quick_bite_analytics_ser.Mongo.Driver.{Mongo, MongoLaws}
use quick_bite_analytics_ser.Analytics.Repository.Collections.{unique_index}
use quick_bite_analytics_ser.Analytics.Ledger.View.{Updates}
use quick_bite_analytics_ser.Analytics.EventHandlers.{
  Wire, order_placed_handler, order_delivered_handler, order_rejected_handler,
  payment_completed_handler, placed_input, delivered_input, rejected_input, paid_input,
}
use quick_bite_analytics_ser.Analytics.Service.Frames.{
  Leaves, Leaves-reads, Leaves-bind, placed-Leaves, delivered-Leaves, rejected-Leaves, paid-Leaves,
}
use quick_bite_analytics_ser.Analytics.Service.Refinement.{
  placed-refines, delivered-refines, rejected-refines, paid-refines,
}
use quick_bite_analytics_ser.Analytics.Service.Refinement.Spec.{Event, apply}
use quick_bite_analytics_ser.Analytics.Ingest.{
  event_if, placed_event, delivered_event, rejected_event, paid_event, apply_all,
}

module _ (m : Mongo) (day : Time → String) where
  -- two wrapped steps, then the service
  abbrev two_steps :
      {P : Type 0} → Result P → (P → Result Time) → (P → Time → Eff m.World Unit) → Eff m.World Unit
  two_steps decoded time act = reads (λ _. decoded) >>= λ p. reads (λ _. time p) >>= act p

  steps-Updates :
      {P : Type 0} (formats : P → List String) (f1 f2 : String) (decoded : Result P)
      (time : P → Result Time) (act : P → Time → Eff m.World Unit) (make : P → Time → Event)
      → ((p : P) (t : Time) → Updates m (act p t) (apply m.stored_time day (make p t)))
      → Updates m
          (two_steps (wrapping f1 [] decoded) (λ p. wrapping f2 (formats p) (time p)) act)
          (apply_all m.stored_time day (event_if decoded time make))
  steps-Updates formats f1 f2 (fail e) time act make up = record { at = λ w h. cc }
  steps-Updates formats f1 f2 (ok p) time act make up = go (time p)
    where
      go :
          (r : Result Time)
          → Updates m (two_steps (ok p) (λ q. wrapping f2 (formats q) r) act) (
              apply_all m.stored_time day
                (elim r as (λ _. List Event) [ ok t ↦ make p t ∷ [] | fail e ↦ [] ]))
      go (ok t) = record { at = (up p t).at }
      go (fail e) = record { at = λ w h. cc }

  steps-Leaves :
      {P : Type 0} (formats : P → List String) (f1 f2 : String) (decoded : Result P)
      (time : P → Result Time) (act : P → Time → Eff m.World Unit)
      → ((p : P) (t : Time) → Leaves m (act p t))
      → Leaves m (two_steps (wrapping f1 [] decoded) (λ p. wrapping f2 (formats p) (time p)) act)
  steps-Leaves formats f1 f2 decoded time act la =
      Leaves-bind m (reads (λ _. wrapping f1 [] decoded)) _ (Leaves-reads m _) λ p.
        Leaves-bind m (reads (λ _. wrapping f2 (formats p) (time p))) (act p) (Leaves-reads m _)
          (la p)

module _ (m : Mongo) (laws : MongoLaws unique_index m) (day : Time → String) (wire : Wire)
    (payload : String) where
  pub order_placed-Updates :
      Updates m
        (order_placed_handler m day wire payload)
        (apply_all m.stored_time day (placed_event wire payload))
  unfolding order_placed_handler
  order_placed-Updates =
      steps-Updates m day (λ p. p.placed_at ∷ []) _ _ (wire.order_placed payload) _ _ _
        λ p t. placed-refines m laws day (placed_input p t)

  pub order_delivered-Updates :
      Updates m
        (order_delivered_handler m day wire payload)
        (apply_all m.stored_time day (delivered_event wire payload))
  unfolding order_delivered_handler
  order_delivered-Updates =
      steps-Updates m day (λ p. p.delivered_at ∷ []) _ _ (wire.order_delivered payload) _ _ _
        λ p t. delivered-refines m laws day (delivered_input p t)

  pub order_rejected-Updates :
      Updates m
        (order_rejected_handler m day wire payload)
        (apply_all m.stored_time day (rejected_event wire payload))
  unfolding order_rejected_handler
  order_rejected-Updates =
      steps-Updates m day (λ p. p.occurred_at ∷ []) _ _ (wire.order_rejected payload) _ _ _
        λ p t. rejected-refines m laws day (rejected_input p t)

  pub payment_completed-Updates :
      Updates m
        (payment_completed_handler m day wire payload)
        (apply_all m.stored_time day (paid_event wire payload))
  unfolding payment_completed_handler
  payment_completed-Updates =
      steps-Updates m day (λ p. p.completed_at ∷ []) _ _ (wire.payment_completed payload) _ _ _
        λ p t. paid-refines m laws day (paid_input p t)

  pub order_placed-Leaves : Leaves m (order_placed_handler m day wire payload)
  unfolding order_placed_handler
  order_placed-Leaves =
      steps-Leaves m day (λ p. p.placed_at ∷ []) _ _ (wire.order_placed payload)
        (λ p. wire.parse_time p.placed_at) _ λ p t. placed-Leaves m laws day (placed_input p t)

  pub order_delivered-Leaves : Leaves m (order_delivered_handler m day wire payload)
  unfolding order_delivered_handler
  order_delivered-Leaves =
      steps-Leaves m day (λ p. p.delivered_at ∷ []) _ _ (wire.order_delivered payload)
        (λ p. wire.parse_time p.delivered_at) _
        λ p t. delivered-Leaves m laws day (delivered_input p t)

  pub order_rejected-Leaves : Leaves m (order_rejected_handler m day wire payload)
  unfolding order_rejected_handler
  order_rejected-Leaves =
      steps-Leaves m day (λ p. p.occurred_at ∷ []) _ _ (wire.order_rejected payload)
        (λ p. wire.parse_time p.occurred_at) _
        λ p t. rejected-Leaves m laws day (rejected_input p t)

  pub payment_completed-Leaves : Leaves m (payment_completed_handler m day wire payload)
  unfolding payment_completed_handler
  payment_completed-Leaves =
      steps-Leaves m day (λ p. p.completed_at ∷ []) _ _ (wire.payment_completed payload)
        (λ p. wire.parse_time p.completed_at) _ λ p t. paid-Leaves m laws day (paid_input p t)
