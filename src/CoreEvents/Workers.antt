-- ===== src/CoreEvents/Workers.antt =====
-- handleMessage of lib/coreevents/consumer.go in several processes that share a store of event ids.
-- Each call of the store is one step. The writes of a handler are steps of their own, so that those
-- of other deliveries fall between them, and a process may die between any two steps.
pub mod Once
pub mod Lost
pub mod Sequential
use quick_bite_analytics_ser.Prelude.{
  ℕ, ◌+◌, String, ◌==◌, ◌≡◌, refl, arith, Bool, true, false, none, List, [], ◌∷◌, ◌++◌,
  if◌then◌else◌,
}
use quick_bite_analytics_ser.Errors.{Error}
use quick_bite_analytics_ser.Go.Effect.{Result, ok, fail}
use quick_bite_analytics_ser.CoreEvents.Consumer.{Envelope, Consumer, handler_for}

pub record Shared (W : Type 0) : Type 0 where
  pub world : W
  -- MarkSeen has answered that they are fresh, and their handler has not returned
  pub handling : List Envelope
  -- their handler has failed, and Unmark has not returned
  pub failed : List Envelope
  -- their handler has returned without an error
  pub applied : List Envelope

abbrev pub times : String → List Envelope → ℕ
times id [] = 0
times id (e ∷ es) = (if e.event_id == id then 1 else 0) + times id es

module _ {W : Type 0} where
  pub data Step (c : Consumer W) (seen : W → String → Bool) : Shared W → Shared W → Type 0 where
    marks :
        (s : Shared W) (e : Envelope) (w : W)
        → c.dedupe.mark_seen e.event_id s.world ≡ (ok true, w)
        → Step c seen s (record s { world = w; handling = e ∷ s.handling })
    skips :
        (s : Shared W) (e : Envelope) (w : W)
        → c.dedupe.mark_seen e.event_id s.world ≡ (ok false, w)
        → Step c seen s (record s { world = w })
    refuses :
        (s : Shared W) (e : Envelope) (error : Error) (w : W)
        → c.dedupe.mark_seen e.event_id s.world ≡ (fail error, w)
        → Step c seen s (record s { world = w })
    -- no handler is registered
    dismisses :
        (s : Shared W) (xs ys : List Envelope) (e : Envelope)
        → s.handling ≡ xs ++ e ∷ ys
        → handler_for e.event_type c.handlers ≡ none
        → Step c seen s (record s { handling = xs ++ ys })
    -- a handler changes the world, but records no event id and forgets none
    writes :
        (s : Shared W) (w : W)
        → ((id : String) → seen w id ≡ seen s.world id)
        → Step c seen s (record s { world = w })
    succeeds :
        (s : Shared W) (xs ys : List Envelope) (e : Envelope)
        → s.handling ≡ xs ++ e ∷ ys
        → Step c seen s (record s { handling = xs ++ ys; applied = e ∷ s.applied })
    fails :
        (s : Shared W) (xs ys : List Envelope) (e : Envelope)
        → s.handling ≡ xs ++ e ∷ ys
        → Step c seen s (record s { handling = xs ++ ys; failed = e ∷ s.failed })
    unmarks :
        (s : Shared W) (xs ys : List Envelope) (e : Envelope) (r : Result (Unit {0})) (w : W)
        → s.failed ≡ xs ++ e ∷ ys
        → c.dedupe.unmark e.event_id s.world ≡ (r, w)
        → Step c seen s (record s { world = w; failed = xs ++ ys })
    -- the process of a delivery dies
    dies :
        (s : Shared W) (xs ys : List Envelope) (e : Envelope)
        → s.handling ≡ xs ++ e ∷ ys
        → Step c seen s (record s { handling = xs ++ ys })
    dies_failed :
        (s : Shared W) (xs ys : List Envelope) (e : Envelope)
        → s.failed ≡ xs ++ e ∷ ys
        → Step c seen s (record s { failed = xs ++ ys })

  pub data Run (c : Consumer W) (seen : W → String → Bool) (s : Shared W) : Shared W → Type 0 where
    stop : Run c seen s s
    step : {t u : Shared W} → Run c seen s t → Step c seen t u → Run c seen s u

-- What is in flight or has been applied, of one event id.
abbrev pub held : {W : Type 0} → String → Shared W → ℕ
held id s = times id s.handling + (times id s.failed + times id s.applied)

pub times-middle :
    (id : String) (xs ys : List Envelope) (e : Envelope)
    → times id (xs ++ e ∷ ys) ≡ (if e.event_id == id then 1 else 0) + times id (xs ++ ys)
times-middle id [] ys e = refl
times-middle id (x ∷ xs) ys e = omega (arith, times-middle id xs ys e)
