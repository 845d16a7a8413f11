-- ===== src/Backfill/Orders.antt =====
-- The orders of the pages, one after the other.
use quick_bite_analytics_ser.Prelude.{
  ℕ, suc, ◌+◌, String, ◌==◌, ◌≡◌, refl, sym, ap, subst, ◌≤◌, ◌∙◌, Bool, true, false, ◌||◌, List, [],
  ◌∷◌, ◌++◌, arith, if◌then◌else◌,
}
use mathlib.Core.List.{append_assoc}
use quick_bite_analytics_ser.Go.Effect.{Result, ok, fail, proceed, reads}
use quick_bite_analytics_ser.Go.Time.{Time}
use quick_bite_analytics_ser.Mongo.Driver.{Mongo, MongoLaws}
use quick_bite_analytics_ser.Analytics.Ledger.View.{view}
use quick_bite_analytics_ser.Analytics.Repository.Collections.{unique_index}
use quick_bite_analytics_ser.Analytics.Repository.EventIds.{mark_seen, unmark, seen, event_key}
use quick_bite_analytics_ser.Analytics.Service.Writes.{on_order_placed}
use quick_bite_analytics_ser.Mongo.Bson.{has}
use quick_bite_analytics_ser.Analytics.Service.Frames.{
  Leaves, Leaves-bind, Leaves-reads, placed-Leaves,
}
use quick_bite_analytics_ser.Analytics.Service.Correct.{on_order_placed-apply_placed}
use quick_bite_analytics_ser.Analytics.Service.Refinement.Spec.{Event, placed}
use quick_bite_analytics_ser.Analytics.Ingest.{apply_all}
use quick_bite_analytics_ser.Analytics.Ingest.Marking.{
  view-mark_seen, seen-mark_seen, mark_seen-was,
}
use quick_bite_analytics_ser.Backfill.{
  OrderHistoryItem, Counts, Formats, dedupe_key, history_input, place, finish_order, mark_order,
  process_order,
}

-- What the order stands for, if its time can be read.
unfoldable pub order_events : Formats → OrderHistoryItem → List Event
order_events formats o = elim (formats.parse_time o.placed_at) [
  | ok t ↦ placed (history_input o t) ∷ []
  | fail e ↦ []
]

-- The orders whose dedupe key is new, each key counted once.
unfoldable pub fresh_orders : Formats → (String → Bool) → List OrderHistoryItem → List Event
unfolding order_events
fresh_orders formats known [] = []
fresh_orders formats known (o ∷ os) =
    (if known (dedupe_key o) then [] else order_events formats o)
    ++ fresh_orders formats (λ j. dedupe_key o == j || known j) os

-- The ids that are recorded once the keys of these orders are.
unfoldable pub known_after : (String → Bool) → List OrderHistoryItem → String → Bool
known_after known [] = known
known_after known (o ∷ os) = known_after (λ j. dedupe_key o == j || known j) os

pub fresh_orders-append :
    (formats : Formats) (known : String → Bool) (os os' : List OrderHistoryItem)
    → fresh_orders formats known (os ++ os')
      ≡ fresh_orders formats known os ++ fresh_orders formats (known_after known os) os'
unfolding fresh_orders known_after
fresh_orders-append formats known [] os' = refl
fresh_orders-append formats known (o ∷ os) os' =
    let here = if known (dedupe_key o) then [] else order_events formats o in
    ap (λ es. here ++ es) (fresh_orders-append formats (λ j. dedupe_key o == j || known j) os os')
    ∙ sym (append_assoc here _ _)

-- The orders that a run has taken up.
abbrev pub handled : Counts → ℕ
handled c = c.applied + c.skipped_dup + c.failed

module _ (m : Mongo) (laws : MongoLaws unique_index m) (day : Time → String)
    (formats : Formats) where
  place-applies :
      (o : OrderHistoryItem) (w : m.World)
      → (place m day formats o w).0 ≡ ok tt
      → view m (place m day formats o w).1
        ≡ apply_all m.stored_time day (order_events formats o) (view m w)
  unfolding place order_events
  place-applies o w = go (formats.parse_time o.placed_at)
    where
      go :
          (r : Result Time)
          → (proceed r (λ t. on_order_placed m day (history_input o t)) w).0 ≡ ok tt
          → view m (proceed r (λ t. on_order_placed m day (history_input o t)) w).1
            ≡ apply_all m.stored_time day
                (elim r [ ok t ↦ placed (history_input o t) ∷ [] | fail e ↦ [] ])
                (view m w)
      go (ok t) done = on_order_placed-apply_placed m laws day (history_input o t) w done
      go (fail e) done = cc

  -- What one order that is not a fatal error comes to.
  pub record Done (o : OrderHistoryItem) (c : Counts) (w : m.World) (c' : Counts) (w' : m.World)
      : Type 0 where
    pub one : handled c' ≡ suc (handled c)
    pub read : (c'.pages ≡ c.pages) × (c'.fetched ≡ c.fetched)
    pub failures : c.failed ≤ c'.failed
    pub old : seen m w (dedupe_key o) ≡ true → c'.failed ≡ c.failed
    pub applied :
        c'.failed ≡ c.failed → c'.applied ≡ c.applied + (if seen m w (dedupe_key o) then 0 else 1)
    pub ledger :
        c'.failed ≡ c.failed
        → view m w'
          ≡ apply_all m.stored_time day
              (if seen m w (dedupe_key o) then [] else order_events formats o)
              (view m w)
    pub record_of :
        c'.failed ≡ c.failed → (j : String) → seen m w' j ≡ (dedupe_key o == j || seen m w j)

  finish_order-Done :
      (o : OrderHistoryItem) (c c' : Counts) (w w2 : m.World) (r : Result (Unit {0}))
      → seen m w (dedupe_key o) ≡ false
      → (r ≡ ok tt → view m w2 ≡ apply_all m.stored_time day (order_events formats o) (view m w))
      → ((j : String) → seen m w2 j ≡ (dedupe_key o == j || seen m w j))
      → (finish_order m day formats o c r w2).0 ≡ ok c'
      → Done o c w c' (finish_order m day formats o c r w2).1
  unfolding finish_order
  finish_order-Done o c c' w w2 (ok tt) new done marks counted =
      let is : record c { applied = suc c.applied } ≡ c' = cc in
      subst (λ d. Done o c w d w2) is
        (record {
          one = omega arith;
          read = (refl, refl);
          failures = omega arith;
          old = λ known. let clash : true ≡ false = sym known ∙ new in cc;
          applied = λ clean. rw new (omega arith);
          ledger = λ clean. rw new (done refl);
          record_of = λ clean. marks;
        })
  finish_order-Done o c c' w w2 (fail e) new done marks counted =
      let is : record c { failed = suc c.failed } ≡ c' = cc in
      subst (λ d. Done o c w d (unmark m (dedupe_key o) w2).1) is
        (record {
          one = omega arith;
          read = (refl, refl);
          failures = omega arith;
          old = λ known. let clash : true ≡ false = sym known ∙ new in cc;
          applied = λ clean. absurd (omega (arith, clean));
          ledger = λ clean. absurd (omega (arith, clean));
          record_of = λ clean. absurd (omega (arith, clean));
        })

  place-Leaves : (o : OrderHistoryItem) → Leaves m (place m day formats o)
  unfolding place
  place-Leaves o =
      Leaves-bind m (reads (λ _. formats.parse_time o.placed_at)) _ (Leaves-reads m _)
        (λ t. placed-Leaves m laws day (history_input o t))

  mark_order-Done :
      (o : OrderHistoryItem) (c c' : Counts) (w w1 : m.World) (r : Result Bool)
      → ((b : Bool) → r ≡ ok b → seen m w (dedupe_key o) ≡ (if b then false else true))
      → view m w1 ≡ view m w
      → ((b : Bool) → r ≡ ok b → (j : String) → seen m w1 j ≡ (dedupe_key o == j || seen m w j))
      → (mark_order m day formats o c r w1).0 ≡ ok c'
      → Done o c w c' (mark_order m day formats o c r w1).1
  unfolding mark_order
  mark_order-Done o c c' w w1 (fail e) was same marks counted = cc
  mark_order-Done o c c' w w1 (ok false) was same marks counted =
      let is : record c { skipped_dup = suc c.skipped_dup } ≡ c' = cc in
      subst (λ d. Done o c w d w1) is
        (record {
          one = omega arith;
          read = (refl, refl);
          failures = omega arith;
          old = λ known. refl;
          applied = λ clean. rw (was false refl) (omega arith);
          ledger = λ clean. rw (was false refl) same;
          record_of = λ clean. marks false refl;
        })
  mark_order-Done o c c' w w1 (ok true) was same marks counted =
      finish_order-Done o c c' w (place m day formats o w1).1 (place m day formats o w1).0
        (was true refl)
        (λ done.
          place-applies o w1 done ∙ ap (apply_all m.stored_time day (order_events formats o)) same)
        (λ j. unfold seen in (ap has ((place-Leaves o).at w1 (event_key j)) ∙ marks true refl j))
        counted

  pub process_order-Done :
      (o : OrderHistoryItem) (c c' : Counts) (w : m.World)
      → (process_order m day formats false o c w).0 ≡ ok c'
      → Done o c w c' (process_order m day formats false o c w).1
  unfolding process_order
  process_order-Done o c c' w counted =
      mark_order-Done o c c' w (mark_seen m (dedupe_key o) w).1 (mark_seen m (dedupe_key o) w).0
        (mark_seen-was m laws (dedupe_key o) w) (view-mark_seen m laws (dedupe_key o) w)
        (seen-mark_seen m laws (dedupe_key o) w) counted
