-- ===== src/Backfill/Runs.antt =====
-- A run over a list of orders, and a second one.
use quick_bite_analytics_ser.Prelude.{
  or_true, ◌+◌, ◌≤◌, String, ◌==◌, ◌≡◌, refl, sym, ap, ap₂, subst, ◌∙◌, fun_ext, true, false, List,
  [], ◌∷◌, length, All, arith, eq_refl, if◌then◌else◌,
}
use quick_bite_analytics_ser.Go.Effect.{Result, ok, fail, proceed}
use quick_bite_analytics_ser.Go.Time.{Time}
use quick_bite_analytics_ser.Mongo.Driver.{Mongo, MongoLaws}
use quick_bite_analytics_ser.Analytics.Ledger.View.{view}
use quick_bite_analytics_ser.Analytics.Repository.Collections.{unique_index}
use quick_bite_analytics_ser.Analytics.Repository.EventIds.{seen}
use quick_bite_analytics_ser.Analytics.Ingest.{apply_all}
use quick_bite_analytics_ser.Analytics.Ingest.Queue.{apply_all-append}
use quick_bite_analytics_ser.Backfill.{
  OrderHistoryItem, Counts, Formats, dedupe_key, process_order, process_orders,
}
use quick_bite_analytics_ser.Backfill.Orders.{
  Done, process_order-Done, fresh_orders, known_after, order_events, handled,
}

module _ (m : Mongo) (laws : MongoLaws unique_index m) (day : Time → String)
    (formats : Formats) where
  -- One order after the other, none with a fatal error.
  Ran : List OrderHistoryItem → Counts → m.World → Counts → m.World → Type 0
  Ran [] c w c' w' = (c ≡ c') × (w ≡ w')
  Ran (o ∷ os) c w c' w' =
      (d : Counts) × (v : m.World) × Done m laws day formats o c w d v × Ran os d v c' w'

  process_orders-Ran :
      (os : List OrderHistoryItem) (c c' : Counts) (w : m.World)
      → (process_orders m day formats false os c w).0 ≡ ok c'
      → Ran os c w c' (process_orders m day formats false os c w).1
  unfolding process_orders Ran
  process_orders-Ran [] c c' w done = (cc, refl)
  process_orders-Ran (o ∷ os) c c' w done =
      go (process_order m day formats false o c w).0
        (λ d first. process_order-Done m laws day formats o c d w first)
        (λ d rest. process_orders-Ran os d c' (process_order m day formats false o c w).1 rest) done
    where
      go :
          (r : Result Counts)
          → ((d : Counts)
              → r ≡ ok d
              → Done m laws day formats o c w d (process_order m day formats false o c w).1)
          → ((d : Counts)
              → (process_orders m day formats false os d
                  (process_order m day formats false o c w).1).0
                ≡ ok c'
              → Ran os d
                  (process_order m day formats false o c w).1
                  c'
                  (process_orders m day formats false os d
                    (process_order m day formats false o c w).1).1)
          → (proceed r
              (λ d. process_orders m day formats false os d)
              (process_order m day formats false o c w).1).0
            ≡ ok c'
          → Ran
              (o ∷ os)
              c
              w
              c'
              (proceed r
                (λ d. process_orders m day formats false os d)
                (process_order m day formats false o c w).1).1
      go (ok d) first rest h =
          (d, (process_order m day formats false o c w).1, first d refl, rest d h)
      go (fail e) first rest h = cc

  Ran-counts :
      (os : List OrderHistoryItem) (c c' : Counts) (w w' : m.World)
      → Ran os c w c' w'
      → (handled c' ≡ handled c + length os)
        × (c'.pages ≡ c.pages)
        × (c'.fetched ≡ c.fetched)
        × (c.failed ≤ c'.failed)
  unfolding Ran
  Ran-counts [] c c' w w' (same, there) = rw (← same) (omega arith, refl, refl, omega arith)
  Ran-counts (o ∷ os) c c' w w' (d, v, first, rest) =
      let (n, p, f, le) = Ran-counts os d c' v w' rest in
      (
        omega (arith, n, first.one),
        p ∙ first.read.0,
        f ∙ first.read.1,
        omega (arith, le, first.failures),
      )

  Ran-clean :
      (o : OrderHistoryItem) (os : List OrderHistoryItem) (c d c' : Counts) (w v w' : m.World)
      → Done m laws day formats o c w d v
      → Ran os d v c' w'
      → c'.failed ≡ c.failed
      → (d.failed ≡ c.failed) × (c'.failed ≡ d.failed)
  Ran-clean o os c d c' w v w' first rest clean = (
    omega (arith, first.failures, (Ran-counts os d c' v w' rest).3, clean),
    omega (arith, first.failures, (Ran-counts os d c' v w' rest).3, clean),
  )

  Ran-ledger :
      (os : List OrderHistoryItem) (c c' : Counts) (w w' : m.World)
      → Ran os c w c' w'
      → c'.failed ≡ c.failed
      → view m w' ≡ apply_all m.stored_time day (fresh_orders formats (seen m w) os) (view m w)
  unfolding Ran fresh_orders
  Ran-ledger [] c c' w w' (same, there) clean = ap (view m) (sym there)
  Ran-ledger (o ∷ os) c c' w w' (d, v, first, rest) clean =
      let (now, later) = Ran-clean o os c d c' w v w' first rest clean in
      let stored = m.stored_time in
      Ran-ledger os d c' v w' rest later
      ∙ ap₂ (λ known l. apply_all stored day (fresh_orders formats known os) l)
          (fun_ext (first.record_of now)) (first.ledger now)
      ∙ sym (
          apply_all-append stored day
            (if seen m w (dedupe_key o) then [] else order_events formats o) _ (view m w))

  Ran-seen :
      (os : List OrderHistoryItem) (c c' : Counts) (w w' : m.World)
      → Ran os c w c' w'
      → c'.failed ≡ c.failed
      → seen m w' ≡ known_after (seen m w) os
  unfolding Ran known_after
  Ran-seen [] c c' w w' (same, there) clean = ap (seen m) (sym there)
  Ran-seen (o ∷ os) c c' w w' (d, v, first, rest) clean =
      let (now, later) = Ran-clean o os c d c' w v w' first rest clean in
      Ran-seen os d c' v w' rest later
      ∙ ap (λ known. known_after known os) (fun_ext (first.record_of now))

  pub seen-process_orders :
      (os : List OrderHistoryItem) (c c' : Counts) (w : m.World)
      → (process_orders m day formats false os c w).0 ≡ ok c'
      → c'.failed ≡ c.failed
      → seen m (process_orders m day formats false os c w).1 ≡ known_after (seen m w) os
  seen-process_orders os c c' w done = Ran-seen os c c' w _ (process_orders-Ran os c c' w done)

  -- When no order of a list fails, the documents hold the ledger of before with each order whose
  -- dedupe key was not recorded yet applied once.
  pub process_orders-once :
      (os : List OrderHistoryItem) (c c' : Counts) (w : m.World)
      → (process_orders m day formats false os c w).0 ≡ ok c'
      → c'.failed ≡ c.failed
      → view m (process_orders m day formats false os c w).1
        ≡ apply_all m.stored_time day (fresh_orders formats (seen m w) os) (view m w)
  process_orders-once os c c' w done = Ran-ledger os c c' w _ (process_orders-Ran os c c' w done)

  -- Every order of a list that meets no fatal error is counted once: as applied, as skipped or as
  -- failed. The counts of pages and of fetched orders stay, and the failures never go down.
  pub process_orders-counts :
      (os : List OrderHistoryItem) (c c' : Counts) (w : m.World)
      → (process_orders m day formats false os c w).0 ≡ ok c'
      → (handled c' ≡ handled c + length os)
        × (c'.pages ≡ c.pages)
        × (c'.fetched ≡ c.fetched)
        × (c.failed ≤ c'.failed)
  process_orders-counts os c c' w done = Ran-counts os c c' w _ (process_orders-Ran os c c' w done)

  Known : List OrderHistoryItem → m.World → Type 0
  Known os w = All (λ o. seen m w (dedupe_key o) ≡ true) os

  Ran-keeps :
      (os : List OrderHistoryItem) (c c' : Counts) (w w' : m.World) (j : String)
      → Ran os c w c' w'
      → c'.failed ≡ c.failed
      → seen m w j ≡ true
      → seen m w' j ≡ true
  unfolding Ran
  Ran-keeps [] c c' w w' j (same, there) clean known = subst (λ v. seen m v j ≡ true) there known
  Ran-keeps (o ∷ os) c c' w w' j (d, v, first, rest) clean known =
      let (now, later) = Ran-clean o os c d c' w v w' first rest clean in
      Ran-keeps os d c' v w' j rest later
        (first.record_of now j ∙ rw known (or_true (dedupe_key o == j)))

  Ran-Known :
      (os : List OrderHistoryItem) (c c' : Counts) (w w' : m.World)
      → Ran os c w c' w'
      → c'.failed ≡ c.failed
      → Known os w'
  unfolding Ran Known
  Ran-Known [] c c' w w' ran clean = tt
  Ran-Known (o ∷ os) c c' w w' (d, v, first, rest) clean =
      let (now, later) = Ran-clean o os c d c' w v w' first rest clean in
      (
        Ran-keeps os d c' v w' (dedupe_key o) rest later
            (first.record_of now (dedupe_key o) ∙ rw (eq_refl (dedupe_key o)) refl),
        Ran-Known os d c' v w' rest later,
      )

  Known-more :
      (o : OrderHistoryItem) (os : List OrderHistoryItem) (c d : Counts) (w v : m.World)
      → Done m laws day formats o c w d v
      → d.failed ≡ c.failed
      → Known os w
      → Known os v
  unfolding Known
  Known-more o [] c d w v first clean known = tt
  Known-more o (p ∷ os) c d w v first clean (here, others) = (
    first.record_of clean (dedupe_key p) ∙ rw here (or_true (dedupe_key o == dedupe_key p)),
    Known-more o os c d w v first clean others,
  )

  Ran-known :
      (os : List OrderHistoryItem) (c c' : Counts) (w w' : m.World)
      → Ran os c w c' w'
      → Known os w
      → (c'.failed ≡ c.failed) × (c'.applied ≡ c.applied) × (view m w' ≡ view m w)
  unfolding Ran Known
  Ran-known [] c c' w w' (same, there) known =
      (ap (λ d. d.failed) (sym same), ap (λ d. d.applied) (sym same), ap (view m) (sym there))
  Ran-known (o ∷ os) c c' w w' (d, v, first, rest) (here, others) =
      let now = first.old here in
      let (f, a, l) = Ran-known os d c' v w' rest (Known-more o os c d w v first now others) in
      let held : c.applied + (if seen m w (dedupe_key o) then 0 else 1) ≡ c.applied =
        rw here (omega arith) in
      let level : view m v ≡ view m w = first.ledger now ∙ rw here refl in
      (f ∙ now, a ∙ first.applied now ∙ held, l ∙ level)

  -- A second run over a list of orders, of which none failed in the first, applies none of them and
  -- fails none: it counts them all as skipped, and the ledger stays as the first run left it.
  pub process_orders-again :
      (os : List OrderHistoryItem) (c c' d d' : Counts) (w : m.World)
      → (process_orders m day formats false os c w).0 ≡ ok c'
      → c'.failed ≡ c.failed
      → (process_orders m day formats false os d (process_orders m day formats false os c w).1).0
        ≡ ok d'
      → (d'.skipped_dup ≡ d.skipped_dup + length os)
        × (d'.applied ≡ d.applied)
        × (d'.failed ≡ d.failed)
        × (view m
              (process_orders m day formats false os d
                (process_orders m day formats false os c w).1).1
            ≡ view m (process_orders m day formats false os c w).1)
  process_orders-again os c c' d d' w first clean second =
      let ran = process_orders-Ran os c c' w first in
      let again = process_orders-Ran os d d' _ second in
      let (f, a, l) = Ran-known os d d' _ _ again (Ran-Known os c c' w _ ran clean) in
      (omega (arith, (Ran-counts os d d' _ _ again).0, f, a), a, f, l)
