-- ===== src/Backfill/Whole.antt =====
-- A whole run of the backfill: the orders of all its pages.
use quick_bite_analytics_ser.Prelude.{
  ℕ, zero, suc, ◌+◌, ◌≤◌, String, ◌≡◌, refl, sym, ap, ap₂, subst, ◌∙◌, inl, inr, false, Option,
  none, some, List, ◌++◌, length, length-append, arith,
}
use quick_bite_analytics_ser.Go.Effect.{Result, ok, fail}
use quick_bite_analytics_ser.Go.Time.{Time}
use quick_bite_analytics_ser.Mongo.Driver.{Mongo, MongoLaws}
use quick_bite_analytics_ser.HttpClient.{Net}
use quick_bite_analytics_ser.Analytics.Ledger.View.{view}
use quick_bite_analytics_ser.Analytics.Repository.Collections.{unique_index}
use quick_bite_analytics_ser.Analytics.Repository.EventIds.{seen}
use quick_bite_analytics_ser.Analytics.Ingest.{apply_all}
use quick_bite_analytics_ser.Analytics.Ingest.Queue.{apply_all-append}
use quick_bite_analytics_ser.Backfill.{
  OrderHistoryItem, Counts, Flags, Formats, on_counts, process_orders, fetch_order_history_page,
  backfill,
}
use quick_bite_analytics_ser.Backfill.Orders.{
  fresh_orders, known_after, fresh_orders-append, handled,
}
use quick_bite_analytics_ser.Backfill.Runs.{
  process_orders-once, process_orders-counts, seen-process_orders,
}
use quick_bite_analytics_ser.Backfill.Pages.{
  History, Answers, PagesFrom, backfill_page, opened, next_of, last-next_of, more-next_of,
}

module _ {J : Type 0} (m : Mongo) (laws : MongoLaws unique_index m) (net : Net m.World J)
    (day : Time → String) (formats : Formats) (flags : Flags) where
  -- What the orders of `n` pages come to, between two states of the run.
  pub record Applied (n : ℕ) (os : List OrderHistoryItem) (c : Counts) (w : m.World) (c' : Counts)
      (w' : m.World) : Type 0 where
    pub pages : c'.pages ≡ c.pages + n
    pub fetched : c'.fetched ≡ c.fetched + length os
    pub taken_up : handled c' ≡ handled c + length os
    pub failures : c.failed ≤ c'.failed
    pub ledger :
        c'.failed ≡ c.failed
        → view m w' ≡ apply_all m.stored_time day (fresh_orders formats (seen m w) os) (view m w)

  Applied-append :
      (n : ℕ) (os os' : List OrderHistoryItem) (c d e : Counts) (u v w : m.World)
      → Applied 1 os c u d v
      → (d.failed ≡ c.failed → seen m v ≡ known_after (seen m u) os)
      → Applied n os' d v e w
      → Applied (suc n) (os ++ os') c u e w
  Applied-append n os os' c d e u v w a keys b = record {
    pages = omega (arith, a.pages, b.pages);
    fetched = omega (arith, a.fetched, b.fetched, length-append os os');
    taken_up = omega (arith, a.taken_up, b.taken_up, length-append os os');
    failures = omega (arith, a.failures, b.failures);
    ledger = λ clean.
        let now : d.failed ≡ c.failed = omega (arith, a.failures, b.failures, clean) in
        let later : e.failed ≡ d.failed = omega (arith, a.failures, b.failures, clean) in
        let stored = m.stored_time in
        b.ledger later
        ∙ ap₂ (λ known l. apply_all stored day (fresh_orders formats known os') l) (keys now)
            (a.ledger now)
        ∙ sym (apply_all-append stored day (fresh_orders formats (seen m u) os) _ (view m u))
        ∙ ap (λ es. apply_all stored day es (view m u))
            (sym (fresh_orders-append formats (seen m u) os os'));
  }

  module _ (history : History m net day formats flags)
      (answers : Answers m net day formats flags history) (wet : flags.dry_run ≡ false) where
    -- The run of one page from the world that its request leaves.
    page_run : String → Counts → m.World → Result Counts × m.World
    page_run cursor c w =
        process_orders m day formats false (history cursor).data_
          (opened m net day formats flags history cursor c)
          (fetch_order_history_page m net day formats flags cursor w).1

    page_run-Applied :
        (cursor : String) (c d : Counts) (w v : m.World)
        → page_run cursor c w ≡ (ok d, v)
        → Applied 1 (history cursor).data_ c w d v
          × (d.failed ≡ c.failed → seen m v ≡ known_after (seen m w) (history cursor).data_)
    unfolding page_run
    page_run-Applied cursor c d w v e =
        let os = (history cursor).data_ in
        let o = opened m net day formats flags history cursor c in
        let u = (fetch_order_history_page m net day formats flags cursor w).1 in
        let done : (process_orders m day formats false os o u).0 ≡ ok d = ap (λ t. t.0) e in
        let at : (process_orders m day formats false os o u).1 ≡ v = ap (λ t. t.1) e in
        let (n, p, f, le) = process_orders-counts m laws day formats os o d u done in
        (
          record {
            pages = omega (arith, p);
            fetched = omega (arith, f);
            taken_up = omega (arith, n);
            failures = omega (arith, le);
            ledger = λ clean.
                ap (view m) (sym at)
                ∙ process_orders-once m laws day formats os o d u done clean
                ∙ ap₂ (λ known l. apply_all m.stored_time day (fresh_orders formats known os) l)
                    (answers.keeps_seen cursor w) (answers.keeps_view cursor w);
          },
          λ clean.
              ap (seen m) (sym at)
              ∙ seen-process_orders m laws day formats os o d u done clean
              ∙ ap (λ known. known_after known os) (answers.keeps_seen cursor w),
        )

    backfill-page_run :
        (fuel : ℕ) (cursor : String) (c : Counts) (w : m.World)
        → backfill m net day formats flags (suc fuel) cursor c w
          ≡ on_counts m net day formats flags
              (next_of m net day formats flags history cursor)
              (backfill m net day formats flags fuel)
              (page_run cursor c w)
    unfolding page_run
    backfill-page_run fuel cursor c w =
        backfill_page m net day formats flags history answers fuel cursor c w
        ∙ ap
            (λ dry.
              on_counts m net day formats flags (next_of m net day formats flags history cursor)
                (backfill m net day formats flags fuel)
                (process_orders m day formats dry (history cursor).data_
                  (opened m net day formats flags history cursor c)
                  (fetch_order_history_page m net day formats flags cursor w).1))
            wet

    follow :
        (n : ℕ) (cursor : String) (c : Counts) (w : m.World) (o : Option String)
        (out : Option (Result Counts × m.World))
        → next_of m net day formats flags history cursor ≡ o
        → backfill m net day formats flags (suc n) cursor c w ≡ out
        → on_counts m net day formats flags o
            (backfill m net day formats flags n)
            (page_run cursor c w)
          ≡ out
    follow n cursor c w o out next run =
        ap
          (λ x.
            on_counts m net day formats flags x (backfill m net day formats flags n)
              (page_run cursor c w))
          (sym next)
        ∙ sym (backfill-page_run n cursor c w)
        ∙ run

    page_end :
        (n : ℕ) (t out : Result Counts × m.World)
        → on_counts m net day formats flags none (backfill m net day formats flags n) t ≡ some out
        → t ≡ out
    page_end n (ok d, v) out e = cc
    page_end n (fail x, v) out e = cc

    backfill-Applied :
        (n : ℕ) (cursor : String) (os : List OrderHistoryItem)
        → PagesFrom m net day formats flags history n cursor os
        → (c c' : Counts) (w w' : m.World)
        → backfill m net day formats flags n cursor c w ≡ some (ok c', w')
        → Applied n os c w c' w'
    unfolding PagesFrom
    backfill-Applied zero cursor os there c c' w w' run = absurd there
    backfill-Applied (suc n) cursor os (inl (last, only, all)) c c' w w' run =
        let ends : on_counts m net day formats flags none (backfill m net day formats flags n)
              (page_run cursor c w)
            ≡ some (ok c', w') =
          follow n cursor c w none (some (ok c', w'))
            (last-next_of m net day formats flags history cursor last) run in
        let this : page_run cursor c w ≡ (ok c', w') = page_end n (page_run cursor c w) _ ends in
        subst (λ k. Applied (suc k) os c w c' w') (sym only)
          (subst (λ l. Applied 1 l c w c' w') (sym all) (page_run-Applied cursor c c' w w' this).0)
    backfill-Applied (suc n) cursor os (inr (next, rest, more, named, all, others)) c c' w w' run =
        go (page_run cursor c w) refl
          (λ d v left. backfill-Applied n next rest others d c' v w' left)
          (follow n cursor c w (some next) (some (ok c', w'))
            (more-next_of m net day formats flags history cursor next more named) run)
      where
        go :
            (t : Result Counts × m.World)
            → page_run cursor c w ≡ t
            → ((d : Counts) (v : m.World)
                → backfill m net day formats flags n next d v ≡ some (ok c', w')
                → Applied n rest d v c' w')
            → on_counts m net day formats flags (some next) (backfill m net day formats flags n) t
              ≡ some (ok c', w')
            → Applied (suc n) os c w c' w'
        go (fail x, v) e later h = cc
        go (ok d, v) e later h =
            let (here, keys) = page_run-Applied cursor c d w v e in
            subst (λ l. Applied (suc n) l c w c' w') (sym all)
              (Applied-append n (history cursor).data_ rest c d c' w v w' here keys (later d v h))

    -- A run over all the pages of the server, not a dry run, that ends with no fatal error and with no
    -- more failures than before has read every page and every order of them, has counted each order
    -- once, and leaves the ledger of before with each order whose dedupe key was not recorded yet
    -- applied once.
    pub backfill-once :
        (n : ℕ) (cursor : String) (os : List OrderHistoryItem)
        → PagesFrom m net day formats flags history n cursor os
        → (c c' : Counts) (w w' : m.World)
        → backfill m net day formats flags n cursor c w ≡ some (ok c', w')
        → c'.failed ≡ c.failed
        → (c'.pages ≡ c.pages + n)
          × (c'.fetched ≡ c.fetched + length os)
          × (handled c' ≡ handled c + length os)
          × (view m w'
              ≡ apply_all m.stored_time day (fresh_orders formats (seen m w) os) (view m w))
    backfill-once n cursor os there c c' w w' run clean =
        let all = backfill-Applied n cursor os there c c' w w' run in
        (all.pages, all.fetched, all.taken_up, all.ledger clean)
