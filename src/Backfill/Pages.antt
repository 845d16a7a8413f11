-- ===== src/Backfill/Pages.antt =====
-- The pages of the history, one after the other.
use quick_bite_analytics_ser.Prelude.{
  ℕ, zero, suc, ◌+◌, ◌≤◌, String, ◌≡◌, refl, ap₂, ◌∙◌, ◌⊎◌, inl, inr, Option, none, some, List,
  ◌++◌, length, arith, true, false, Bool-cases,
}
use quick_bite_analytics_ser.Go.Effect.{Result, ok, fail}
use quick_bite_analytics_ser.Go.Time.{Time}
use quick_bite_analytics_ser.Mongo.Driver.{Mongo}
use quick_bite_analytics_ser.HttpClient.{Net}
use quick_bite_analytics_ser.Analytics.Ledger.View.{view}
use quick_bite_analytics_ser.Analytics.Repository.EventIds.{seen}
use quick_bite_analytics_ser.Backfill.{
  OrderHistoryItem, OrderHistoryPage, OrderHistoryPageMeta, Counts, Flags, Formats, Outcome,
  following, on_counts, on_page, process_orders, fetch_order_history_page, backfill,
}

module _ {J : Type 0} (m : Mongo) (net : Net m.World J) (day : Time → String) (formats : Formats)
    (flags : Flags) where
  -- What the server holds: the page it answers to each cursor.
  abbrev pub History : Type 0
  History = String → OrderHistoryPage

  abbrev pub next_of : History → String → Option String
  next_of history cursor = following m net day formats flags (history cursor).meta

  -- The page says that no other follows it, or it has no cursor of one.
  abbrev pub IsLast : OrderHistoryPageMeta → Type 0
  IsLast meta = (meta.has_more ≡ false) ⊎ (meta.next_cursor ≡ none)

  IsLast-following :
      (meta : OrderHistoryPageMeta) → IsLast meta → following m net day formats flags meta ≡ none
  IsLast-following meta (inl ended) = rw ended refl
  IsLast-following meta (inr bare) = elim (Bool-cases meta.has_more) [
    | inl more ↦ rw more bare
    | inr ended ↦ rw ended refl
  ]

  pub last-next_of :
      (history : History) (cursor : String)
      → IsLast (history cursor).meta
      → next_of history cursor ≡ none
  last-next_of history cursor last = IsLast-following (history cursor).meta last

  pub more-next_of :
      (history : History) (cursor next : String)
      → (history cursor).meta.has_more ≡ true
      → (history cursor).meta.next_cursor ≡ some next
      → next_of history cursor ≡ some next
  more-next_of history cursor next more named = rw more named

  -- From this cursor the server has exactly that many pages, with these orders.
  unfoldable pub PagesFrom : History → ℕ → String → List OrderHistoryItem → Type 0
  PagesFrom history zero cursor os = ⊥
  PagesFrom history (suc n) cursor os =
      (IsLast (history cursor).meta × (n ≡ 0) × (os ≡ (history cursor).data_))
      ⊎ ((next : String) × (rest : List OrderHistoryItem) × ((history cursor).meta.has_more ≡ true)
          × ((history cursor).meta.next_cursor ≡ some next)
          × (os ≡ (history cursor).data_ ++ rest)
          × PagesFrom history n next rest)

  -- A server that answers so, and a request that leaves the documents as they are.
  pub record Answers (history : History) : Type 0 where
    pub page :
        (cursor : String) (w : m.World)
        → (fetch_order_history_page m net day formats flags cursor w).0 ≡ ok (history cursor)
    pub keeps_view :
        (cursor : String) (w : m.World)
        → view m (fetch_order_history_page m net day formats flags cursor w).1 ≡ view m w
    pub keeps_seen :
        (cursor : String) (w : m.World)
        → seen m (fetch_order_history_page m net day formats flags cursor w).1 ≡ seen m w

  -- the counts with which the orders of the page of a cursor are taken up
  abbrev pub opened : History → String → Counts → Counts
  opened history cursor c = record c {
    pages = suc c.pages;
    fetched = c.fetched + length (history cursor).data_;
  }

  on_page_answered :
      (page : OrderHistoryPage) (c : Counts)
      (next : String → Counts → m.World → Outcome m net day formats flags)
      (t : Result OrderHistoryPage × m.World)
      → t.0 ≡ ok page
      → on_page m net day formats flags c next t
        ≡ on_counts m net day formats flags (following m net day formats flags page.meta) next (
            process_orders m day formats flags.dry_run page.data_
              (record c { pages = suc c.pages; fetched = c.fetched + length page.data_ })
              t.1)
  on_page_answered page c next (ok p, w) e = let same : p ≡ page = cc in rw same refl
  on_page_answered page c next (fail x, w) e = cc

  pub backfill_page :
      (history : History)
      → Answers history
      → (fuel : ℕ) (cursor : String) (c : Counts) (w : m.World)
      → backfill m net day formats flags (suc fuel) cursor c w
        ≡ on_counts m net day formats flags
            (next_of history cursor)
            (backfill m net day formats flags fuel)
            (process_orders m day formats flags.dry_run
              (history cursor).data_
              (opened history cursor c)
              (fetch_order_history_page m net day formats flags cursor w).1)
  unfolding backfill
  backfill_page history answers fuel cursor c w =
      on_page_answered (history cursor) c (backfill m net day formats flags fuel)
        (fetch_order_history_page m net day formats flags cursor w) (answers.page cursor w)

  on_counts-last :
      (t : Result Counts × m.World)
      (next : String → Counts → m.World → Outcome m net day formats flags)
      → on_counts m net day formats flags none next t ≡ some t
  on_counts-last (ok c, w) next = refl
  on_counts-last (fail e, w) next = refl

  -- What a page comes to, if the outcome of the rounds after it is known.
  page-Ends :
      (history : History)
      → Answers history
      → (n : ℕ) (cursor : String) (c : Counts) (w : m.World) (o : Option String)
        (t : Result Counts × m.World)
      → next_of history cursor ≡ o
      → process_orders m day formats flags.dry_run
          (history cursor).data_
          (opened history cursor c)
          (fetch_order_history_page m net day formats flags cursor w).1
        ≡ t
      → (out : Result Counts × m.World)
      → ((fuel : ℕ)
          → n ≤ fuel
          → on_counts m net day formats flags o (backfill m net day formats flags fuel) t
            ≡ some out)
      → (fuel : ℕ) → suc n ≤ fuel
      → backfill m net day formats flags fuel cursor c w ≡ some out
  page-Ends history answers n cursor c w o t next e out rest zero enough =
      absurd (omega (arith, enough))
  page-Ends history answers n cursor c w o t next e out rest (suc f) enough =
      backfill_page history answers f cursor c w
      ∙ ap₂ (λ x y. on_counts m net day formats flags x (backfill m net day formats flags f) y) next
          e
      ∙ rest f (omega (arith, enough))

  backfill-Ends :
      (history : History)
      → Answers history
      → (n : ℕ) (cursor : String) (os : List OrderHistoryItem) → PagesFrom history n cursor os
      → (c : Counts) (w : m.World)
      → (r : Result Counts) × (v : m.World) × ((fuel : ℕ)
          → n ≤ fuel
          → backfill m net day formats flags fuel cursor c w ≡ some (r, v))
  unfolding PagesFrom
  backfill-Ends history answers zero cursor os there c w = absurd there
  backfill-Ends history answers (suc n) cursor os (inl (last, _, _)) c w =
      let t =
        process_orders m day formats flags.dry_run (history cursor).data_ (opened history cursor c)
          (fetch_order_history_page m net day formats flags cursor w).1 in
      (
        t.0,
        t.1,
        page-Ends history answers n cursor c w none t (last-next_of history cursor last) refl t
            (λ fuel enough. on_counts-last t (backfill m net day formats flags fuel)),
      )
  backfill-Ends history answers (suc n) cursor os (inr (next, rest, more, named, _, others)) c w =
      go
        (process_orders m day formats flags.dry_run (history cursor).data_ (opened history cursor c)
          (fetch_order_history_page m net day formats flags cursor w).1)
        refl (λ d v. backfill-Ends history answers n next rest others d v)
    where
      onward : next_of history cursor ≡ some next
      onward = more-next_of history cursor next more named

      go :
          (t : Result Counts × m.World)
          → process_orders m day formats flags.dry_run
              (history cursor).data_
              (opened history cursor c)
              (fetch_order_history_page m net day formats flags cursor w).1
            ≡ t
          → ((d : Counts) (v : m.World)
              → (r : Result Counts) × (u : m.World) × ((fuel : ℕ)
                  → n ≤ fuel
                  → backfill m net day formats flags fuel next d v ≡ some (r, u)))
          → (r : Result Counts) × (v : m.World) × ((fuel : ℕ)
              → suc n ≤ fuel
              → backfill m net day formats flags fuel cursor c w ≡ some (r, v))
      go (fail x, v) e later = (
        fail x,
        v,
        page-Ends history answers n cursor c w (some next) _ onward e _ (λ fuel enough. refl),
      )
      go (ok d, v) e later =
          let (r, u, run) = later d v in
          (r, u, page-Ends history answers n cursor c w (some next) _ onward e _ run)

  -- With the server's answers the loop over the pages ends: when the server's cursors lead in `n` pages
  -- from this one to a page that says that no other follows, or that has no cursor, `n` rounds are enough
  -- for an outcome, and any greater number gives the same outcome.
  pub backfill_ends :
      (history : History)
      → Answers history
      → (n : ℕ) (cursor : String) (os : List OrderHistoryItem) → PagesFrom history n cursor os
      → (c : Counts) (w : m.World) (fuel : ℕ) → n ≤ fuel
      → (r : Result Counts) × (v : m.World) × (backfill m net day formats flags n cursor c w
          ≡ some (r, v))
        × (backfill m net day formats flags fuel cursor c w ≡ some (r, v))
  backfill_ends history answers n cursor os there c w fuel enough =
      let (r, v, run) = backfill-Ends history answers n cursor os there c w in
      (r, v, run n (omega arith), run fuel enough)
