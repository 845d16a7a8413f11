-- ===== src/Backfill/Dry.antt =====
-- A dry run.
use quick_bite_analytics_ser.Prelude.{
  ℕ, zero, suc, String, ◌≡◌, refl, sym, ap, ◌∙◌, true, Option, none, some, List, [], ◌∷◌,
}
use quick_bite_analytics_ser.Go.Effect.{Result, ok, fail}
use quick_bite_analytics_ser.Go.Time.{Time}
use quick_bite_analytics_ser.Mongo.Driver.{Mongo}
use quick_bite_analytics_ser.HttpClient.{Net}
use quick_bite_analytics_ser.Backfill.{
  OrderHistoryItem, OrderHistoryPage, Counts, Flags, Formats, Outcome, following, on_counts,
  on_page, process_order, process_orders, fetch_order_history_page, backfill,
}

module _ {J : Type 0} (m : Mongo) (net : Net m.World J) (day : Time → String) (formats : Formats)
    (flags : Flags) where
  process_orders_dry :
      (os : List OrderHistoryItem) (c : Counts) (w : m.World)
      → process_orders m day formats true os c w ≡ (ok c, w)
  unfolding process_orders process_order
  process_orders_dry [] c w = refl
  process_orders_dry (o ∷ os) c w = process_orders_dry os c w

  module _ {B : Type 0} (dry : flags.dry_run ≡ true) (f : m.World → B)
      (kept : (cursor : String) (w : m.World)
        → f (fetch_order_history_page m net day formats flags cursor w).1 ≡ f w) where
    on_counts_dry :
        (o : Option String) (next : String → Counts → m.World → Outcome m net day formats flags)
        (os : List OrderHistoryItem) (c : Counts) (w : m.World) (r : Result Counts) (w' : m.World)
        → ((cursor : String) → next cursor c w ≡ some (r, w') → f w' ≡ f w)
        → on_counts m net day formats flags o next
            (process_orders m day formats flags.dry_run os c w)
          ≡ some (r, w')
        → f w' ≡ f w
    on_counts_dry o next os c w r w' later run = go o later (
        ap (λ t. on_counts m net day formats flags o next t)
          (sym (ap (λ d. process_orders m day formats d os c w) dry ∙ process_orders_dry os c w))
        ∙ run)
      where
        go :
            (o : Option String)
            → ((cursor : String) → next cursor c w ≡ some (r, w') → f w' ≡ f w)
            → on_counts m net day formats flags o next (ok c, w) ≡ some (r, w')
            → f w' ≡ f w
        go none later e = cc
        go (some cursor) later e = later cursor e

    on_page_dry :
        (next : String → Counts → m.World → Outcome m net day formats flags) (c : Counts)
        (t : Result OrderHistoryPage × m.World) (r : Result Counts) (w' : m.World)
        → ((cursor : String) (d : Counts) → next cursor d t.1 ≡ some (r, w') → f w' ≡ f t.1)
        → on_page m net day formats flags c next t ≡ some (r, w')
        → f w' ≡ f t.1
    on_page_dry next c (ok page, w) r w' later run =
        on_counts_dry (following m net day formats flags page.meta) next page.data_ _ w r w'
          (λ cursor. later cursor _) run
    on_page_dry next c (fail e, w) r w' later run = cc

    -- Whatever the requests for the pages leave as it is, a dry run leaves as it is, whether it ends
    -- with a fatal error or not: it marks no order and applies none.
    pub backfill_dry :
        (fuel : ℕ) (cursor : String) (c : Counts) (w w' : m.World) (r : Result Counts)
        → backfill m net day formats flags fuel cursor c w ≡ some (r, w')
        → f w' ≡ f w
    unfolding backfill
    backfill_dry zero cursor c w w' r run = cc
    backfill_dry (suc fuel) cursor c w w' r run =
        on_page_dry (backfill m net day formats flags fuel) c
          (fetch_order_history_page m net day formats flags cursor w) r w'
          (λ next d later. backfill_dry fuel next d _ w' r later) run
        ∙ kept cursor w
