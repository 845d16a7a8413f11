-- ===== src/Backfill.antt =====
-- cmd/backfill-aggs/main.go. The history of order-service is read over pkg/httpclient; the text of
-- the query, json.Unmarshal of a page and time.Parse are parameters. The log lines are left out.
-- The loop over the pages runs on fuel: `none` is a run that has not ended.
pub mod Orders
pub mod Runs
pub mod Pages
pub mod Whole
pub mod Dry
pub mod Live
pub mod Command
use quick_bite_analytics_ser.Prelude.{
  ℕ, zero, suc, ◌+◌, ltb, ℤ, eqb_ℤ, pos, String, ◌==◌, ◌<>◌, Bool, true, false, ◌||◌, Option, none,
  some, List, [], ◌∷◌, ◌++◌, map, length, if◌then◌else◌,
}
use quick_bite_analytics_ser.Errors.{Error, plain, wrapped}
use quick_bite_analytics_ser.Go.Effect.{Eff, Result, ok, fail, return, reads, ◌>>=◌}
use quick_bite_analytics_ser.Go.Time.{Time}
use quick_bite_analytics_ser.Mongo.Driver.{Mongo}
use quick_bite_analytics_ser.HttpClient
use quick_bite_analytics_ser.HttpClient.{Net, Request, do_request}
use quick_bite_analytics_ser.Analytics.Types.{OrderPlacedItem, OnOrderPlacedInput}
use quick_bite_analytics_ser.Analytics.Repository.EventIds.{mark_seen, unmark}
use quick_bite_analytics_ser.Analytics.Service.Writes.{on_order_placed}

pub record OrderHistoryLineItem : Type 0 where
  pub product_id : ℤ
  pub quantity : ℤ
  pub line_total : ℤ

pub record OrderHistoryItem : Type 0 where
  pub order_id : String
  pub restaurant_id : ℤ
  pub branch_id : ℤ
  pub total : ℤ
  pub currency : String
  pub items : List OrderHistoryLineItem
  pub placed_at : String

pub record OrderHistoryPageMeta : Type 0 where
  pub next_cursor : Option String
  pub has_more : Bool
  pub count : ℤ

pub record OrderHistoryPage : Type 0 where
  pub success : Bool
  pub data_ : List OrderHistoryItem
  pub meta : OrderHistoryPageMeta

-- pages, fetched, applied, skippedDup and failed
pub record Counts : Type 0 where
  pub pages : ℕ
  pub fetched : ℕ
  pub applied : ℕ
  pub skipped_dup : ℕ
  pub failed : ℕ

abbrev pub no_counts : Counts
no_counts = record { pages = 0; fetched = 0; applied = 0; skipped_dup = 0; failed = 0 }

abbrev pub exit_status : Result Counts → ℕ
exit_status (fail e) = 1
exit_status (ok c) = if ltb 0 c.failed then 1 else 0

-- the flags, and what the configuration gives
pub record Flags : Type 0 where
  pub region : String
  pub year : ℤ
  pub limit : ℤ
  pub dry_run : Bool
  pub base_url : String
  pub internal_api_key : String
  pub http : HttpClient.Client

-- What the command takes from libraries.
pub record Formats : Type 0 where
  -- fmt.Sprintf("%d", n), and url.Values.Encode
  pub decimal : ℤ → String
  pub encode : List (String × String) → String
  pub unmarshal_page : String → Result OrderHistoryPage
  -- time.Parse(time.RFC3339Nano, s)
  pub parse_time : String → Result Time

abbrev pub dedupe_key : OrderHistoryItem → String
dedupe_key o = "backfill:order.placed:" <> o.order_id

abbrev pub history_line : OrderHistoryLineItem → OrderPlacedItem
history_line it = record {
  product_id = it.product_id;
  quantity = it.quantity;
  line_total_minor = it.line_total;
}

abbrev pub history_input : OrderHistoryItem → Time → OnOrderPlacedInput
history_input o placed_at = record {
  order_id = o.order_id;
  restaurant_id = o.restaurant_id;
  branch_id = o.branch_id;
  currency = o.currency;
  total_minor = o.total;
  placed_at = placed_at;
  items = map history_line o.items;
}

module _ (m : Mongo) (day : Time → String) (formats : Formats) where
  -- time.Parse and OnOrderPlaced: an error of either is counted alike
  unfoldable pub place : OrderHistoryItem → Eff m.World Unit
  place o = do
    placed_at ← reads (λ _. formats.parse_time o.placed_at)
    on_order_placed m day (history_input o placed_at)

  unfoldable pub finish_order : OrderHistoryItem → Counts → Result (Unit {0}) → Eff m.World Counts
  finish_order o c (ok _) w = (ok (record c { applied = suc c.applied }), w)
  finish_order o c (fail e) w =
      (ok (record c { failed = suc c.failed }), (unmark m (dedupe_key o) w).1)

  -- after MarkSeen; an error of it is fatal
  unfoldable pub mark_order : OrderHistoryItem → Counts → Result Bool → Eff m.World Counts
  unfolding finish_order
  mark_order o c (fail e) w = (fail (wrapped "dedupe order %s: %w" (o.order_id ∷ []) e), w)
  mark_order o c (ok false) w = (ok (record c { skipped_dup = suc c.skipped_dup }), w)
  mark_order o c (ok true) w = let (placed, w') = place o w in finish_order o c placed w'

  unfoldable pub process_order : Bool → OrderHistoryItem → Counts → Eff m.World Counts
  unfolding mark_order
  process_order true o c w = (ok c, w)
  process_order false o c w =
      let (marked, w') = mark_seen m (dedupe_key o) w in mark_order o c marked w'

  unfoldable pub process_orders : Bool → List OrderHistoryItem → Counts → Eff m.World Counts
  unfolding process_order
  process_orders dry_run [] c = return c
  process_orders dry_run (o ∷ os) c =
      process_order dry_run o c >>= λ c'. process_orders dry_run os c'

module _ {J : Type 0} (m : Mongo) (net : Net m.World J) (day : Time → String) (formats : Formats)
    (flags : Flags) where
  abbrev pub history_query : String → List (String × String)
  history_query cursor =
      ("region", flags.region)
      ∷ ("year", formats.decimal flags.year)
      ∷ ("limit", formats.decimal flags.limit)
      ∷ ("sortBy", "createdAt")
      ∷ ("sortOrder", "asc")
      ∷ (if cursor == "" then [] else ("cursor", cursor) ∷ [])

  abbrev pub history_request : String → Request J
  history_request cursor = record {
    method = "GET";
    url =
        flags.base_url <> "/api/internal/orders/history?" <> formats.encode (history_query cursor);
    headers = ("api-key", flags.internal_api_key) ∷ [];
    body = none;
  }

  -- a page that an empty body left at its zero value has Success false
  abbrev pub page_of : Result (Option OrderHistoryPage) → Result OrderHistoryPage
  page_of (fail e) = fail e
  page_of (ok none) = fail (plain "order-service returned success=false")
  page_of (ok (some page)) =
      if page.success then ok page else fail (plain "order-service returned success=false")

  unfoldable pub fetch_order_history_page : String → Eff m.World OrderHistoryPage
  fetch_order_history_page cursor w =
      let (r, w') = do_request net flags.http formats.unmarshal_page (history_request cursor) w in
      (page_of r, w')

  abbrev pub Outcome : Type 0
  Outcome = Option (Result Counts × m.World)

  -- if !page.Meta.HasMore || page.Meta.NextCursor == nil { break }
  abbrev pub following : OrderHistoryPageMeta → Option String
  following meta = if meta.has_more then meta.next_cursor else none

  abbrev pub on_counts :
      Option String → (String → Counts → m.World → Outcome) → Result Counts × m.World → Outcome
  on_counts next_cursor next (fail e, w) = some (fail e, w)
  on_counts none next (ok c, w) = some (ok c, w)
  on_counts (some cursor) next (ok c, w) = next cursor c w

  abbrev pub on_page :
      Counts → (String → Counts → m.World → Outcome) → Result OrderHistoryPage × m.World → Outcome
  on_page c next (fail e, w) =
      some (fail (wrapped "fetch page %d: %w" (formats.decimal (pos (suc c.pages)) ∷ []) e), w)
  on_page c next (ok page, w) = on_counts (following page.meta) next (
      process_orders m day formats flags.dry_run page.data_
        (record c { pages = suc c.pages; fetched = c.fetched + length page.data_ }) w)

  -- the loop over the pages
  unfoldable pub backfill : ℕ → String → Counts → m.World → Outcome
  unfolding process_orders fetch_order_history_page
  backfill zero cursor c w = none
  backfill (suc fuel) cursor c w =
      on_page c (λ next_cursor c' w'. backfill fuel next_cursor c' w')
        (fetch_order_history_page cursor w)
