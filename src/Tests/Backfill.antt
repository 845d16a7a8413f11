-- ===== src/Tests/Backfill.antt =====
-- A history of two pages with one order each, over the store in memory.
use quick_bite_analytics_ser.Prelude.{
  String, ◌==◌, ◌≡◌, ◌↔◌, refl, Bool, true, false, none, some, List, [], ◌∷◌, inl, inr, length, pos,
  arith, eqb, ◌+ℤ◌, ◌+◌, ap, Bool-cases, if◌then◌else◌,
}
use quick_bite_analytics_ser.Analytics.Ledger.View.{view}
use quick_bite_analytics_ser.Analytics.Repository.EventIds.{seen, mark_seen}
use quick_bite_analytics_ser.Analytics.Repository.RestaurantDays
use quick_bite_analytics_ser.Analytics.Repository.BranchDays
use quick_bite_analytics_ser.Analytics.Repository.ProductDays
use quick_bite_analytics_ser.Analytics.Repository.PlatformDays
use quick_bite_analytics_ser.Analytics.Repository.OrderContexts
use quick_bite_analytics_ser.Analytics.Ingest.{apply_all}
use quick_bite_analytics_ser.Analytics.Service.Writes.{on_order_placed}
use quick_bite_analytics_ser.Go.Effect.{Result, ok}
use quick_bite_analytics_ser.Go.Int64.{succ_int64}
use quick_bite_analytics_ser.HttpClient
use quick_bite_analytics_ser.HttpClient.{Net, response}
use quick_bite_analytics_ser.Backfill.{
  OrderHistoryItem, OrderHistoryPage, Counts, Flags, Formats, Outcome, process_orders,
  process_order, mark_order, finish_order, place, fetch_order_history_page, backfill, no_counts,
}
use quick_bite_analytics_ser.Backfill.Orders.{fresh_orders, handled}
use quick_bite_analytics_ser.Backfill.Runs.{process_orders-once, process_orders-again}
use quick_bite_analytics_ser.Backfill.Pages.{Answers, PagesFrom, backfill_ends}
use quick_bite_analytics_ser.Backfill.Whole.{backfill-once}
use quick_bite_analytics_ser.Backfill.Live.{payload_of, place-order_placed_handler}
use quick_bite_analytics_ser.Analytics.EventHandlers.{Wire, order_placed_handler}
use quick_bite_analytics_ser.Backfill.Dry.{backfill_dry}
use quick_bite_analytics_ser.Tests.Store.{Memory, memory}
use quick_bite_analytics_ser.Tests.Store.Writes.{memory-MongoLaws}
use quick_bite_analytics_ser.Tests.Inputs.{day, empty, wire}

abbrev item : String → OrderHistoryItem
item id = record {
  order_id = id;
  restaurant_id = pos 7;
  branch_id = pos 3;
  total = pos 1500;
  currency = "EGP";
  items = record { product_id = pos 5; quantity = pos 2; line_total = pos 1500 } ∷ [];
  placed_at = "10";
}

abbrev page_one : OrderHistoryPage
page_one = record {
  success = true;
  data_ = item "o1" ∷ [];
  meta = record { next_cursor = some "c"; has_more = true; count = pos 1 };
}

-- the last page, though it still has a cursor
abbrev page_two : OrderHistoryPage
page_two = record {
  success = true;
  data_ = item "o2" ∷ item "o1" ∷ [];
  meta = record { next_cursor = some "c"; has_more = false; count = pos 2 };
}

-- the query of the first page has no cursor
abbrev pub formats : Formats
formats = record {
  decimal = λ n. "1";
  encode = λ query. if eqb (length query) 5 then "first" else "next";
  unmarshal_page =
      λ s. ok (if s == "/api/internal/orders/history?first" then page_one else page_two);
  parse_time = λ s. ok (pos 10);
}

-- the server answers with the URL
abbrev pub net : Net Memory String
net = record {
  marshal = λ s. ok s;
  refused = λ method url. none;
  exchange = λ c out w. (response 200 out.url, w);
  wait = λ d w. (none, w);
}

abbrev flags : Bool → Flags
flags dry_run = record {
  region = "eg";
  year = pos 2025;
  limit = pos 100;
  dry_run = dry_run;
  base_url = "";
  internal_api_key = "key";
  http = record { timeout = pos 1; max_retries = pos 0; base_delay = pos 1 };
}

abbrev history : String → OrderHistoryPage
history cursor = if cursor == "" then page_one else page_two

fetched_from :
    (dry : Bool) (cursor : String) (w : Memory)
    → fetch_order_history_page memory net day formats (flags dry) cursor w
      ≡ (ok (history cursor), w)
unfolding fetch_order_history_page HttpClient.do_request HttpClient.rounds HttpClient.round
    HttpClient.judge HttpClient.decoded ◌+ℤ◌ succ_int64
fetched_from dry cursor w = elim (Bool-cases (cursor == "")) [
  | inl e ↦ rw e refl
  | inr e ↦ rw e refl
]

history-Answers : (dry : Bool) → Answers memory net day formats (flags dry) history
history-Answers dry = record {
  page = λ cursor w. ap (λ t. t.0) (fetched_from dry cursor w);
  keeps_view = λ cursor w. ap (λ t. view memory t.1) (fetched_from dry cursor w);
  keeps_seen = λ cursor w. ap (λ t. seen memory t.1) (fetched_from dry cursor w);
}

abbrev orders : List OrderHistoryItem
orders = item "o1" ∷ item "o2" ∷ item "o1" ∷ []

history-PagesFrom : (dry : Bool) → PagesFrom memory net day formats (flags dry) history 2 "" orders
unfolding PagesFrom
history-PagesFrom dry =
    inr ("c", item "o2" ∷ item "o1" ∷ [], refl, refl, refl, inl (inl refl, refl, refl))

abbrev taken : Counts
taken = record { pages = 0; fetched = 0; applied = 2; skipped_dup = 1; failed = 0 }

abbrev after : Memory
after = (process_orders memory day formats false orders no_counts empty).1

two_orders_applied_once :
    view memory after
    ≡ apply_all memory.stored_time day
        (fresh_orders formats (seen memory empty) orders)
        (view memory empty)
unfolding process_orders process_order mark_order finish_order place mark_seen on_order_placed
    RestaurantDays.apply_order_placed BranchDays.apply_order_placed
    ProductDays.apply_order_placed_items PlatformDays.apply_order_placed OrderContexts.save
    RestaurantDays.upsert BranchDays.upsert PlatformDays.upsert ProductDays.write_models
two_orders_applied_once =
    process_orders-once memory memory-MongoLaws day formats orders no_counts taken empty refl refl

abbrev skipped : Counts
skipped = record { pages = 0; fetched = 0; applied = 0; skipped_dup = 3; failed = 0 }

process_orders-again_example :
    (skipped.skipped_dup ≡ no_counts.skipped_dup + length orders)
    × (skipped.applied ≡ no_counts.applied)
    × (skipped.failed ≡ no_counts.failed)
    × (view memory (process_orders memory day formats false orders no_counts after).1
        ≡ view memory after)
unfolding process_orders process_order mark_order finish_order place mark_seen on_order_placed
    RestaurantDays.apply_order_placed BranchDays.apply_order_placed
    ProductDays.apply_order_placed_items PlatformDays.apply_order_placed OrderContexts.save
    RestaurantDays.upsert BranchDays.upsert PlatformDays.upsert ProductDays.write_models
process_orders-again_example =
    process_orders-again memory memory-MongoLaws day formats orders no_counts taken no_counts
      skipped empty refl refl refl

abbrev run : Bool → Outcome memory net day formats (flags false)
run dry = backfill memory net day formats (flags dry) 2 "" no_counts empty

abbrev world_of : Outcome memory net day formats (flags false) → Memory
world_of none = empty
world_of (some (r, w)) = w

backfill_ends_example :
    (r : Result Counts) × (v : Memory) × (backfill memory net day formats
        (flags false)
        2
        ""
        no_counts
        empty
      ≡ some (r, v))
    × (backfill memory net day formats (flags false) 9 "" no_counts empty ≡ some (r, v))
backfill_ends_example =
    backfill_ends memory net day formats (flags false) history (history-Answers false) 2 "" orders
      (history-PagesFrom false) no_counts empty 9 (omega arith)

abbrev counted : Counts
counted = record { pages = 2; fetched = 3; applied = 2; skipped_dup = 1; failed = 0 }

backfill-once_example :
    (counted.pages ≡ no_counts.pages + 2)
    × (counted.fetched ≡ no_counts.fetched + length orders)
    × (handled counted ≡ handled no_counts + length orders)
    × (view memory (world_of (run false))
        ≡ apply_all memory.stored_time day
            (fresh_orders formats (seen memory empty) orders)
            (view memory empty))
unfolding backfill fetch_order_history_page HttpClient.do_request HttpClient.rounds HttpClient.round
    HttpClient.judge HttpClient.decoded ◌+ℤ◌ succ_int64 process_orders process_order mark_order
    finish_order place mark_seen on_order_placed RestaurantDays.apply_order_placed
    BranchDays.apply_order_placed ProductDays.apply_order_placed_items
    PlatformDays.apply_order_placed OrderContexts.save RestaurantDays.upsert BranchDays.upsert
    PlatformDays.upsert ProductDays.write_models
backfill-once_example =
    backfill-once memory memory-MongoLaws net day formats (flags false) history
      (history-Answers false) refl 2 "" orders (history-PagesFrom false) no_counts counted empty
      (world_of (run false)) refl refl

abbrev read_only : Counts
read_only = record { pages = 2; fetched = 3; applied = 0; skipped_dup = 0; failed = 0 }

backfill_dry_example : view memory (world_of (run true)) ≡ view memory empty
unfolding backfill fetch_order_history_page HttpClient.do_request HttpClient.rounds HttpClient.round
    HttpClient.judge HttpClient.decoded ◌+ℤ◌ succ_int64 process_orders process_order mark_order
    finish_order place mark_seen on_order_placed RestaurantDays.apply_order_placed
    BranchDays.apply_order_placed ProductDays.apply_order_placed_items
    PlatformDays.apply_order_placed OrderContexts.save RestaurantDays.upsert BranchDays.upsert
    PlatformDays.upsert ProductDays.write_models
backfill_dry_example =
    backfill_dry memory net day formats (flags true) refl (view memory)
      (history-Answers true).keeps_view 2 "" no_counts empty (world_of (run true)) (ok read_only)
      refl

abbrev live_wire : Wire
live_wire = record wire {
  order_placed = λ s. ok (payload_of (item s));
  parse_time = λ s. ok (pos 10);
}

place-order_placed_handler_example :
    ((place memory day formats (item "o1") empty).1
      ≡ (order_placed_handler memory day live_wire "o1" empty).1)
    × (((place memory day formats (item "o1") empty).0 ≡ ok tt)
        ↔ ((order_placed_handler memory day live_wire "o1" empty).0 ≡ ok tt))
place-order_placed_handler_example =
    place-order_placed_handler memory day formats live_wire (item "o1") "o1" empty refl refl
