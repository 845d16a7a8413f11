-- ===== src/Tests/Command.antt =====
-- The backfill command over two pages.
use quick_bite_analytics_ser.Prelude.{
  ℕ, pos, ◌+ℤ◌, eqb_ℤ, ◌==◌, ◌≡◌, refl, false, Option, none, some,
}
use quick_bite_analytics_ser.Go.Effect.{ok}
use quick_bite_analytics_ser.Go.Int64.{succ_int64}
use quick_bite_analytics_ser.HttpClient
use quick_bite_analytics_ser.Config
use quick_bite_analytics_ser.MongoClient
use quick_bite_analytics_ser.MongoClient.{MongoDriver}
use quick_bite_analytics_ser.Analytics.Repository.EventIds.{mark_seen}
use quick_bite_analytics_ser.Analytics.Repository.RestaurantDays
use quick_bite_analytics_ser.Analytics.Repository.BranchDays
use quick_bite_analytics_ser.Analytics.Repository.ProductDays
use quick_bite_analytics_ser.Analytics.Repository.PlatformDays
use quick_bite_analytics_ser.Analytics.Repository.OrderContexts
use quick_bite_analytics_ser.Analytics.Service.Writes.{on_order_placed}
use quick_bite_analytics_ser.Backfill.{
  place, finish_order, mark_order, process_order, process_orders, fetch_order_history_page,
  backfill,
}
use quick_bite_analytics_ser.Backfill.Command.{Arguments, prepare, command}
use quick_bite_analytics_ser.Backfill.Command.Completed.{Completed, command-Completed}
use quick_bite_analytics_ser.Tests.Store.{memory, Memory}
use quick_bite_analytics_ser.Tests.Inputs.{day, empty}
use quick_bite_analytics_ser.Tests.Boot.{configuration}
use quick_bite_analytics_ser.Tests.Backfill.{net, formats}

abbrev driver : MongoDriver Memory Unit Unit
driver = record {
  connect = λ timeout uri w. (ok tt, w);
  ping = λ timeout client w. (ok tt, w);
  database = λ client name. tt;
  disconnect = λ client w. (ok tt, record w { clock = pos 0 });
}

abbrev arguments : Arguments
arguments = record { region = "eg"; year = pos 2025; limit = pos 100; dry_run = false }

abbrev config : Config.Config
config = record configuration { order_service = record { base_url = ""; internal_api_key = "key" } }

abbrev outcome : Option (ℕ × Memory)
outcome =
    command memory net day formats driver (λ db a b w. (ok tt, w)) (ok config) 2 arguments empty

abbrev left : Option (ℕ × Memory) → Memory
left none = empty
left (some (status, w)) = w

command-Completed_example :
    (("eg" == "") ≡ false)
    × (eqb_ℤ (pos 2025) (pos 0) ≡ false)
    × ((cfg : Config.Config) × (ok config ≡ ok cfg)
        × ((cfg.order_service.internal_api_key == "") ≡ false)
        × Completed memory net day formats driver
            (λ db a b w. (ok tt, w))
            (ok config)
            2
            arguments
            cfg
            empty
            (left outcome))
unfolding command backfill process_orders process_order mark_order finish_order place mark_seen
    on_order_placed RestaurantDays.apply_order_placed BranchDays.apply_order_placed
    ProductDays.apply_order_placed_items PlatformDays.apply_order_placed OrderContexts.save
    RestaurantDays.upsert BranchDays.upsert PlatformDays.upsert ProductDays.write_models
    fetch_order_history_page HttpClient.do_request HttpClient.rounds HttpClient.round
    HttpClient.judge HttpClient.decoded ◌+ℤ◌ succ_int64 prepare MongoClient.connect
    HttpClient.new_client
command-Completed_example =
    command-Completed memory net day formats driver (λ db a b w. (ok tt, w)) (ok config) 2 arguments
      empty (left outcome) refl
