-- ===== src/Tests/Failures.antt =====
-- A store that goes down between two writes, and one that never does.
use quick_bite_analytics_ser.Prelude.{pos, ◌+ℤ◌, false, [], ◌≡◌, refl}
use quick_bite_analytics_ser.Errors.{plain}
use quick_bite_analytics_ser.Go.Effect.{ok, fail}
use quick_bite_analytics_ser.Mongo.Driver.{Mongo}
use quick_bite_analytics_ser.Analytics.Ledger.View.{view}
use quick_bite_analytics_ser.Analytics.Types.{OnOrderPlacedInput}
use quick_bite_analytics_ser.Analytics.Repository.RestaurantDays
use quick_bite_analytics_ser.Analytics.Repository.BranchDays
use quick_bite_analytics_ser.Analytics.Repository.ProductDays
use quick_bite_analytics_ser.Analytics.Repository.PlatformDays
use quick_bite_analytics_ser.Analytics.Repository.OrderContexts
use quick_bite_analytics_ser.Analytics.Service.Writes.{on_order_placed}
use quick_bite_analytics_ser.Analytics.Service.Refinement.{serve}
use quick_bite_analytics_ser.Analytics.Service.Refinement.Spec.{placed, apply}
use quick_bite_analytics_ser.Analytics.Service.Failures.{on_order_placed-twice, counted}
use quick_bite_analytics_ser.Analytics.Service.Progress.{Writable, serve-apply}
use quick_bite_analytics_ser.Tests.Store.{Memory, memory, store_refusing}
use quick_bite_analytics_ser.Tests.Store.Writes.{store-MongoLaws, memory-MongoLaws}
use quick_bite_analytics_ser.Tests.Inputs.{day, empty, order}

-- the branch collection takes no write
abbrev failing : Memory
failing = record empty { down = "agg_branch_day" }

-- the store that the first attempt leaves, up again
abbrev later : Memory
later = record ((on_order_placed memory day order failing).1) { down = "" }

on_order_placed-twice_example :
    ((on_order_placed memory day order failing).0 ≡ fail (plain "no primary"))
    × (counted memory memory-MongoLaws day order (on_order_placed memory day order later).1
        ≡ counted memory memory-MongoLaws day order failing +ℤ pos 2)
unfolding on_order_placed RestaurantDays.apply_order_placed BranchDays.apply_order_placed
    ProductDays.apply_order_placed_items PlatformDays.apply_order_placed OrderContexts.save
    RestaurantDays.upsert BranchDays.upsert PlatformDays.upsert view ProductDays.write_models
on_order_placed-twice_example =
    on_order_placed-twice memory memory-MongoLaws day order failing later (plain "no primary") refl
      refl refl refl

abbrev steady : Mongo
steady = store_refusing (λ w c. false)

steady_up : Writable steady
steady_up = record { update_ok = λ c f u w. refl; bulk_ok = λ c x ws w. refl }

-- an order with no items
abbrev no_items : OnOrderPlacedInput
no_items = record order { items = [] }

serve-apply_example :
    ((serve steady day (placed no_items) empty).0 ≡ ok tt)
    × (view steady (serve steady day (placed no_items) empty).1
        ≡ apply (λ t. t) day (placed no_items) (view steady empty))
serve-apply_example =
    serve-apply steady steady_up day (store-MongoLaws (λ w c. false)) (placed no_items) empty tt
