-- ===== src/Analytics/Service/Progress.antt =====
-- The service when no call of the database fails.
use quick_bite_analytics_ser.Prelude.{ℤ, String, ◌≡◌, refl, Option, none, some, List, [], ◌∷◌}
use quick_bite_analytics_ser.Go.Effect.{Eff, ok, ◌>>◌}
use quick_bite_analytics_ser.Go.Time.{Time}
use quick_bite_analytics_ser.Mongo.Bson.{Doc, Update, WriteModel}
use quick_bite_analytics_ser.Mongo.Driver.{Mongo, MongoLaws}
use quick_bite_analytics_ser.Analytics.Ledger.View.{view}
use quick_bite_analytics_ser.Analytics.Repository.Collections.{unique_index}
use quick_bite_analytics_ser.Analytics.Types.{
  OnOrderPlacedInput, OnOrderDeliveredInput, OnOrderRejectedInput, OrderPlacedItem,
}
use quick_bite_analytics_ser.Analytics.Entity.{OrderContext}
use quick_bite_analytics_ser.Analytics.Repository.RestaurantDays
use quick_bite_analytics_ser.Analytics.Repository.BranchDays
use quick_bite_analytics_ser.Analytics.Repository.ProductDays
use quick_bite_analytics_ser.Analytics.Repository.PlatformDays
use quick_bite_analytics_ser.Analytics.Repository.OrderContexts
use quick_bite_analytics_ser.Analytics.Service.Writes.{
  on_order_placed, deliver, on_order_delivered, reject_platform, on_order_rejected,
  on_payment_completed,
}
use quick_bite_analytics_ser.Analytics.Service.Refinement.{serve, serve-refines}
use quick_bite_analytics_ser.Analytics.Service.Refinement.Spec.{
  Event, placed, delivered, rejected, paid, apply,
}

-- No write of the database fails. BulkWrite of an empty list is left out: the driver refuses it.
pub record Writable (m : Mongo) : Type 0 where
  pub update_ok :
      (c : String) (f : Doc) (u : Update) (w : m.World) → (m.update_one c f u w).0 ≡ ok tt
  pub bulk_ok :
      (c : String) (x : WriteModel) (ws : List WriteModel) (w : m.World)
      → (m.bulk_write c (x ∷ ws) w).0 ≡ ok tt

module _ (m : Mongo) (up : Writable m) (day : Time → String) where
  abbrev Succeeds : Eff m.World Unit → Type 0
  Succeeds act = (w : m.World) → (act w).0 ≡ ok tt

  Succeeds-then : (a b : Eff m.World Unit) → Succeeds a → Succeeds b → Succeeds (a >> b)
  Succeeds-then a b sa sb w = rw (sa w) (sb (a w).1)

  products-Succeeds :
      (id : ℤ) (date currency : String) (items : List OrderPlacedItem)
      → Succeeds (ProductDays.apply_order_placed_items m id date currency items)
  unfolding ProductDays.apply_order_placed_items ProductDays.write_models
  products-Succeeds id date currency [] w = refl
  products-Succeeds id date currency (item ∷ items) w = up.bulk_ok _ _ _ w

  placed-Succeeds : (input : OnOrderPlacedInput) → Succeeds (on_order_placed m day input)
  unfolding on_order_placed RestaurantDays.apply_order_placed BranchDays.apply_order_placed
      PlatformDays.apply_order_placed OrderContexts.save RestaurantDays.upsert BranchDays.upsert
      PlatformDays.upsert
  placed-Succeeds input =
      Succeeds-then _ _ (λ w. up.update_ok _ _ _ w)
        (Succeeds-then _ _ (λ w. up.update_ok _ _ _ w)
          (Succeeds-then _ _ (products-Succeeds _ _ _ _)
            (Succeeds-then _ _ (λ w. up.update_ok _ _ _ w) (λ w. up.update_ok _ _ _ w))))

  deliver-Succeeds :
      (input : OnOrderDeliveredInput) (found : Option OrderContext)
      → Succeeds (deliver m day input found)
  unfolding deliver RestaurantDays.apply_order_delivered BranchDays.apply_order_delivered
      PlatformDays.apply_order_delivered RestaurantDays.upsert BranchDays.upsert PlatformDays.upsert
  deliver-Succeeds input none = λ w. refl
  deliver-Succeeds input (some order_ctx) =
      Succeeds-then _ _ (λ w. up.update_ok _ _ _ w)
        (Succeeds-then _ _ (λ w. up.update_ok _ _ _ w) (λ w. up.update_ok _ _ _ w))

  reject-Succeeds :
      (date : String) (found : Option OrderContext) → Succeeds (reject_platform m day date found)
  unfolding reject_platform PlatformDays.apply_order_rejected PlatformDays.upsert
  reject-Succeeds date none = λ w. refl
  reject-Succeeds date (some order_ctx) = λ w. up.update_ok _ _ _ w

  -- the world in which OnOrderRejected looks up the context
  abbrev rejections : OnOrderRejectedInput → m.World → m.World
  rejections input w =
      let date = day input.occurred_at in
      (BranchDays.apply_order_rejected m input.branch_id date
        (RestaurantDays.apply_order_rejected m input.restaurant_id date w).1).1

  -- The lookup of the order's context, where the event needs it, does not fail.
  abbrev pub ContextRead : Event → m.World → Type 0
  ContextRead (placed input) w = Unit
  ContextRead (delivered input) w =
      (found : Option OrderContext) × ((OrderContexts.find m input.order_id w).0 ≡ ok found)
  ContextRead (rejected input) w =
      (found : Option OrderContext) × ((OrderContexts.find m input.order_id (rejections input w)).0
        ≡ ok found)
  ContextRead (paid input) w = Unit

  serve-ok : (e : Event) (w : m.World) → ContextRead e w → (serve m day e w).0 ≡ ok tt
  unfolding serve on_order_delivered on_order_rejected on_payment_completed
      RestaurantDays.apply_order_rejected BranchDays.apply_order_rejected
      PlatformDays.apply_payment_completed RestaurantDays.upsert BranchDays.upsert
      PlatformDays.upsert
  serve-ok (placed input) w read = placed-Succeeds input w
  serve-ok (delivered input) w (found, read) = rw read (deliver-Succeeds input found _)
  serve-ok (rejected input) w (found, read) =
      rw (up.update_ok _ _ _ w) (rw (up.update_ok _ _ _ _) (rw read (reject-Succeeds _ found _)))
  serve-ok (paid input) w read = up.update_ok _ _ _ w

  -- When no write of the database fails, and the lookup of the order's context does not fail where
  -- there is one, the service handles any event without an error, and the documents hold the ledger
  -- of before with the event applied. An order with no items is one of these events, though the
  -- driver may refuse a batch with no write.
  pub serve-apply :
      (laws : MongoLaws unique_index m) (e : Event) (w : m.World)
      → ContextRead e w
      → ((serve m day e w).0 ≡ ok tt)
        × (view m (serve m day e w).1 ≡ apply m.stored_time day e (view m w))
  serve-apply laws e w read =
      let done = serve-ok e w read in (done, (serve-refines m laws day e).at w done)
