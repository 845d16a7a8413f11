-- ===== src/Analytics/Service/Frames.antt =====
-- The service methods and the record of events.
use quick_bite_analytics_ser.Prelude.{
  ℤ, String, ◌==◌, ◌≡◌, refl, ◌∙◌, false, Option, none, some, List, [], ◌∷◌,
}
use quick_bite_analytics_ser.Go.Effect.{Result, ok, fail, Eff, return, reads, ◌>>=◌, proceed}
use quick_bite_analytics_ser.Go.Time.{Time}
use quick_bite_analytics_ser.Mongo.Bson.{Doc, Update}
use quick_bite_analytics_ser.Mongo.Driver.{Mongo, MongoLaws}
use quick_bite_analytics_ser.Analytics.Types.{
  OrderPlacedItem, OnOrderPlacedInput, OnOrderDeliveredInput, OnOrderRejectedInput,
  OnPaymentCompletedInput,
}
use quick_bite_analytics_ser.Analytics.Entity.{OrderContext}
use quick_bite_analytics_ser.Analytics.Repository.Collections.{
  unique_index, coll_event_ids, coll_product_day, coll_order_context,
}
use quick_bite_analytics_ser.Analytics.Repository.RestaurantDays
use quick_bite_analytics_ser.Analytics.Repository.BranchDays
use quick_bite_analytics_ser.Analytics.Repository.ProductDays
use quick_bite_analytics_ser.Analytics.Repository.PlatformDays
use quick_bite_analytics_ser.Analytics.Repository.OrderContexts
use quick_bite_analytics_ser.Analytics.Service.Writes.{
  on_order_placed, deliver, on_order_delivered, reject_platform, on_order_rejected,
  on_payment_completed,
}

pub record Leaves (m : Mongo) {A : Type 0} (act : Eff m.World A) : Type 0 where
  pub at : (w : m.World) (g : Doc) → m.point (act w).1 coll_event_ids g ≡ m.point w coll_event_ids g

module _ (m : Mongo) where
  pub Leaves-reads : {A : Type 0} (f : m.World → Result A) → Leaves m (reads f)
  Leaves-reads f = record { at = λ w g. refl }

  pub Leaves-return : {A : Type 0} (a : A) → Leaves m (return a)
  Leaves-return a = record { at = λ w g. refl }

  proceed-Leaves :
      {A B : Type 0} (r : Result A) (k : A → Eff m.World B) (w : m.World) (g : Doc)
      → ((a : A) → Leaves m (k a))
      → m.point (proceed r k w).1 coll_event_ids g ≡ m.point w coll_event_ids g
  proceed-Leaves (ok a) k w g lk = (lk a).at w g
  proceed-Leaves (fail e) k w g lk = refl

  pub Leaves-bind :
      {A B : Type 0} (act : Eff m.World A) (k : A → Eff m.World B)
      → Leaves m act
      → ((a : A) → Leaves m (k a))
      → Leaves m (act >>= k)
  Leaves-bind act k la lk = record {
    at = λ w g. proceed-Leaves (act w).0 k (act w).1 g lk ∙ la.at w g;
  }

module _ (m : Mongo) (laws : MongoLaws unique_index m) where
  Leaves-upsert :
      (c : String) (f : Doc) (u : m.World → Update)
      → (c == coll_event_ids) ≡ false
      → Leaves m (λ w. m.update_one c f (u w) w)
  Leaves-upsert c f u off = record {
    at = λ w g. laws.update_elsewhere c coll_event_ids f g (u w) w off;
  }

  Leaves-products :
      (id : ℤ) (date currency : String) (items : List OrderPlacedItem)
      → Leaves m (ProductDays.apply_order_placed_items m id date currency items)
  unfolding ProductDays.apply_order_placed_items
  Leaves-products id date currency [] = Leaves-return m tt
  Leaves-products id date currency (item ∷ items) = record {
    at = λ w g. laws.bulk_elsewhere coll_product_day coll_event_ids g _ w refl;
  }

  pub placed-Leaves :
      (day : Time → String) (input : OnOrderPlacedInput) → Leaves m (on_order_placed m day input)
  unfolding on_order_placed RestaurantDays.apply_order_placed BranchDays.apply_order_placed
      PlatformDays.apply_order_placed OrderContexts.save
  placed-Leaves day input = Leaves-bind m _ _ (Leaves-upsert _ _ _ refl) λ _.
      Leaves-bind m _ _ (Leaves-upsert _ _ _ refl) λ _.
        Leaves-bind m _ _ (Leaves-products _ _ _ _)
          λ _. Leaves-bind m _ _ (Leaves-upsert _ _ _ refl) λ _. Leaves-upsert _ _ _ refl

  deliver-Leaves :
      (day : Time → String) (input : OnOrderDeliveredInput) (found : Option OrderContext)
      → Leaves m (deliver m day input found)
  unfolding deliver RestaurantDays.apply_order_delivered BranchDays.apply_order_delivered
      PlatformDays.apply_order_delivered
  deliver-Leaves day input none = Leaves-return m tt
  deliver-Leaves day input (some ctx) =
      Leaves-bind m _ _ (Leaves-upsert _ _ _ refl)
        λ _. Leaves-bind m _ _ (Leaves-upsert _ _ _ refl) λ _. Leaves-upsert _ _ _ refl

  find-Leaves : (id : String) → Leaves m (OrderContexts.find m id)
  unfolding OrderContexts.find
  find-Leaves id =
      Leaves-bind m (reads (m.find_one coll_order_context (OrderContexts.context_key id))) _
        (Leaves-reads m _) λ o. Leaves-reads m (λ _. OrderContexts.decode_found m o)

  pub delivered-Leaves :
      (day : Time → String) (input : OnOrderDeliveredInput)
      → Leaves m (on_order_delivered m day input)
  unfolding on_order_delivered
  delivered-Leaves day input =
      Leaves-bind m _ _ (find-Leaves input.order_id) (deliver-Leaves day input)

  reject-Leaves :
      (day : Time → String) (date : String) (found : Option OrderContext)
      → Leaves m (reject_platform m day date found)
  unfolding reject_platform PlatformDays.apply_order_rejected
  reject-Leaves day date none = Leaves-return m tt
  reject-Leaves day date (some ctx) = Leaves-upsert _ _ _ refl

  pub rejected-Leaves :
      (day : Time → String) (input : OnOrderRejectedInput)
      → Leaves m (on_order_rejected m day input)
  unfolding on_order_rejected RestaurantDays.apply_order_rejected BranchDays.apply_order_rejected
  rejected-Leaves day input = Leaves-bind m _ _ (Leaves-upsert _ _ _ refl) λ _.
      Leaves-bind m _ _ (Leaves-upsert _ _ _ refl) λ _.
        Leaves-bind m _ _ (find-Leaves input.order_id) (reject-Leaves day (day input.occurred_at))

  pub paid-Leaves :
      (day : Time → String) (input : OnPaymentCompletedInput)
      → Leaves m (on_payment_completed m day input)
  unfolding on_payment_completed PlatformDays.apply_payment_completed
  paid-Leaves day input = Leaves-upsert _ _ _ refl
