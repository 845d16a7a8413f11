-- ===== src/Analytics/Service/Failures.antt =====
-- A failure between two writes of OnOrderPlaced.
use quick_bite_analytics_ser.Prelude.{
  ℤ, pos, ◌+ℤ◌, eqb_ℤ_iff, String, eq_refl, ◌≡◌, refl, ap, ◌∙◌, +ℤ_assoc,
}
use quick_bite_analytics_ser.Errors.{Error}
use quick_bite_analytics_ser.Go.Effect.{Eff, ok, fail}
use quick_bite_analytics_ser.Go.Time.{Time}
use quick_bite_analytics_ser.Mongo.Driver.{Mongo, MongoLaws}
use quick_bite_analytics_ser.Analytics.Types.{OnOrderPlacedInput}
use quick_bite_analytics_ser.Analytics.Ledger.{
  DayTotals, at_restaurant, at_branch, at_products, at_platform, at_context, placed_day,
}
use quick_bite_analytics_ser.Analytics.Ledger.View.{view, day_totals}
use quick_bite_analytics_ser.Analytics.Ledger.Writes.Days.{restaurant_placed-Updates}
use quick_bite_analytics_ser.Analytics.Repository.Collections.{
  unique_index, coll_branch_day, coll_restaurant_day,
}
use quick_bite_analytics_ser.Analytics.Repository.RestaurantDays
use quick_bite_analytics_ser.Analytics.Repository.BranchDays
use quick_bite_analytics_ser.Analytics.Service.Writes.{on_order_placed}
use quick_bite_analytics_ser.Analytics.Service.Refinement.{placed-refines}

module _ (m : Mongo) (laws : MongoLaws unique_index m) (day : Time → String) where
  abbrev totals : OnOrderPlacedInput → m.World → DayTotals
  totals input w = (view m w).restaurant input.restaurant_id (day input.placed_at)

  abbrev pub counted : OnOrderPlacedInput → m.World → ℤ
  counted input w = (totals input w).orders_count

  placed_day-hit :
      (input : OnOrderPlacedInput) (w w' : m.World)
      → ((i : ℤ) (d : String)
          → (view m w').restaurant i d
            ≡ (at_restaurant input.restaurant_id
                  (day input.placed_at)
                  (placed_day input.currency input.total_minor)
                  (view m w)).restaurant
                i d)
      → counted input w' ≡ counted input w +ℤ pos 1
  unfolding at_restaurant
  placed_day-hit input w w' same =
      ap (λ t. t.orders_count) (same input.restaurant_id (day input.placed_at))
      ∙ rw
          (
            (eqb_ℤ_iff input.restaurant_id input.restaurant_id).1 refl,
            eq_refl (day input.placed_at),
          )
          refl

  first_write :
      (input : OnOrderPlacedInput) (w : m.World)
      → (RestaurantDays.apply_order_placed m day input w).0 ≡ ok tt
      → counted input (RestaurantDays.apply_order_placed m day input w).1 ≡ counted input w +ℤ pos 1
  first_write input w done =
      placed_day-hit input w _
        (λ i d. ap (λ l. l.restaurant i d) ((restaurant_placed-Updates m laws day input).at w done))

  whole :
      (input : OnOrderPlacedInput) (w : m.World)
      → (on_order_placed m day input w).0 ≡ ok tt
      → counted input (on_order_placed m day input w).1 ≡ counted input w +ℤ pos 1
  unfolding at_branch at_products at_platform at_context
  whole input w done =
      placed_day-hit input w _
        (λ i d. ap (λ l. l.restaurant i d) ((placed-refines m laws day input).at w done))

  branch_write : OnOrderPlacedInput → Eff m.World Unit
  branch_write input =
      BranchDays.apply_order_placed m input.branch_id (day input.placed_at) input.currency
        input.total_minor

  stops :
      (input : OnOrderPlacedInput) (w : m.World) (e : Error)
      → (RestaurantDays.apply_order_placed m day input w).0 ≡ ok tt
      → (branch_write input (RestaurantDays.apply_order_placed m day input w).1).0 ≡ fail e
      → on_order_placed m day input w
        ≡ (fail e, (branch_write input (RestaurantDays.apply_order_placed m day input w).1).1)
  unfolding on_order_placed branch_write
  stops input w e first second = rw (first, second) refl

  branch_write-counted :
      (input : OnOrderPlacedInput) (w : m.World)
      → counted input (branch_write input w).1 ≡ counted input w
  unfolding branch_write BranchDays.apply_order_placed BranchDays.upsert view
  branch_write-counted input w =
      ap (λ o. (day_totals o).orders_count)
        (laws.update_elsewhere coll_branch_day coll_restaurant_day _ _ _ w refl)

  -- If OnOrderPlaced fails at its second write and the same order is handled again later, without an
  -- error and from the same totals, then the restaurant's day counts the order twice.
  pub on_order_placed-twice :
      (input : OnOrderPlacedInput) (w v : m.World) (e : Error)
      → (RestaurantDays.apply_order_placed m day input w).0 ≡ ok tt
      → (BranchDays.apply_order_placed m input.branch_id
          (day input.placed_at)
          input.currency
          input.total_minor
          (RestaurantDays.apply_order_placed m day input w).1).0
        ≡ fail e
      → view m v ≡ view m (on_order_placed m day input w).1
      → (on_order_placed m day input v).0 ≡ ok tt
      → ((on_order_placed m day input w).0 ≡ fail e)
        × (counted input (on_order_placed m day input v).1 ≡ counted input w +ℤ pos 2)
  unfolding branch_write ◌+ℤ◌
  on_order_placed-twice input w v e first second later again =
      let attempt = stops input w e first second in
      (
        ap (λ r. r.0) attempt,
        whole input v again
            ∙ ap
                (λ l.
                  (l.restaurant input.restaurant_id (day input.placed_at)).orders_count +ℤ pos 1)
                (later ∙ ap (λ r. view m r.1) attempt)
            ∙ ap (λ n. n +ℤ pos 1) (branch_write-counted input _ ∙ first_write input w first)
            ∙ +ℤ_assoc (counted input w) (pos 1) (pos 1),
      )
