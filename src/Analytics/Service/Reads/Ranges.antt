-- ===== src/Analytics/Service/Reads/Ranges.antt =====
-- The range check of the queries, and their effects.
use quick_bite_analytics_ser.Prelude.{
  ℤ, String, ltb_text, map, List, [], ◌∷◌, ◌≡◌, refl, ◌∙◌, Bool, true, false, if◌then◌else◌,
}
use quick_bite_analytics_ser.Go.Effect.{Eff, Result, ok, fail, throw, proceed, reads, return, ◌>>=◌}
use quick_bite_analytics_ser.Mongo.Driver.{Mongo}
use quick_bite_analytics_ser.Analytics.Types.{err_invalid_date_range}
use quick_bite_analytics_ser.Analytics.Repository.RestaurantDays
use quick_bite_analytics_ser.Analytics.Repository.BranchDays
use quick_bite_analytics_ser.Analytics.Repository.ProductDays
use quick_bite_analytics_ser.Analytics.Repository.PlatformDays
use quick_bite_analytics_ser.Analytics.Service.Reads.{
  Floats, in_range, get_restaurant_days, get_branch_days, get_product_days, get_restaurant_failures,
  get_restaurant_delivery_avg, get_active_restaurants, get_platform_days, get_platform_summary,
  restaurant_day_row, branch_day_row, product_day_row, failure_row, delivery_avg_row,
  platform_day_row, summary_row,
}
use quick_bite_analytics_ser.Analytics.Decode.{decode_all, decode_restaurant_day}
use quick_bite_analytics_ser.Analytics.Repository.Collections.{coll_restaurant_day}

module _ (m : Mongo) {F : Type 0} (floats : Floats F) where
  -- Each of the eight queries answers a range that ends before it starts with ErrInvalidDateRange,
  -- and changes nothing.
  inverted_range-rejected :
      (restaurant_id branch_id product_id : ℤ) (from to : String) (w : m.World)
      → ltb_text to from ≡ true
      → (get_restaurant_days m restaurant_id from to w ≡ (fail err_invalid_date_range, w))
        × (get_branch_days m branch_id from to w ≡ (fail err_invalid_date_range, w))
        × (get_product_days m branch_id product_id from to w ≡ (fail err_invalid_date_range, w))
        × (get_restaurant_failures m floats restaurant_id from to w
            ≡ (fail err_invalid_date_range, w))
        × (get_restaurant_delivery_avg m restaurant_id from to w ≡ (fail err_invalid_date_range, w))
        × (get_active_restaurants m from to w ≡ (fail err_invalid_date_range, w))
        × (get_platform_days m from to w ≡ (fail err_invalid_date_range, w))
        × (get_platform_summary m floats from to w ≡ (fail err_invalid_date_range, w))
  unfolding get_restaurant_days get_branch_days get_product_days get_restaurant_failures
      get_restaurant_delivery_avg get_active_restaurants get_platform_days get_platform_summary
  inverted_range-rejected restaurant_id branch_id product_id from to w inverted =
      rw inverted (refl, refl, refl, refl, refl, refl, refl, refl)

  -- A computation leaves the world as it is.
  abbrev pub OnlyReads : {A : Type 0} → Eff m.World A → Type 0
  OnlyReads act = (w : m.World) → (act w).1 ≡ w

  in_range-OnlyReads :
      {A : Type 0} (b : Bool) (act : Eff m.World A)
      → OnlyReads act
      → OnlyReads (if b then throw err_invalid_date_range else act)
  in_range-OnlyReads true act h w = refl
  in_range-OnlyReads false act h w = h w

  proceed-OnlyReads :
      {A B : Type 0} (r : Result A) (f : A → Eff m.World B)
      → ((a : A) → OnlyReads (f a))
      → OnlyReads (proceed r f)
  proceed-OnlyReads (ok a) f h w = h a w
  proceed-OnlyReads (fail e) f h w = refl

  decoded-OnlyReads :
      {A B : Type 0} (read : m.World → Result A) (decode : A → Result B)
      → OnlyReads (reads read >>= (λ docs. reads (λ _. decode docs)))
  decoded-OnlyReads read decode w =
      proceed-OnlyReads (read w) (λ docs. reads (λ _. decode docs)) (λ docs v. refl) w

  answer-OnlyReads :
      {A B : Type 0} (from to : String) (find : Eff m.World (List A)) (row : A → B)
      → OnlyReads find
      → OnlyReads (in_range from to (find >>= (λ rows. return (map row rows))))
  answer-OnlyReads from to find row h =
      in_range-OnlyReads (ltb_text to from) (find >>= (λ rows. return (map row rows))) (λ w.
        proceed-OnlyReads (find w).0 (λ rows. return (map row rows)) (λ rows v. refl) (find w).1
        ∙ h w)

  restaurant_days-OnlyReads :
      (id : ℤ) (from to : String) → OnlyReads (RestaurantDays.find_by_date_range m id from to)
  unfolding RestaurantDays.find_by_date_range
  restaurant_days-OnlyReads id from to =
      decoded-OnlyReads
        (m.find coll_restaurant_day (RestaurantDays.restaurant_range id from to) ("date" ∷ []))
        (decode_all (decode_restaurant_day m.decode_error))

  -- No query changes the database, whether it succeeds or fails.
  queries-OnlyReads :
      (restaurant_id branch_id product_id : ℤ) (from to : String)
      → OnlyReads (get_restaurant_days m restaurant_id from to)
        × OnlyReads (get_branch_days m branch_id from to)
        × OnlyReads (get_product_days m branch_id product_id from to)
        × OnlyReads (get_restaurant_failures m floats restaurant_id from to)
        × OnlyReads (get_restaurant_delivery_avg m restaurant_id from to)
        × OnlyReads (get_active_restaurants m from to)
        × OnlyReads (get_platform_days m from to)
        × OnlyReads (get_platform_summary m floats from to)
  unfolding get_restaurant_days get_branch_days get_product_days get_restaurant_failures
      get_restaurant_delivery_avg get_active_restaurants get_platform_days get_platform_summary
      RestaurantDays.find_by_date_range RestaurantDays.count_active_in_range
      BranchDays.find_by_date_range ProductDays.find_by_date_range PlatformDays.find_by_date_range
      PlatformDays.summary_by_currency
  queries-OnlyReads restaurant_id branch_id product_id from to = (
    answer-OnlyReads from to (RestaurantDays.find_by_date_range m restaurant_id from to)
        restaurant_day_row (restaurant_days-OnlyReads restaurant_id from to),
    answer-OnlyReads from to (BranchDays.find_by_date_range m branch_id from to) branch_day_row
        (decoded-OnlyReads _ _),
    answer-OnlyReads from to (ProductDays.find_by_date_range m branch_id product_id from to)
        product_day_row (decoded-OnlyReads _ _),
    answer-OnlyReads from to (RestaurantDays.find_by_date_range m restaurant_id from to)
        (failure_row floats) (restaurant_days-OnlyReads restaurant_id from to),
    answer-OnlyReads from to (RestaurantDays.find_by_date_range m restaurant_id from to)
        delivery_avg_row (restaurant_days-OnlyReads restaurant_id from to),
    in_range-OnlyReads (ltb_text to from) (RestaurantDays.count_active_in_range m from to)
        (decoded-OnlyReads _ _),
    answer-OnlyReads from to (PlatformDays.find_by_date_range m from to) platform_day_row
        (decoded-OnlyReads _ _),
    answer-OnlyReads from to (PlatformDays.summary_by_currency m from to) (summary_row floats)
        (decoded-OnlyReads _ _),
  )
