-- ===== src/Analytics/Ledger/Writes/Days.antt =====
-- RestaurantDayRepo and BranchDayRepo.
use quick_bite_analytics_ser.Prelude.{
  ℤ, eqb_ℤ, String, ◌==◌, Bool, true, ◌&&◌, Option, List, ◌≡◌, refl, arith,
}
use quick_bite_analytics_ser.Go.Time.{Time}
use quick_bite_analytics_ser.Mongo.Bson.{Doc, Value, datetime, keeps_key}
use quick_bite_analytics_ser.Mongo.Driver.{Mongo, MongoLaws}
use quick_bite_analytics_ser.Analytics.Types.{OnOrderPlacedInput}
use quick_bite_analytics_ser.Analytics.Ledger.{
  DayTotals, placed_day, delivered_day, rejected_day, at_restaurant, at_branch,
}
use quick_bite_analytics_ser.Analytics.Ledger.View.{view, Updates, day_totals}
use quick_bite_analytics_ser.Analytics.Ledger.View.Frames.{
  row_cases, view-restaurants, view-branches,
}
use quick_bite_analytics_ser.Analytics.Ledger.View.Rows.{
  After, Blank, placed_hit, delivered_hit, rejected_hit,
}
use quick_bite_analytics_ser.Analytics.Repository.Collections.{
  unique_index, coll_restaurant_day, coll_branch_day,
}
use quick_bite_analytics_ser.Analytics.Repository.RestaurantDays.{restaurant_key, restaurant_update}
use quick_bite_analytics_ser.Analytics.Repository.RestaurantDays
use quick_bite_analytics_ser.Analytics.Repository.BranchDays.{branch_key, branch_update}
use quick_bite_analytics_ser.Analytics.Repository.BranchDays

pub and_true : (a b : Bool) → (a && (b && true)) ≡ (a && b)
and_true a b = ground arith

restaurant-Blank : (id : ℤ) (date : String) → Blank (restaurant_key id date)
restaurant-Blank id date = (refl, (refl, (refl, (refl, (refl, (refl, tt))))))

branch-Blank : (id : ℤ) (date : String) → Blank (branch_key id date)
branch-Blank id date = (refl, (refl, (refl, (refl, (refl, (refl, tt))))))

module _ (m : Mongo) (laws : MongoLaws unique_index m) where
  restaurant_upsert :
      (id : ℤ) (date : String) (inc : List (String × ℤ)) (extra : Doc) (g : DayTotals → DayTotals)
      → ((now : Value)
          → keeps_key (restaurant_key id date) (restaurant_update id date inc extra now) ≡ true)
      → ((now : Value) (o o' : Option Doc)
          → After (restaurant_key id date) (restaurant_update id date inc extra now) o o'
          → day_totals o' ≡ g (day_totals o))
      → Updates m (RestaurantDays.upsert m id date inc extra) (at_restaurant id date g)
  unfolding RestaurantDays.upsert view at_restaurant
  restaurant_upsert id date inc extra g keeps hit = record {
    at = λ w h.
        view-restaurants m w _ _
          (λ c f off. laws.update_elsewhere coll_restaurant_day c _ f _ w off)
          λ j d.
            row_cases m laws day_totals g coll_restaurant_day (restaurant_key id date)
              (restaurant_key j d) _ (eqb_ℤ id j && date == d) w refl
              (keeps (datetime (m.stored_time (m.now w)))) (and_true (eqb_ℤ id j) (date == d)) h
              (λ o o' _. hit (datetime (m.stored_time (m.now w))) o o');
  }

  pub restaurant_placed-Updates :
      (day : Time → String) (input : OnOrderPlacedInput)
      → Updates m (RestaurantDays.apply_order_placed m day input) (
          at_restaurant input.restaurant_id
            (day input.placed_at)
            (placed_day input.currency input.total_minor))
  unfolding RestaurantDays.apply_order_placed
  restaurant_placed-Updates day input =
      restaurant_upsert _ _ _ _ _ (λ _. refl)
        λ now o o'.
          placed_hit (restaurant_key input.restaurant_id (day input.placed_at))
            (restaurant-Blank input.restaurant_id (day input.placed_at)) now o o' _ _

  pub restaurant_delivered-Updates :
      (id : ℤ) (date : String) (ms : ℤ)
      → Updates m
          (RestaurantDays.apply_order_delivered m id date ms)
          (at_restaurant id date (delivered_day ms))
  unfolding RestaurantDays.apply_order_delivered
  restaurant_delivered-Updates id date ms =
      restaurant_upsert _ _ _ _ _ (λ _. refl)
        λ now o o'. delivered_hit (restaurant_key id date) (restaurant-Blank id date) now o o' _

  pub restaurant_rejected-Updates :
      (id : ℤ) (date : String)
      → Updates m
          (RestaurantDays.apply_order_rejected m id date)
          (at_restaurant id date rejected_day)
  unfolding RestaurantDays.apply_order_rejected
  restaurant_rejected-Updates id date =
      restaurant_upsert _ _ _ _ _ (λ _. refl)
        λ now o o'. rejected_hit (restaurant_key id date) (restaurant-Blank id date) now o o'

  branch_upsert :
      (id : ℤ) (date : String) (inc : List (String × ℤ)) (extra : Doc) (g : DayTotals → DayTotals)
      → ((now : Value)
          → keeps_key (branch_key id date) (branch_update id date inc extra now) ≡ true)
      → ((now : Value) (o o' : Option Doc)
          → After (branch_key id date) (branch_update id date inc extra now) o o'
          → day_totals o' ≡ g (day_totals o))
      → Updates m (BranchDays.upsert m id date inc extra) (at_branch id date g)
  unfolding BranchDays.upsert view at_branch
  branch_upsert id date inc extra g keeps hit = record {
    at = λ w h.
        view-branches m w _ _ (λ c f off. laws.update_elsewhere coll_branch_day c _ f _ w off)
          λ j d.
            row_cases m laws day_totals g coll_branch_day (branch_key id date) (branch_key j d) _
              (eqb_ℤ id j && date == d) w refl (keeps (datetime (m.stored_time (m.now w))))
              (and_true (eqb_ℤ id j) (date == d)) h
              (λ o o' _. hit (datetime (m.stored_time (m.now w))) o o');
  }

  pub branch_placed-Updates :
      (id : ℤ) (date currency : String) (total : ℤ)
      → Updates m
          (BranchDays.apply_order_placed m id date currency total)
          (at_branch id date (placed_day currency total))
  unfolding BranchDays.apply_order_placed
  branch_placed-Updates id date currency total =
      branch_upsert _ _ _ _ _ (λ _. refl)
        λ now o o'. placed_hit (branch_key id date) (branch-Blank id date) now o o' _ _

  pub branch_delivered-Updates :
      (id : ℤ) (date : String) (ms : ℤ)
      → Updates m
          (BranchDays.apply_order_delivered m id date ms)
          (at_branch id date (delivered_day ms))
  unfolding BranchDays.apply_order_delivered
  branch_delivered-Updates id date ms =
      branch_upsert _ _ _ _ _ (λ _. refl)
        λ now o o'. delivered_hit (branch_key id date) (branch-Blank id date) now o o' _

  pub branch_rejected-Updates :
      (id : ℤ) (date : String)
      → Updates m (BranchDays.apply_order_rejected m id date) (at_branch id date rejected_day)
  unfolding BranchDays.apply_order_rejected
  branch_rejected-Updates id date =
      branch_upsert _ _ _ _ _ (λ _. refl)
        λ now o o'. rejected_hit (branch_key id date) (branch-Blank id date) now o o'
