-- ===== src/Analytics/Ledger/View/Frames.antt =====
-- The fields of the ledger and the collections behind them.
use quick_bite_analytics_ser.Prelude.{
  ℤ, String, ◌==◌, Bool, true, false, Option, ◌≡◌, refl, ap, if◌then◌else◌,
}
use quick_bite_analytics_ser.Go.Effect.{ok}
use quick_bite_analytics_ser.Mongo.Bson.{Doc, Update, keeps_key, key_eq, same_fields}
use quick_bite_analytics_ser.Mongo.Driver.{Mongo, MongoLaws}
use quick_bite_analytics_ser.Analytics.Ledger.{
  Ledger, DayTotals, ProductTotals, PlatformTotals, Known,
}
use quick_bite_analytics_ser.Analytics.Ledger.View.{
  view, day_totals, product_totals, platform_totals, known,
}
use quick_bite_analytics_ser.Analytics.Ledger.View.Rows.{After}
use quick_bite_analytics_ser.Analytics.Repository.Collections.{
  unique_index, coll_restaurant_day, coll_branch_day, coll_product_day, coll_platform_day,
  coll_order_context, coll_event_ids,
}
use quick_bite_analytics_ser.Analytics.Repository.RestaurantDays.{restaurant_key}
use quick_bite_analytics_ser.Analytics.Repository.BranchDays.{branch_key}
use quick_bite_analytics_ser.Analytics.Repository.ProductDays.{product_key}
use quick_bite_analytics_ser.Analytics.Repository.PlatformDays.{platform_key}
use quick_bite_analytics_ser.Analytics.Repository.OrderContexts.{context_key}

pub Ledger-path :
    (a b : Ledger)
    → ((i : ℤ) (d : String) → a.restaurant i d ≡ b.restaurant i d)
    → ((i : ℤ) (d : String) → a.branch i d ≡ b.branch i d)
    → ((i p : ℤ) (d : String) → a.product i p d ≡ b.product i p d)
    → ((d c : String) → a.platform d c ≡ b.platform d c)
    → ((o : String) → a.context o ≡ b.context o)
    → a ≡ b
Ledger-path a b r s t u v = λ i. record {
  restaurant = λ j d. r j d i;
  branch = λ j d. s j d i;
  product = λ j p d. t j p d i;
  platform = λ d c. u d c i;
  context = λ o. v o i;
}

module _ (m : Mongo) (w w' : m.World) where
  -- No document of another collection changes.
  abbrev pub Only : String → Type 0
  Only c = (d : String) (g : Doc) → (c == d) ≡ false → m.point w' d g ≡ m.point w d g

  pub view-restaurants :
      (rows : ℤ → String → DayTotals)
      → Only coll_restaurant_day
      → ((i : ℤ) (d : String)
          → day_totals (m.point w' coll_restaurant_day (restaurant_key i d)) ≡ rows i d)
      → view m w' ≡ record (view m w) { restaurant = rows }
  unfolding view
  view-restaurants rows only row =
      Ledger-path _ _ row (λ i d. ap day_totals (only coll_branch_day (branch_key i d) refl))
        (λ i p d. ap product_totals (only coll_product_day (product_key i p d) refl))
        (λ d c. ap platform_totals (only coll_platform_day (platform_key d c) refl))
        (λ o. ap known (only coll_order_context (context_key o) refl))

  pub view-branches :
      (rows : ℤ → String → DayTotals)
      → Only coll_branch_day
      → ((i : ℤ) (d : String) → day_totals (m.point w' coll_branch_day (branch_key i d)) ≡ rows i d)
      → view m w' ≡ record (view m w) { branch = rows }
  unfolding view
  view-branches rows only row =
      Ledger-path _ _ (λ i d. ap day_totals (only coll_restaurant_day (restaurant_key i d) refl))
        row (λ i p d. ap product_totals (only coll_product_day (product_key i p d) refl))
        (λ d c. ap platform_totals (only coll_platform_day (platform_key d c) refl))
        (λ o. ap known (only coll_order_context (context_key o) refl))

  pub view-products :
      (rows : ℤ → ℤ → String → ProductTotals)
      → Only coll_product_day
      → ((i p : ℤ) (d : String)
          → product_totals (m.point w' coll_product_day (product_key i p d)) ≡ rows i p d)
      → view m w' ≡ record (view m w) { product = rows }
  unfolding view
  view-products rows only row =
      Ledger-path _ _ (λ i d. ap day_totals (only coll_restaurant_day (restaurant_key i d) refl))
        (λ i d. ap day_totals (only coll_branch_day (branch_key i d) refl)) row
        (λ d c. ap platform_totals (only coll_platform_day (platform_key d c) refl))
        (λ o. ap known (only coll_order_context (context_key o) refl))

  pub view-platform :
      (rows : String → String → PlatformTotals)
      → Only coll_platform_day
      → ((d c : String)
          → platform_totals (m.point w' coll_platform_day (platform_key d c)) ≡ rows d c)
      → view m w' ≡ record (view m w) { platform = rows }
  unfolding view
  view-platform rows only row =
      Ledger-path _ _ (λ i d. ap day_totals (only coll_restaurant_day (restaurant_key i d) refl))
        (λ i d. ap day_totals (only coll_branch_day (branch_key i d) refl))
        (λ i p d. ap product_totals (only coll_product_day (product_key i p d) refl)) row
        (λ o. ap known (only coll_order_context (context_key o) refl))

  pub view-contexts :
      (rows : String → Option Known)
      → Only coll_order_context
      → ((o : String) → known (m.point w' coll_order_context (context_key o)) ≡ rows o)
      → view m w' ≡ record (view m w) { context = rows }
  unfolding view
  view-contexts rows only row =
      Ledger-path _ _ (λ i d. ap day_totals (only coll_restaurant_day (restaurant_key i d) refl))
        (λ i d. ap day_totals (only coll_branch_day (branch_key i d) refl))
        (λ i p d. ap product_totals (only coll_product_day (product_key i p d) refl))
        (λ d c. ap platform_totals (only coll_platform_day (platform_key d c) refl)) row

  -- The dedupe collection is no part of the ledger.
  pub view-event_ids : Only coll_event_ids → view m w' ≡ view m w
  unfolding view
  view-event_ids only =
      Ledger-path _ _ (λ i d. ap day_totals (only coll_restaurant_day (restaurant_key i d) refl))
        (λ i d. ap day_totals (only coll_branch_day (branch_key i d) refl))
        (λ i p d. ap product_totals (only coll_product_day (product_key i p d) refl))
        (λ d c. ap platform_totals (only coll_platform_day (platform_key d c) refl))
        (λ o. ap known (only coll_order_context (context_key o) refl))

module _ (m : Mongo) (laws : MongoLaws unique_index m) where
  -- A row is hit or missed by an upsert into its own collection.
  pub row_cases {κ} :
      {T : Type κ} (read : Option Doc → T) (g : T → T) (c : String) (f k : Doc) (u : Update)
      (hit : Bool) (w : m.World)
      → same_fields f k ≡ true
      → keeps_key f u ≡ true
      → key_eq f k ≡ hit
      → (m.update_one c f u w).0 ≡ ok tt
      → ((o o' : Option Doc) → hit ≡ true → After f u o o' → read o' ≡ g (read o))
      → read (m.point (m.update_one c f u w).1 c k)
        ≡ (if hit then g (read (m.point w c k)) else read (m.point w c k))
  row_cases read g c f k u true w same keeps e h after =
      after _ _ refl (λ x. laws.update_hit c f k u w x same keeps e h)
  row_cases read g c f k u false w same keeps e h after =
      ap read (laws.update_miss c f k u w same keeps e)
