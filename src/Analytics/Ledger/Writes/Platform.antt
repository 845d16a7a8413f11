-- ===== src/Analytics/Ledger/Writes/Platform.antt =====
-- PlatformDayRepo, ProductDayRepo and OrderContextRepo.
use quick_bite_analytics_ser.Prelude.{
  ℤ, pos, ◌+ℤ◌, eqb_ℤ, String, ◌==◌, Bool, true, ◌&&◌, Option, some, List, [], ◌∷◌, ◌≡◌, refl,
  arith, if◌then◌else◌, +ℤ-zero,
}
use quick_bite_analytics_ser.Go.Effect.{ok}
use quick_bite_analytics_ser.Go.Time.{Time}
use quick_bite_analytics_ser.Mongo.Bson.{Doc, Value, datetime, keeps_key, as_int, field}
use quick_bite_analytics_ser.Mongo.Driver.{Mongo, MongoLaws}
use quick_bite_analytics_ser.Analytics.Types.{OrderPlacedItem}
use quick_bite_analytics_ser.Analytics.Ledger.{
  PlatformTotals, ProductTotals, placed_platform, delivered_platform, rejected_platform,
  paid_platform, at_platform, at_products, at_context, sold,
}
use quick_bite_analytics_ser.Analytics.Ledger.View.{
  view, Updates, platform_totals, product_totals, known,
}
use quick_bite_analytics_ser.Analytics.Ledger.View.Frames.{
  Ledger-path, row_cases, view-platform, view-products, view-contexts,
}
use quick_bite_analytics_ser.Analytics.Ledger.View.Rows.{After}
use quick_bite_analytics_ser.Analytics.Ledger.View.PlatformRows.{
  placed_platform_hit, delivered_platform_hit, rejected_platform_hit, paid_platform_hit,
  context_hit,
}
use quick_bite_analytics_ser.Analytics.Ledger.View.ProductRows.{
  quantity_batch_on, revenue_batch_on, inc_total-quantity, inc_total-revenue,
}
use quick_bite_analytics_ser.Analytics.Repository.Collections.{
  unique_index, coll_platform_day, coll_product_day, coll_order_context,
}
use quick_bite_analytics_ser.Analytics.Repository.PlatformDays.{platform_key, platform_update}
use quick_bite_analytics_ser.Analytics.Repository.PlatformDays
use quick_bite_analytics_ser.Analytics.Repository.ProductDays.{product_key, write_models}
use quick_bite_analytics_ser.Analytics.Repository.ProductDays
use quick_bite_analytics_ser.Analytics.Repository.OrderContexts.{context_key, context_update}
use quick_bite_analytics_ser.Analytics.Repository.OrderContexts
use quick_bite_analytics_ser.Analytics.Ledger.Writes.Days.{and_true}

one_and_true : (a : Bool) → (a && true) ≡ a
one_and_true a = ground arith

sold_none :
    (t : ProductTotals)
    → record { quantity_sum = t.quantity_sum +ℤ pos 0; revenue_sum = t.revenue_sum +ℤ pos 0 } ≡ t
sold_none t = ground (arith, +ℤ-zero t.quantity_sum, +ℤ-zero t.revenue_sum)

module _ (m : Mongo) (laws : MongoLaws unique_index m) where
  platform_upsert :
      (date currency : String) (inc : List (String × ℤ)) (g : PlatformTotals → PlatformTotals)
      → ((now : Value)
          → keeps_key (platform_key date currency) (platform_update date currency inc now) ≡ true)
      → ((now : Value) (o o' : Option Doc)
          → After (platform_key date currency) (platform_update date currency inc now) o o'
          → platform_totals o' ≡ g (platform_totals o))
      → Updates m (PlatformDays.upsert m date currency inc) (at_platform date currency g)
  unfolding PlatformDays.upsert view at_platform
  platform_upsert date currency inc g keeps hit = record {
    at = λ w h.
        let now = datetime (m.stored_time (m.now w)) in
        view-platform m w _ _ (λ c f off. laws.update_elsewhere coll_platform_day c _ f _ w off)
          λ d c.
            row_cases m laws platform_totals g coll_platform_day (platform_key date currency)
              (platform_key d c) _ (date == d && currency == c) w refl (keeps now)
              (and_true (date == d) (currency == c)) h (λ o o' _. hit now o o');
  }

  pub platform_placed-Updates :
      (date currency : String) (total : ℤ)
      → Updates m
          (PlatformDays.apply_order_placed m date currency total)
          (at_platform date currency (placed_platform total))
  unfolding PlatformDays.apply_order_placed
  platform_placed-Updates date currency total =
      platform_upsert _ _ _ _ (λ _. refl) λ now o o'. placed_platform_hit _ _ now o o' _

  pub platform_delivered-Updates :
      (date currency : String) (ms : ℤ)
      → Updates m
          (PlatformDays.apply_order_delivered m date currency ms)
          (at_platform date currency (delivered_platform ms))
  unfolding PlatformDays.apply_order_delivered
  platform_delivered-Updates date currency ms =
      platform_upsert _ _ _ _ (λ _. refl) λ now o o'. delivered_platform_hit _ _ now o o' _

  pub platform_rejected-Updates :
      (date currency : String)
      → Updates m
          (PlatformDays.apply_order_rejected m date currency)
          (at_platform date currency rejected_platform)
  unfolding PlatformDays.apply_order_rejected
  platform_rejected-Updates date currency =
      platform_upsert _ _ _ _ (λ _. refl) λ now o o'. rejected_platform_hit _ _ now o o'

  pub platform_paid-Updates :
      (date currency : String) (amount : ℤ)
      → Updates m
          (PlatformDays.apply_payment_completed m date currency amount)
          (at_platform date currency (paid_platform amount))
  unfolding PlatformDays.apply_payment_completed
  platform_paid-Updates date currency amount =
      platform_upsert _ _ _ _ (λ _. refl) λ now o o'. paid_platform_hit _ _ now o o' _

  pub context_saved-Updates :
      (order_id currency : String) (placed_at : Time)
      → Updates m (OrderContexts.save m order_id currency placed_at) (
          at_context order_id (record { currency = currency; placed_at = m.stored_time placed_at }))
  unfolding OrderContexts.save view at_context
  context_saved-Updates order_id currency placed_at = record {
    at = λ w h.
        view-contexts m w _ _ (λ c f off. laws.update_elsewhere coll_order_context c _ f _ w off)
          λ o.
            row_cases m laws known
              (λ _. some (record { currency = currency; placed_at = m.stored_time placed_at }))
              coll_order_context (context_key order_id) (context_key o) _ (order_id == o) w refl
              refl (one_and_true (order_id == o)) h
              (λ d d' _. context_hit order_id currency _ _ d d');
  }

  product_row :
      (id : ℤ) (date currency : String) (now : Value) (items : List OrderPlacedItem) (w : m.World)
      (i p : ℤ) (d : String)
      → (m.bulk_write coll_product_day (write_models id date currency now items) w).0 ≡ ok tt
      → product_totals (
          m.point
            (m.bulk_write coll_product_day (write_models id date currency now items) w).1
            coll_product_day
            (product_key i p d))
        ≡ (if eqb_ℤ id i && date == d
            then sold p items (product_totals (m.point w coll_product_day (product_key i p d)))
            else product_totals (m.point w coll_product_day (product_key i p d)))
  product_row id date currency now items w i p d h =
      let models = write_models id date currency now items in
      let key = product_key i p d in
      ground (
        arith,
        laws.bulk_row coll_product_day key models w "quantity_sum"
            (quantity_batch_on id date currency now i p d items) h,
        laws.bulk_row coll_product_day key models w "revenue_sum"
            (revenue_batch_on id date currency now i p d items) h,
        inc_total-quantity id date currency now i p d items,
        inc_total-revenue id date currency now i p d items,
        +ℤ-zero (as_int (field "quantity_sum" (m.point w coll_product_day key))),
        +ℤ-zero (as_int (field "revenue_sum" (m.point w coll_product_day key))),
      )

  pub products_sold-Updates :
      (id : ℤ) (date currency : String) (items : List OrderPlacedItem)
      → Updates m
          (ProductDays.apply_order_placed_items m id date currency items)
          (at_products id date items)
  unfolding ProductDays.apply_order_placed_items at_products
  products_sold-Updates id date currency [] = record {
    at = λ w h.
        Ledger-path _ _ (λ i d. refl) (λ i d. refl)
          (λ i p d. ground (arith, sold_none ((view m w).product i p d))) (λ d c. refl) (λ o. refl);
  }
  products_sold-Updates id date currency (item ∷ items) = record {
    at = λ w h.
        let now = datetime (m.stored_time (m.now w)) in
        unfold view in
        view-products m w _ _ (λ c f off. laws.bulk_elsewhere coll_product_day c f _ w off)
          λ i p d. product_row id date currency now (item ∷ items) w i p d h;
  }
