-- ===== src/Analytics/Ledger/View/ProductRows.antt =====
-- The batch of ProductDayRepo.ApplyOrderPlacedItems and the totals of a product.
use quick_bite_analytics_ser.Prelude.{
  ℤ, pos, eqb_ℤ, String, ◌==◌, true, ◌&&◌, List, [], ◌∷◌, ◌≡◌, refl, arith, if◌then◌else◌, +ℤ-zero,
}
use quick_bite_analytics_ser.Mongo.Bson.{Value, inc_total, batch_on}
use quick_bite_analytics_ser.Analytics.Types.{OrderPlacedItem}
use quick_bite_analytics_ser.Analytics.Ledger.{sold_quantity, sold_revenue}
use quick_bite_analytics_ser.Analytics.Repository.ProductDays.{product_key, write_models}

module _ (id : ℤ) (date currency : String) (now : Value) (i p : ℤ) (d : String) where
  pub quantity_batch_on :
      (items : List OrderPlacedItem)
      → batch_on "quantity_sum" (product_key i p d) (write_models id date currency now items) ≡ true
  unfolding write_models
  quantity_batch_on [] = refl
  quantity_batch_on (item ∷ items) = quantity_batch_on items

  pub revenue_batch_on :
      (items : List OrderPlacedItem)
      → batch_on "revenue_sum" (product_key i p d) (write_models id date currency now items) ≡ true
  unfolding write_models
  revenue_batch_on [] = refl
  revenue_batch_on (item ∷ items) = revenue_batch_on items

  pub inc_total-quantity :
      (items : List OrderPlacedItem)
      → inc_total "quantity_sum" (product_key i p d) (write_models id date currency now items)
        ≡ (if eqb_ℤ id i && date == d then sold_quantity p items else pos 0)
  unfolding write_models inc_total
  inc_total-quantity [] = ground arith
  inc_total-quantity (item ∷ items) = ground (arith, inc_total-quantity items, +ℤ-zero (pos 0))

  pub inc_total-revenue :
      (items : List OrderPlacedItem)
      → inc_total "revenue_sum" (product_key i p d) (write_models id date currency now items)
        ≡ (if eqb_ℤ id i && date == d then sold_revenue p items else pos 0)
  unfolding write_models inc_total
  inc_total-revenue [] = ground arith
  inc_total-revenue (item ∷ items) = ground (arith, inc_total-revenue items, +ℤ-zero (pos 0))
