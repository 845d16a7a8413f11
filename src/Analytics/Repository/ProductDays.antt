-- ===== src/Analytics/Repository/ProductDays.antt =====
-- app/analytics/repository/product_day.repo.go
use quick_bite_analytics_ser.Prelude.{ℤ, String, List, [], ◌∷◌}
use quick_bite_analytics_ser.Go.Effect.{Eff, return, reads, ◌>>=◌}
use quick_bite_analytics_ser.Mongo.Bson.{
  Doc, Update, Value, int, text, datetime, Query, equals, between, WriteModel,
}
use quick_bite_analytics_ser.Mongo.Driver.{Mongo}
use quick_bite_analytics_ser.Analytics.Types.{OrderPlacedItem}
use quick_bite_analytics_ser.Analytics.Entity.{ProductDay}
use quick_bite_analytics_ser.Analytics.Decode.{decode_product_day, decode_all}
use quick_bite_analytics_ser.Analytics.Repository.Collections.{coll_product_day}

abbrev pub product_key : ℤ → ℤ → String → Doc
product_key branch_id product_id date =
    ("branch_id", int branch_id) ∷ ("product_id", int product_id) ∷ ("date", text date) ∷ []

abbrev pub product_update : ℤ → String → String → Value → OrderPlacedItem → Update
product_update branch_id date currency now item = record {
  inc = ("quantity_sum", item.quantity) ∷ ("revenue_sum", item.line_total_minor) ∷ [];
  set = ("currency", text currency) ∷ ("updated_at", now) ∷ [];
  set_on_insert = product_key branch_id item.product_id date;
}

-- the loop over the items of one order
unfoldable pub write_models : ℤ → String → String → Value → List OrderPlacedItem → List WriteModel
write_models branch_id date currency now [] = []
write_models branch_id date currency now (item ∷ items) =
    record {
      filter = product_key branch_id item.product_id date;
      update = product_update branch_id date currency now item;
    }
    ∷ write_models branch_id date currency now items

abbrev pub product_range : ℤ → ℤ → String → String → Query
product_range branch_id product_id from to =
    ("branch_id", equals (int branch_id))
    ∷ ("product_id", equals (int product_id))
    ∷ ("date", between from to)
    ∷ []

module _ (m : Mongo) where
  unfoldable pub apply_order_placed_items :
      ℤ → String → String → List OrderPlacedItem → Eff m.World Unit
  apply_order_placed_items branch_id date currency [] w = return tt w
  apply_order_placed_items branch_id date currency (item ∷ items) w =
      m.bulk_write coll_product_day
        (write_models branch_id date currency (datetime (m.stored_time (m.now w))) (item ∷ items)) w

  unfoldable pub find_by_date_range : ℤ → ℤ → String → String → Eff m.World (List ProductDay)
  find_by_date_range branch_id product_id from to = do
    docs ←
        reads (m.find coll_product_day (product_range branch_id product_id from to) ("date" ∷ []))
    reads (λ _. decode_all (decode_product_day m.decode_error) docs)
