-- ===== src/Analytics/Ledger/View.antt =====
-- The ledger that the documents hold, and how the writes of each repository change it.
pub mod Rows
pub mod PlatformRows
pub mod ProductRows
pub mod Frames
use quick_bite_analytics_ser.Prelude.{
  ℤ, String, Option, none, some, List, [], ◌∷◌, ◌≡◌, refl, fun_ext, ◌∙◌,
}
use quick_bite_analytics_ser.Go.Effect.{Result, ok, fail, Eff, ◌>>◌, ◌>>=◌, proceed, proceed-eq-ok}
use quick_bite_analytics_ser.Go.Time.{Time, zero_time}
use quick_bite_analytics_ser.Mongo.Bson.{
  Doc, Value, datetime, field, lookup, as_int, as_text, as_time,
}
use quick_bite_analytics_ser.Mongo.Driver.{Mongo}
use quick_bite_analytics_ser.Analytics.Ledger.{
  DayTotals, ProductTotals, PlatformTotals, Known, Ledger,
}
use quick_bite_analytics_ser.Analytics.Repository.Collections.{
  coll_restaurant_day, coll_branch_day, coll_product_day, coll_platform_day, coll_order_context,
}
use quick_bite_analytics_ser.Analytics.Repository.RestaurantDays.{restaurant_key}
use quick_bite_analytics_ser.Analytics.Repository.BranchDays.{branch_key}
use quick_bite_analytics_ser.Analytics.Repository.ProductDays.{product_key}
use quick_bite_analytics_ser.Analytics.Repository.PlatformDays.{platform_key}
use quick_bite_analytics_ser.Analytics.Repository.OrderContexts.{context_key}

abbrev pub day_totals : Option Doc → DayTotals
day_totals o = record {
  currency = as_text (field "currency" o);
  orders_count = as_int (field "orders_count" o);
  revenue_sum = as_int (field "revenue_sum" o);
  delivery_ms_sum = as_int (field "delivery_ms_sum" o);
  delivery_ms_count = as_int (field "delivery_ms_count" o);
  failed_count = as_int (field "failed_count" o);
}

abbrev pub product_totals : Option Doc → ProductTotals
product_totals o = record {
  quantity_sum = as_int (field "quantity_sum" o);
  revenue_sum = as_int (field "revenue_sum" o);
}

abbrev pub platform_totals : Option Doc → PlatformTotals
platform_totals o = record {
  orders_count = as_int (field "orders_count" o);
  revenue_sum = as_int (field "revenue_sum" o);
  delivery_ms_sum = as_int (field "delivery_ms_sum" o);
  delivery_ms_count = as_int (field "delivery_ms_count" o);
  failed_count = as_int (field "failed_count" o);
  online_payments_count = as_int (field "online_payments_count" o);
  online_payments_amount_sum = as_int (field "online_payments_amount_sum" o);
}

abbrev pub known : Option Doc → Option Known
known none = none
known (some d) = some (record {
  currency = as_text (lookup "currency" d);
  placed_at = as_time (lookup "placed_at" d);
})

module _ (m : Mongo) where
  unfoldable pub view : m.World → Ledger
  view w = record {
    restaurant = λ i d. day_totals (m.point w coll_restaurant_day (restaurant_key i d));
    branch = λ i d. day_totals (m.point w coll_branch_day (branch_key i d));
    product = λ i p d. product_totals (m.point w coll_product_day (product_key i p d));
    platform = λ d c. platform_totals (m.point w coll_platform_day (platform_key d c));
    context = λ o. known (m.point w coll_order_context (context_key o));
  }

-- When the action returns, it has changed the ledger by `f`.
pub record Updates (m : Mongo) (act : Eff m.World Unit) (f : Ledger → Ledger) : Type 0 where
  pub at : (w : m.World) → (act w).0 ≡ ok tt → view m (act w).1 ≡ f (view m w)
