-- ===== src/Analytics/Repository/Indexes.antt =====
-- EnsureIndexes of app/analytics/repository/indexes.go. The driver's CreateMany is a parameter, and so
-- is int32(d.Seconds()), which goes through a float64.
pub mod Unique
use quick_bite_analytics_ser.Prelude.{
  ℤ, String, ◌≡◌, refl, ◌∙◌, Bool, true, false, Option, none, some, List, [], ◌∷◌, All,
  if◌then◌else◌,
}
use quick_bite_analytics_ser.Go.Effect.{Eff, Result, ok, fail, proceed, return, ◌>>=◌, ◌>>◌}
use quick_bite_analytics_ser.Analytics.Repository.Collections.{
  coll_restaurant_day, coll_branch_day, coll_product_day, coll_platform_day, coll_order_context,
  coll_event_ids, unique_index,
}

-- mongo.IndexModel: every key is ascending
pub record IndexModel : Type 0 where
  pub keys : List String
  pub unique : Bool
  pub expire_after_seconds : Option ℤ
  pub name : String

abbrev pub unique_model : List String → String → IndexModel
unique_model keys name = record {
  keys = keys;
  unique = true;
  expire_after_seconds = none;
  name = name;
}

abbrev pub ttl_model : String → ℤ → String → IndexModel
ttl_model key seconds name = record {
  keys = key ∷ [];
  unique = false;
  expire_after_seconds = some seconds;
  name = name;
}

module _ (int32_seconds : ℤ → ℤ) (event_dedupe_ttl order_context_ttl : ℤ) where
  abbrev pub index_models : List (String × List IndexModel)
  index_models =
      (
        coll_restaurant_day,
        unique_model ("restaurant_id" ∷ "date" ∷ []) "uq_restaurant_id_date"
            ∷ record {
              keys = "date" ∷ "restaurant_id" ∷ [];
              unique = false;
              expire_after_seconds = none;
              name = "idx_date_restaurant_id";
            }
            ∷ [],
      )
      ∷ (coll_branch_day, unique_model ("branch_id" ∷ "date" ∷ []) "uq_branch_id_date" ∷ [])
      ∷ (
        coll_product_day,
        unique_model ("branch_id" ∷ "product_id" ∷ "date" ∷ []) "uq_branch_id_product_id_date" ∷ [],
      )
      ∷ (coll_platform_day, unique_model ("date" ∷ "currency" ∷ []) "uq_date_currency" ∷ [])
      ∷ (
        coll_order_context,
        unique_model ("order_id" ∷ []) "uq_order_id"
            ∷ ttl_model "recorded_at" (int32_seconds order_context_ttl) "ttl_recorded_at"
            ∷ [],
      )
      ∷ (
        coll_event_ids,
        unique_model ("event_id" ∷ []) "uq_event_id"
            ∷ ttl_model "received_at" (int32_seconds event_dedupe_ttl) "ttl_received_at"
            ∷ [],
      )
      ∷ []

module _ {W : Type 0} (create_many : String → List IndexModel → Eff W Unit) where
  -- one collection after the other, up to the first error
  unfoldable pub create_all : List (String × List IndexModel) → Eff W Unit
  create_all [] = return tt
  create_all ((c, models) ∷ rest) = create_many c models >> create_all rest

  unfoldable pub ensure_indexes : (ℤ → ℤ) → ℤ → ℤ → Eff W Unit
  unfolding create_all
  ensure_indexes int32_seconds event_dedupe_ttl order_context_ttl =
      create_all (index_models int32_seconds event_dedupe_ttl order_context_ttl)
