-- ===== src/Analytics/Repository/Indexes/Unique.antt =====
-- The unique indexes that EnsureIndexes leaves.
use quick_bite_analytics_ser.Prelude.{ℤ, String, ◌≡◌, refl, List, [], ◌∷◌, All}
use quick_bite_analytics_ser.Go.Effect.{Eff, Result, ok, fail, proceed}
use quick_bite_analytics_ser.Analytics.Repository.Collections.{
  coll_restaurant_day, coll_branch_day, coll_product_day, coll_platform_day, coll_order_context,
  coll_event_ids, unique_index,
}
use quick_bite_analytics_ser.Analytics.Repository.Indexes.{
  IndexModel, unique_model, index_models, create_all, ensure_indexes,
}

abbrev pub collections : List String
collections =
    coll_restaurant_day ∷ coll_branch_day ∷ coll_product_day ∷ coll_platform_day
    ∷ coll_order_context ∷ coll_event_ids ∷ []

module _ {W : Type 0} (create_many : String → List IndexModel → Eff W Unit)
    (Created : W → String → IndexModel → Type 0)
    (creates : (c : String) (models : List IndexModel) (w : W)
      → (create_many c models w).0 ≡ ok tt
      → All (Created (create_many c models w).1 c) models)
    (lasts : (c d : String) (models : List IndexModel) (x : IndexModel) (w : W)
      → Created w d x
      → Created (create_many c models w).1 d x) where
  proceed-lasts :
      (rest : List (String × List IndexModel)) (d : String) (x : IndexModel)
      → ((v : W) → Created v d x → Created (create_all create_many rest v).1 d x)
      → (r : Result (Unit {0})) (v : W) → Created v d x
      → Created (proceed r (λ _. create_all create_many rest) v).1 d x
  proceed-lasts rest d x later (ok a) v k = later v k
  proceed-lasts rest d x later (fail e) v k = k

  create_all-lasts :
      (list : List (String × List IndexModel)) (d : String) (x : IndexModel) (w : W)
      → Created w d x
      → Created (create_all create_many list w).1 d x
  unfolding create_all
  create_all-lasts [] d x w h = h
  create_all-lasts ((c, models) ∷ rest) d x w h =
      proceed-lasts rest d x (λ v. create_all-lasts rest d x v) (create_many c models w).0
        (create_many c models w).1 (lasts c d models x w h)

  All-later :
      (rest : List (String × List IndexModel)) (d : String) (models : List IndexModel) (v : W)
      → All (Created v d) models
      → All (Created (create_all create_many rest v).1 d) models
  All-later rest d [] v h = tt
  All-later rest d (x ∷ models) v (here, others) =
      (create_all-lasts rest d x v here, All-later rest d models v others)

  abbrev AllCreated : W → String × List IndexModel → Type 0
  AllCreated w (c, models) = All (Created w c) models

  create_all-AllCreated :
      (list : List (String × List IndexModel)) (w : W)
      → (create_all create_many list w).0 ≡ ok tt
      → All (AllCreated (create_all create_many list w).1) list
  unfolding create_all
  create_all-AllCreated [] w done = tt
  create_all-AllCreated ((c, models) ∷ rest) w done =
      go (create_many c models w).0 (create_many c models w).1 (λ first. creates c models w first)
        (λ v later. create_all-AllCreated rest v later) done
    where
      go :
          (r : Result (Unit {0})) (v : W)
          → (r ≡ ok tt → All (Created v c) models)
          → ((v : W)
              → (create_all create_many rest v).0 ≡ ok tt
              → All (AllCreated (create_all create_many rest v).1) rest)
          → (proceed r (λ _. create_all create_many rest) v).0 ≡ ok tt
          → All (AllCreated (proceed r (λ _. create_all create_many rest) v).1) ((c, models) ∷ rest)
      go (ok a) v first later h = (All-later rest c models v (first refl), later v h)
      go (fail e) v first later h = cc

  -- When EnsureIndexes returns no error, each of the six collections has a unique index on the keys that
  -- the repositories look their documents up by, which is what the writes rely on.
  pub ensure_indexes-unique_index :
      (int32_seconds : ℤ → ℤ) (event_dedupe_ttl order_context_ttl : ℤ) (w : W)
      → (ensure_indexes create_many int32_seconds event_dedupe_ttl order_context_ttl w).0 ≡ ok tt
      → All
          (λ c.
            (name : String) × Created
              (ensure_indexes create_many int32_seconds event_dedupe_ttl order_context_ttl w).1
              c
              (unique_model (unique_index c) name))
          collections
  unfolding ensure_indexes
  ensure_indexes-unique_index int32_seconds event_dedupe_ttl order_context_ttl w done =
      let (a, (b, (c, (d, (e, (f, _)))))) =
        create_all-AllCreated (index_models int32_seconds event_dedupe_ttl order_context_ttl) w
          done in
      ((_, a.0), ((_, b.0), ((_, c.0), ((_, d.0), ((_, e.0), ((_, f.0), tt))))))
