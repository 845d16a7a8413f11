-- ===== src/Tests/Indexes.antt =====
-- A database that keeps a list of its indexes.
use quick_bite_analytics_ser.Prelude.{
  pos, String, ◌≡◌, refl, ◌⊎◌, inl, inr, ℤ, List, [], ◌∷◌, ◌++◌, All,
}
use quick_bite_analytics_ser.Go.Effect.{Eff, ok}
use quick_bite_analytics_ser.Analytics.Repository.Collections.{unique_index}
use quick_bite_analytics_ser.Analytics.Repository.Indexes.{
  IndexModel, unique_model, create_all, ensure_indexes,
}
use quick_bite_analytics_ser.Analytics.Repository.Indexes.Unique.{
  collections, ensure_indexes-unique_index,
}

abbrev named : String → List IndexModel → List (String × IndexModel)
named c [] = []
named c (x ∷ models) = (c, x) ∷ named c models

abbrev create_many : String → List IndexModel → Eff (List (String × IndexModel)) Unit
create_many c models w = (ok tt, named c models ++ w)

abbrev Created : List (String × IndexModel) → String → IndexModel → Type 0
Created [] c x = ⊥
Created ((d, y) ∷ w) c x = ((d ≡ c) × (y ≡ x)) ⊎ Created w c x

Created-append :
    (v w : List (String × IndexModel)) (c : String) (x : IndexModel)
    → Created w c x
    → Created (v ++ w) c x
Created-append [] w c x h = h
Created-append (p ∷ v) w c x h = inr (Created-append v w c x h)

Created-named :
    (c : String) (models : List IndexModel) (w : List (String × IndexModel))
    → All (Created (named c models ++ w) c) models
Created-named c [] w = tt
Created-named c (x ∷ models) w =
    (inl (refl, refl), more c x models models (Created-named c models w))
  where
    more :
        (c : String) (x : IndexModel) (models some_of : List IndexModel)
        → All (Created (named c models ++ w) c) some_of
        → All (Created ((c, x) ∷ (named c models ++ w)) c) some_of
    more c x models [] h = tt
    more c x models (y ∷ ys) (here, others) = (inr here, more c x models ys others)

seconds : ℤ → ℤ
seconds d = d

ensure_indexes-unique_index_example :
    All
      (λ c.
        (name : String) × Created
          (ensure_indexes create_many seconds (pos 604800) (pos 3888000) []).1
          c
          (unique_model (unique_index c) name))
      collections
unfolding ensure_indexes create_all
ensure_indexes-unique_index_example =
    ensure_indexes-unique_index create_many Created (λ c models w done. Created-named c models w)
      (λ c d models x w h. Created-append (named c models) w d x h) seconds (pos 604800)
      (pos 3888000) [] refl
