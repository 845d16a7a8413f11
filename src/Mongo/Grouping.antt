-- ===== src/Mongo/Grouping.antt =====
-- What $match, $group with sums, and $sort answer, against the documents that Find takes by the same
-- filter.
use quick_bite_analytics_ser.Prelude.{
  ℤ, pos, ◌+ℤ◌, String, ◌≡◌, ◌⊎◌, true, some, List, [], ◌∷◌, All, if◌then◌else◌,
}
use quick_bite_analytics_ser.Go.Effect.{ok}
use quick_bite_analytics_ser.Mongo.Bson.{
  Doc, Query, matching, grouping, sorting, lookup, as_int, int,
}
use quick_bite_analytics_ser.Mongo.Driver.{Mongo}
use quick_bite_analytics_ser.Mongo.Finding.{same_value}

abbrev pub Some {ℓ} : {A : Type ℓ} → (A → Type 0) → List A → Type 0
Some P [] = ⊥
Some P (x ∷ xs) = P x ⊎ Some P xs

-- The sum of the counter `f` over the documents that have the value of `r` at `k`.
abbrev pub group_total : String → String → Doc → List Doc → ℤ
group_total k f r [] = pos 0
group_total k f r (d ∷ ds) =
    (if same_value (lookup "_id" r) (lookup k d) then as_int (lookup f d) else pos 0)
    +ℤ group_total k f r ds

-- Documented behaviour of $group: one result for each value of the field, with the sums of its
-- documents.
pub record Grouped (k : String) (sums : List (String × String)) (ds rs : List Doc) : Type 0 where
  pub summed : All (λ r. All (λ s. lookup s.0 r ≡ some (int (group_total k s.1 r ds))) sums) rs
  pub every : All (λ d. Some (λ r. same_value (lookup "_id" r) (lookup k d) ≡ true) rs) ds

pub record Groups (m : Mongo) (c : String) (q : Query) (k : String) (sums : List (String × String))
    (order by : List String) (w : m.World) : Type 0 where
  pub at :
      (ds rs : List Doc)
      → m.find c q order w ≡ ok ds
      → m.aggregate c (matching q ∷ grouping k sums ∷ sorting by ∷ []) w ≡ ok rs
      → Grouped k sums ds rs
