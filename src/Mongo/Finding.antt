-- ===== src/Mongo/Finding.antt =====
-- What Find with a filter and a sort answers: the documents of the collection that match, in order.
use quick_bite_analytics_ser.Prelude.{
  ltb_ℤ, eqb_ℤ_iff, String, ◌==◌, eq_iff, ltb_text, ◌≡◌, refl, ap, Bool, true, false, ◌&&◌, ◌||◌,
  not, Option, none, some, List, [], ◌∷◌, All, Mem,
}
use quick_bite_analytics_ser.Go.Effect.{ok}
use quick_bite_analytics_ser.Mongo.Bson.{
  Doc, Value, int, text, datetime, Operand, equals, between, greater, Query, lookup, value_eq,
  as_text, covers, fields_are,
}
use quick_bite_analytics_ser.Mongo.Driver.{Mongo}

-- A bound compares with values of its own BSON type only.
abbrev pub meets : Operand → Option Value → Bool
meets o none = false
meets (equals v) (some w) = value_eq w v
meets (between from to) (some (text s)) = not (ltb_text s from) && not (ltb_text to s)
meets (greater n) (some (int i)) = ltb_ℤ n i
meets _ _ = false

abbrev pub matches : Query → Doc → Bool
matches [] d = true
matches ((k, o) ∷ q) d = meets o (lookup k d) && matches q d

-- `a` does not stand after `b` in the order of the text fields, the first of them first.
abbrev pub in_order : List String → Doc → Doc → Bool
in_order [] a b = true
in_order (k ∷ ks) a b =
    let s = as_text (lookup k a) in
    let t = as_text (lookup k b) in ltb_text s t || (s == t && in_order ks a b)

abbrev pub same_value : Option Value → Option Value → Bool
same_value none none = true
same_value (some v) (some w) = value_eq v w
same_value _ _ = false

abbrev pub differ : List String → Doc → Doc → Bool
differ [] a b = false
differ (k ∷ ks) a b = not (same_value (lookup k a) (lookup k b)) || differ ks a b

abbrev pub AllPairs {ℓ} : {A : Type ℓ} → (A → A → Type 0) → List A → Type ℓ
AllPairs R [] = Unit
AllPairs R (x ∷ xs) = All (R x) xs × AllPairs R xs

-- Documented behaviour of Find, with the unique indexes in place: each result matches the filter and
-- is the document of the collection with its values of the index, the results stand in the order
-- of the sort, no two have the same values of the index, and no document that matches is left out.
pub record Found (index : String → List String) (m : Mongo) (c : String) (q : Query)
    (order : List String) (w : m.World) (ds : List Doc) : Type 0 where
  pub matching : All (λ d. matches q d ≡ true) ds
  pub stored :
      All
        (λ d.
          (g : Doc) → fields_are g (index c) ≡ true → covers d g ≡ true → m.point w c g ≡ some d)
        ds
  pub sorted : AllPairs (λ a b. (in_order order a b ≡ true) × (differ (index c) a b ≡ true)) ds
  pub complete :
      (g d : Doc)
      → fields_are g (index c) ≡ true
      → m.point w c g ≡ some d
      → (covers d g ≡ true) × (matches q d ≡ true → Mem d ds)

pub record Finds (index : String → List String) (m : Mongo) (c : String) (q : Query)
    (order : List String) (w : m.World) : Type 0 where
  pub at : (ds : List Doc) → m.find c q order w ≡ ok ds → Found index m c q order w ds

pub value_eq_sound : (a b : Value) → value_eq a b ≡ true → a ≡ b
value_eq_sound (int a) (int b) h = ap int ((eqb_ℤ_iff a b).0 h)
value_eq_sound (text s) (text t) h = ap text ((eq_iff s t).0 h)
value_eq_sound (datetime a) (datetime b) h = ap datetime ((eqb_ℤ_iff a b).0 h)
value_eq_sound (int a) (text t) h = cc
value_eq_sound (int a) (datetime t) h = cc
value_eq_sound (text a) (int t) h = cc
value_eq_sound (text a) (datetime t) h = cc
value_eq_sound (datetime a) (int t) h = cc
value_eq_sound (datetime a) (text t) h = cc

pub value_eq_refl : (a : Value) → value_eq a a ≡ true
value_eq_refl (int a) = (eqb_ℤ_iff a a).1 refl
value_eq_refl (text s) = (eq_iff s s).1 refl
value_eq_refl (datetime a) = (eqb_ℤ_iff a a).1 refl
