-- ===== src/Tests/Store/Found.antt =====
-- A collection of the store in memory that holds one document, which a query finds.
use quick_bite_analytics_ser.Prelude.{
  String, ◌==◌, eq_iff, ◌≡◌, refl, sym, ap₂, ◌∙◌, subst, Bool, true, false, ◌&&◌, Bool-cases, inl,
  inr, Option, none, some, List, [], ◌∷◌, if◌then◌else◌,
}
use mathlib.Core.List.{Mem, mem-cons_self}
use quick_bite_analytics_ser.Go.Effect.{ok}
use quick_bite_analytics_ser.Mongo.Bson.{Doc, Query, same_fields, key_eq, covers, fields_are}
use quick_bite_analytics_ser.Mongo.Finding.{Finds, Found, matches, value_eq_sound}
use quick_bite_analytics_ser.Analytics.Repository.Collections.{unique_index}
use quick_bite_analytics_ser.Tests.Store.{memory, Memory, new_in}
use quick_bite_analytics_ser.Tests.Store.Fields.{key_of_unique}

and_true : (a b : Bool) → (a && b) ≡ true → (a ≡ true) × (b ≡ true)
and_true true b h = (refl, h)
and_true false b h = cc

same_key : (f g : Doc) → same_fields f g ≡ true → key_eq f g ≡ true → f ≡ g
same_key [] [] p q = refl
same_key [] (x ∷ g) p q = cc
same_key (x ∷ f) [] p q = cc
same_key ((j, v) ∷ f) ((k, w) ∷ g) p q =
    let (name, p') = and_true (j == k) (same_fields f g) p in
    let (value, q') = and_true _ (key_eq f g) q in
    ap₂ ◌∷◌ (ap₂ (λ x y. (x, y)) ((eq_iff j k).0 name) (value_eq_sound v w value))
      (same_key f g p' q')

ok_injective : (x y : List Doc) → ok x ≡ ok y → x ≡ y
ok_injective x y e = cc

pub new_in-false : (o : Option Doc) (doc : Doc) → new_in false o doc ≡ o
new_in-false none doc = refl
new_in-false (some d) doc = refl

-- A collection with one document, which the query finds.
module _ (c : String) (q : Query) (order : List String) (f doc : Doc) (w : Memory)
    (found : w.found ≡ doc ∷ [])
    (alone : (g : Doc) → w.points c g ≡ (if same_fields f g && key_eq f g then some doc else none))
    (there : w.points c f ≡ some doc) (indexed : fields_are f (unique_index c) ≡ true)
    (covered : covers doc f ≡ true) (matched : matches q doc ≡ true) where
  one_key :
      (g : Doc)
      → fields_are g (unique_index c) ≡ true
      → covers doc g ≡ true
      → w.points c g ≡ some doc
  one_key g fs cs =
      let same =
        key_of_unique doc f (unique_index c) indexed covered
        ∙ sym (key_of_unique doc g (unique_index c) fs cs) in
      subst (λ x. w.points c x ≡ some doc) same there

  one_doc :
      (g d : Doc)
      → w.points c g ≡ some d
      → (covers d g ≡ true) × (matches q d ≡ true → Mem d (doc ∷ []))
  one_doc g d e = elim (Bool-cases (same_fields f g && key_eq f g)) [
    | inl hit ↦
        let (names, values) = and_true (same_fields f g) (key_eq f g) hit in
        let is : d ≡ doc = cc (e, alone g, hit) in
        let same : f ≡ g = same_key f g names values in
        (rw is (subst (λ k. covers doc k ≡ true) same covered), λ _. rw is mem-cons_self)
    | inr miss ↦ cc (e, alone g, miss)
  ]

  one_found : Found unique_index memory c q order w w.found
  one_found = rw found (record {
    matching = (matched, tt);
    stored = (one_key, tt);
    sorted = (tt, tt);
    complete = λ g d fs e. one_doc g d e;
  })

  pub Finds-one : Finds unique_index memory c q order w
  Finds-one = record {
    at = λ ds e.
        subst (λ xs. Found unique_index memory c q order w xs) (ok_injective _ _ e) one_found;
  }
