-- ===== src/Tests/Store/Fields.antt =====
-- The fields of a document that an upsert leaves, and the key of a document.
use quick_bite_analytics_ser.Prelude.{
  ℤ, ◌+ℤ◌, String, ◌==◌, ◌≡◌, refl, ap, ap₂, ◌∙◌, Bool, true, false, ◌&&◌, Option, none, some, List,
  [], ◌∷◌, ◌++◌, Bool-cases, inl, inr, eq_iff, eq_refl, subst,
}
use quick_bite_analytics_ser.Mongo.Finding.{value_eq_sound, value_eq_refl}
use quick_bite_analytics_ser.Mongo.Bson.{
  Doc, Update, Value, int, lookup, or_else, as_int, field, same_fields, key_eq, covers, fields_are,
  value_eq, updated, incremented, kept,
}
use quick_bite_analytics_ser.Tests.Store.{raised, base, upserted, key_of}

lookup-append : (k : String) (d e : Doc) → lookup k (d ++ e) ≡ or_else (lookup k d) (lookup k e)
lookup-append k [] e = refl
lookup-append k ((j, v) ∷ d) e = elim (Bool-cases (j == k)) [
  | inl hit ↦ rw hit refl
  | inr miss ↦ rw miss (lookup-append k d e)
]

lookup-raised :
    (k : String) (inc : List (String × ℤ)) (old : Option Doc)
    → lookup k (raised inc old) ≡ incremented (lookup k inc) (field k old)
lookup-raised k [] old = refl
lookup-raised k ((j, n) ∷ inc) old = elim (Bool-cases (j == k)) [
  | inl hit ↦ rw hit (ap (λ i. some (int (as_int (field i old) +ℤ n))) ((eq_iff j k).0 hit))
  | inr miss ↦ rw miss (lookup-raised k inc old)
]

lookup-base :
    (k : String) (f : Doc) (u : Update) (old : Option Doc)
    → lookup k (base f u old) ≡ kept f u k old
lookup-base k f u none = lookup-append k u.set_on_insert f
lookup-base k f u (some d) = refl

pub lookup-upserted :
    (k : String) (f : Doc) (u : Update) (old : Option Doc)
    → lookup k (upserted f u old) ≡ updated f u k old
lookup-upserted k f u old =
    lookup-append k (raised u.inc old) (u.set ++ base f u old)
    ∙ ap₂ or_else (lookup-raised k u.inc old) (
        lookup-append k u.set (base f u old)
        ∙ ap (or_else (lookup k u.set)) (lookup-base k f u old))

and_true : (a b : Bool) → (a && b) ≡ true → (a ≡ true) × (b ≡ true)
and_true true b h = (refl, h)
and_true false b h = cc

pub same_fields_refl : (f : Doc) → same_fields f f ≡ true
same_fields_refl [] = refl
same_fields_refl ((j, v) ∷ f) = rw (eq_refl j) (same_fields_refl f)

pub key_eq_refl : (f : Doc) → key_eq f f ≡ true
key_eq_refl [] = refl
key_eq_refl ((j, v) ∷ f) = rw (value_eq_refl v) (key_eq_refl f)

covers-next :
    (o : Option Value) (v : Value) (b : Bool)
    → elim o [ some w ↦ value_eq w v && b | none ↦ false ] ≡ true
    → (o ≡ some v) × (b ≡ true)
covers-next none v b h = cc
covers-next (some w) v b h =
    let (same, rest) = and_true (value_eq w v) b h in (ap some (value_eq_sound w v same), rest)

-- A document has one key for an index.
pub key_of_unique :
    (doc f : Doc) (xs : List String)
    → fields_are f xs ≡ true
    → covers doc f ≡ true
    → f ≡ key_of doc xs
key_of_unique doc [] [] fs cs = refl
key_of_unique doc [] (x ∷ xs) fs cs = cc
key_of_unique doc ((k, v) ∷ f) [] fs cs = cc
key_of_unique doc ((k, v) ∷ f) (x ∷ xs) fs cs =
    let (at, fs') = and_true (k == x) (fields_are f xs) fs in
    let (found, cs') = covers-next (lookup k doc) v (covers doc f) cs in
    subst (λ y. ((k, v) ∷ f) ≡ key_of doc (y ∷ xs)) ((eq_iff k x).0 at)
      (rw (found, key_of) (ap (λ g. (k, v) ∷ g) (key_of_unique doc f xs fs' cs')))
