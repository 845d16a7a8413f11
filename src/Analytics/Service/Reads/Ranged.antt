-- ===== src/Analytics/Service/Reads/Ranged.antt =====
-- The documents that a filter on fixed fields and a range of dates takes, and their dates.
use quick_bite_analytics_ser.Prelude.{
  String, ◌==◌, eq_iff, ltb_text, ◌≡◌, refl, ap, Bool, true, false, ◌&&◌, ◌||◌, not, Option, none,
  some, List, [], ◌∷◌, ◌++◌, map, All, arith,
}
use quick_bite_analytics_ser.Mongo.Bson.{
  Doc, Value, int, text, datetime, equals, between, Query, lookup, value_eq, as_text, covers,
  fields_are,
}
use quick_bite_analytics_ser.Mongo.Finding.{
  meets, matches, in_order, same_value, differ, AllPairs, value_eq_sound, value_eq_refl,
}

abbrev pub Within : String → String → String → Type 0
Within from to date = (ltb_text date from ≡ false) × (ltb_text to date ≡ false)

-- The filter {fixed fields, date: {$gte: from, $lte: to}}.
abbrev pub each_equals : Doc → Query → Query
each_equals [] q = q
each_equals ((k, v) ∷ fixed) q = (k, equals v) ∷ each_equals fixed q

abbrev pub range_of : Doc → String → String → Query
range_of fixed from to = each_equals fixed (("date", between from to) ∷ [])

abbrev pub key_of : Doc → String → Doc
key_of fixed date = fixed ++ (("date", text date) ∷ [])

abbrev pub names : Doc → List String
names [] = "date" ∷ []
names ((k, v) ∷ fixed) = k ∷ names fixed

abbrev pub date_of : Doc → String
date_of d = as_text (lookup "date" d)

and_parts : (a b : Bool) → (a && b) ≡ true → (a ≡ true) × (b ≡ true)
and_parts true b h = (refl, h)
and_parts false b h = cc

meets-equals : (v : Value) (o : Option Value) → meets (equals v) o ≡ true → o ≡ some v
meets-equals v none h = cc
meets-equals v (some w) h = ap some (value_eq_sound w v h)

covers-cons :
    (k : String) (v : Value) (f d : Doc)
    → lookup k d ≡ some v
    → covers d f ≡ true
    → covers d ((k, v) ∷ f) ≡ true
covers-cons k v f d e h = rw (e, covers) (rw (value_eq_refl v) h)

covers-next :
    (o : Option Value) (v : Value) (b : Bool)
    → elim o [ some w ↦ value_eq w v && b | none ↦ false ] ≡ true
    → (o ≡ some v) × (b ≡ true)
covers-next none v b h = cc
covers-next (some w) v b h =
    let (same, rest) = and_parts (value_eq w v) b h in (ap some (value_eq_sound w v same), rest)

dated :
    (from to : String) (o : Option Value)
    → meets (between from to) o ≡ true
    → (o ≡ some (text (as_text o))) × Within from to (as_text o)
dated from to none h = cc
dated from to (some (int i)) h = cc
dated from to (some (datetime t)) h = cc
dated from to (some (text s)) h = ground arith

pub fields_are-key_of :
    (fixed : Doc) (date : String) → fields_are (key_of fixed date) (names fixed) ≡ true
fields_are-key_of [] date = refl
fields_are-key_of ((k, v) ∷ fixed) date = rw ((eq_iff k k).1 refl) (fields_are-key_of fixed date)

-- A document that the filter takes has the values of the key at its date.
pub covers-key_of :
    (fixed : Doc) (from to : String) (d : Doc)
    → matches (range_of fixed from to) d ≡ true
    → (covers d (key_of fixed (date_of d)) ≡ true) × Within from to (date_of d)
covers-key_of [] from to d h =
    let (e, within) = dated from to (lookup "date" d) (and_parts _ _ h).0 in
    (covers-cons "date" (text (date_of d)) [] d e refl, within)
covers-key_of ((k, v) ∷ fixed) from to d h =
    let (here, there) = and_parts (meets (equals v) (lookup k d)) _ h in
    let (rest, within) = covers-key_of fixed from to d there in
    (covers-cons k v _ d (meets-equals v (lookup k d) here) rest, within)

-- A document with the values of the key at a date of the range is taken, and has this date.
pub matches-range_of :
    (fixed : Doc) (from to date : String) (d : Doc)
    → covers d (key_of fixed date) ≡ true
    → Within from to date
    → (matches (range_of fixed from to) d ≡ true) × (date_of d ≡ date)
matches-range_of [] from to date d h (from_, to_) =
    let e = (covers-next (lookup "date" d) (text date) true h).0 in
    rw (e) (rw (from_, to_) (refl, refl))
matches-range_of ((k, v) ∷ fixed) from to date d h within =
    let (here, there) = covers-next (lookup k d) v _ h in
    let (rest, same) = matches-range_of fixed from to date d there within in
    (rw here (rw (value_eq_refl v) rest), same)

apart :
    (s t : String) (x y : Option Value)
    → x ≡ some (text s)
    → y ≡ some (text t)
    → (ltb_text s t || (s == t && true)) ≡ true
    → (not (same_value x y) || false) ≡ true
    → ltb_text s t ≡ true
apart s t x y ex ey o different = ground arith

differs_later :
    (v : Value) (x y : Option Value) (b : Bool)
    → x ≡ some v
    → y ≡ some v
    → (not (same_value x y) || b) ≡ true
    → b ≡ true
differs_later v x y b ex ey = rw (ex, ey) (rw (value_eq_refl v) (λ h. h))

-- Two documents that the filter takes, in order by date and different in the index, have dates that
-- ascend.
ascends :
    (fixed : Doc) (from to : String) (a b : Doc)
    → matches (range_of fixed from to) a ≡ true
    → matches (range_of fixed from to) b ≡ true
    → in_order ("date" ∷ []) a b ≡ true
    → differ (names fixed) a b ≡ true
    → ltb_text (date_of a) (date_of b) ≡ true
ascends [] from to a b p q o different =
    let (x, _) = dated from to (lookup "date" a) (and_parts _ _ p).0 in
    let (y, _) = dated from to (lookup "date" b) (and_parts _ _ q).0 in
    apart (date_of a) (date_of b) (lookup "date" a) (lookup "date" b) x y o different
ascends ((k, v) ∷ fixed) from to a b p q o different =
    let (here, there) = and_parts (meets (equals v) (lookup k a)) _ p in
    let (here', there') = and_parts (meets (equals v) (lookup k b)) _ q in
    let x = meets-equals v (lookup k a) here in
    let y = meets-equals v (lookup k b) here' in
    ascends fixed from to a b there there' o
      (differs_later v (lookup k a) (lookup k b) _ x y different)

paired :
    (fixed : Doc) (from to : String) (a : Doc) (ds : List Doc)
    → matches (range_of fixed from to) a ≡ true
    → All (λ d. matches (range_of fixed from to) d ≡ true) ds
    → All (λ b. (in_order ("date" ∷ []) a b ≡ true) × (differ (names fixed) a b ≡ true)) ds
    → All (λ date. ltb_text (date_of a) date ≡ true) (map date_of ds)
paired fixed from to a [] p taken ordered = tt
paired fixed from to a (b ∷ ds) p (q, taken) ((o, different), ordered) =
    (ascends fixed from to a b p q o different, paired fixed from to a ds p taken ordered)

pub dates-ascend :
    (fixed : Doc) (from to : String) (ds : List Doc)
    → All (λ d. matches (range_of fixed from to) d ≡ true) ds
    → AllPairs (λ a b. (in_order ("date" ∷ []) a b ≡ true) × (differ (names fixed) a b ≡ true)) ds
    → AllPairs (λ a b. ltb_text a b ≡ true) (map date_of ds)
dates-ascend fixed from to [] taken ordered = tt
dates-ascend fixed from to (d ∷ ds) (p, taken) (first, ordered) =
    (paired fixed from to d ds p taken first, dates-ascend fixed from to ds taken ordered)

pub dates-Within :
    (fixed : Doc) (from to : String) (ds : List Doc)
    → All (λ d. matches (range_of fixed from to) d ≡ true) ds
    → All (Within from to) (map date_of ds)
dates-Within fixed from to [] taken = tt
dates-Within fixed from to (d ∷ ds) (p, taken) =
    ((covers-key_of fixed from to d p).1, dates-Within fixed from to ds taken)
