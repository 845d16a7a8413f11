-- ===== src/Mongo/Bson.antt =====
-- The BSON documents, filters, updates and pipelines that the repositories build.
use quick_bite_analytics_ser.Prelude.{
  ℤ, pos, ◌+ℤ◌, eqb_ℤ, String, ◌==◌, Bool, true, false, ◌&&◌, not, Option, none, some, List, [],
  ◌∷◌, if◌then◌else◌,
}
use quick_bite_analytics_ser.Go.Time.{Time, zero_time}

pub data Value : Type 0 where
  int : ℤ → Value
  text : String → Value
  datetime : Time → Value

-- bson.D
abbrev pub Doc : Type 0
Doc = List (String × Value)

-- {field: v}, {field: {$gte: from, $lte: to}} and {field: {$gt: n}}
pub data Operand : Type 0 where
  equals : Value → Operand
  between : String → String → Operand
  greater : ℤ → Operand

abbrev pub Query : Type 0
Query = List (String × Operand)

-- {$inc, $set, $setOnInsert}
pub record Update : Type 0 where
  pub inc : List (String × ℤ)
  pub set : Doc
  pub set_on_insert : Doc

-- mongo.NewUpdateOneModel().SetFilter(filter).SetUpdate(update).SetUpsert(true)
pub record WriteModel : Type 0 where
  pub filter : Doc
  pub update : Update

-- $match, $group by a field with sums (the field that is made, the field that is summed), $sort
-- ascending, $count
pub data Stage : Type 0 where
  matching : Query → Stage
  grouping : String → List (String × String) → Stage
  sorting : List String → Stage
  counting : String → Stage

module _ {ℓ} {A : Type ℓ} where
  abbrev pub lookup : String → List (String × A) → Option A
  lookup k [] = none
  lookup k ((j, v) ∷ d) = if j == k then some v else lookup k d

  abbrev pub or_else : Option A → Option A → Option A
  or_else (some a) b = some a
  or_else none b = b

abbrev pub value_eq : Value → Value → Bool
value_eq (int a) (int b) = eqb_ℤ a b
value_eq (text s) (text t) = s == t
value_eq (datetime t) (datetime u) = eqb_ℤ t u
value_eq _ _ = false

-- The same fields, in order.
abbrev pub same_fields : Doc → Doc → Bool
same_fields [] [] = true
same_fields ((j, v) ∷ d) ((k, w) ∷ e) = (j == k) && same_fields d e
same_fields _ _ = false

-- The same values, of documents with the same fields.
abbrev pub key_eq : Doc → Doc → Bool
key_eq [] [] = true
key_eq ((j, v) ∷ d) ((k, w) ∷ e) = value_eq v w && key_eq d e
key_eq _ _ = false

-- The document has the fields of the key, with its values.
abbrev pub covers : Doc → Doc → Bool
covers doc [] = true
covers doc ((k, v) ∷ f) = elim (lookup k doc) [
  | some w ↦ value_eq w v && covers doc f
  | none ↦ false
]

-- The fields of a key are those of an index.
abbrev pub fields_are : Doc → List String → Bool
fields_are [] [] = true
fields_are ((k, v) ∷ f) (x ∷ xs) = (k == x) && fields_are f xs
fields_are _ _ = false

abbrev pub field : String → Option Doc → Option Value
field k none = none
field k (some d) = lookup k d

-- What a counter field reads as: a field that is not there counts from 0.
abbrev pub as_int : Option Value → ℤ
as_int (some (int n)) = n
as_int _ = pos 0

abbrev pub as_text : Option Value → String
as_text (some (text s)) = s
as_text _ = ""

abbrev pub as_time : Option Value → Time
as_time (some (datetime t)) = t
as_time _ = zero_time

abbrev pub has : {A : Type 0} → Option A → Bool
has none = false
has (some _) = true

-- No field of the key is written but on insert.
abbrev pub keeps_key : Doc → Update → Bool
keeps_key [] u = true
keeps_key ((k, v) ∷ f) u =
    not (has (lookup k u.inc)) && (not (has (lookup k u.set)) && keeps_key f u)

abbrev pub incremented : Option ℤ → Option Value → Option Value
incremented none old = none
incremented (some n) old = some (int (as_int old +ℤ n))

abbrev pub kept : Doc → Update → String → Option Doc → Option Value
kept f u k none = or_else (lookup k u.set_on_insert) (lookup k f)
kept f u k (some d) = lookup k d

-- A field of a document after an upsert with this filter, from the document before it.
abbrev pub updated : Doc → Update → String → Option Doc → Option Value
updated f u k old =
    or_else (incremented (lookup k u.inc) (field k old)) (or_else (lookup k u.set) (kept f u k old))

abbrev pub inc_of : String → Update → ℤ
inc_of k u = elim (lookup k u.inc) [ some n ↦ n | none ↦ pos 0 ]

-- What a batch adds to a counter of the document with this key.
unfoldable pub inc_total : String → Doc → List WriteModel → ℤ
inc_total k g [] = pos 0
inc_total k g (m ∷ ms) =
    (if key_eq m.filter g then inc_of k m.update else pos 0) +ℤ inc_total k g ms

-- Every write of a batch has a key with the fields of `g`, which it keeps, and increments the
-- counter `k`.
abbrev pub batch_on : String → Doc → List WriteModel → Bool
batch_on k g [] = true
batch_on k g (m ∷ ms) =
    (same_fields m.filter g && (keeps_key m.filter m.update && has (lookup k m.update.inc)))
    && batch_on k g ms
