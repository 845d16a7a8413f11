-- ===== src/Tests/Store.antt =====
-- A store in memory.
pub mod Fields
pub mod Writes
pub mod Found
use quick_bite_analytics_ser.Prelude.{
  ℤ, ◌+ℤ◌, String, ◌==◌, Bool, true, false, ◌&&◌, Option, none, some, List, [], ◌∷◌, ◌++◌,
  if◌then◌else◌,
}
use quick_bite_analytics_ser.Errors.{Error, plain}
use quick_bite_analytics_ser.Go.Effect.{Eff, ok, fail}
use quick_bite_analytics_ser.Go.Time.{Time}
use quick_bite_analytics_ser.Mongo.Bson.{
  Doc, Update, WriteModel, Value, int, lookup, or_else, as_int, field, same_fields, key_eq, covers,
  fields_are, has,
}
use quick_bite_analytics_ser.Mongo.Driver.{Mongo, Insertion, inserted, duplicate_key}
use quick_bite_analytics_ser.Analytics.Repository.Collections.{unique_index}

abbrev pub Points : Type 0
Points = String → Doc → Option Doc

-- the clock, the documents by their keys, what a query and a pipeline find, and a collection that takes no update
pub record Memory : Type 0 where
  pub clock : Time
  pub points : Points
  pub found : List Doc
  pub grouped : List Doc
  pub down : String

abbrev pub raised : List (String × ℤ) → Option Doc → Doc
raised [] old = []
raised ((j, n) ∷ inc) old = (j, int (as_int (field j old) +ℤ n)) ∷ raised inc old

abbrev pub base : Doc → Update → Option Doc → Doc
base f u none = u.set_on_insert ++ f
base f u (some d) = d

abbrev pub upserted : Doc → Update → Option Doc → Doc
upserted f u old = raised u.inc old ++ (u.set ++ base f u old)

abbrev pub at_key : String → Doc → String → Doc → Bool
at_key c f d g = c == d && (same_fields f g && key_eq f g)

abbrev pub put : String → Doc → Update → Points → Points
put c f u p d g = if at_key c f d g then some (upserted f u (p d g)) else p d g

abbrev pub put_all : String → List WriteModel → Points → Points
put_all c [] p = p
put_all c (w ∷ ws) p = put_all c ws (put c w.filter w.update p)

abbrev pub key_of : Doc → List String → Doc
key_of doc [] = []
key_of doc (x ∷ xs) = elim (lookup x doc) [ some v ↦ (x, v) ∷ key_of doc xs | none ↦ key_of doc xs ]

abbrev pub new_in : Bool → Option Doc → Doc → Option Doc
new_in b (some e) doc = some e
new_in true none doc = some doc
new_in false none doc = none

abbrev pub new_at : String → Doc → Points → Points
new_at c doc p d g = new_in (c == d && (covers doc g && fields_are g (unique_index c))) (p d g) doc

abbrev pub drop_at : String → Doc → Points → Points
drop_at c f p d g = if at_key c f d g then none else p d g

abbrev pub insertion : Bool → Insertion
insertion true = duplicate_key
insertion false = inserted

abbrev pub updating : Bool → String → Doc → Update → Eff Memory Unit
updating true c f u w = (fail (plain "no primary"), w)
updating false c f u w = (ok tt, record w { points = put c f u w.points })

-- the driver refuses an empty batch
abbrev pub bulk : String → List WriteModel → Eff Memory Unit
bulk c [] w = (fail (plain "must provide at least one element in input slice"), w)
bulk c (x ∷ ws) w = (ok tt, record w { points = put_all c (x ∷ ws) w.points })

-- a store that refuses an update where the test says so
abbrev pub store_refusing : (Memory → String → Bool) → Mongo
store_refusing refuses = record {
  World = Memory;
  now = λ w. w.clock;
  point = λ w. w.points;
  stored_time = λ t. t;
  update_one = λ c f u w. updating (refuses w c) c f u w;
  bulk_write = λ c ws w. bulk c ws w;
  insert_one = λ c doc w. (
    insertion (has (w.points c (key_of doc (unique_index c)))),
    record w { points = new_at c doc w.points },
  );
  delete_one = λ c f w. (ok tt, record w { points = drop_at c f w.points });
  find_one = λ c f w. ok (w.points c f);
  find = λ c query order w. ok w.found;
  aggregate = λ c stages w. ok w.grouped;
  decode_error = λ k. plain k;
}

abbrev pub memory : Mongo
memory = store_refusing (λ w c. c == w.down)
