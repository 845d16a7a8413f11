-- ===== src/Mongo/Driver.antt =====
-- The driver's operations and what the service relies on of them. `point` is the document of a
-- collection with given values of the fields of a unique index, so there is one at most.
use quick_bite_analytics_ser.Prelude.{
  ◌+ℤ◌, String, ◌==◌, ◌≡◌, true, false, Option, none, some, List,
}
use quick_bite_analytics_ser.Errors.{Error}
use quick_bite_analytics_ser.Go.Effect.{Result, ok, Eff}
use quick_bite_analytics_ser.Go.Time.{Time}
use quick_bite_analytics_ser.Mongo.Bson.{
  Doc, Query, Update, WriteModel, Stage, same_fields, keeps_key, key_eq, field, as_int, updated,
  inc_total, batch_on, has, covers, fields_are,
}

-- InsertOne: done, refused by a unique index (mongo.IsDuplicateKeyError), or another error
pub data Insertion : Type 0 where
  inserted : Insertion
  duplicate_key : Insertion
  insert_failed : Error → Insertion

pub record Mongo : Type 1 where
  pub World : Type 0
  -- what time.Now reads
  pub now : World → Time
  pub point : World → String → Doc → Option Doc
  -- a time.Time as it comes back from a BSON date, which has milliseconds
  pub stored_time : Time → Time
  pub update_one : String → Doc → Update → Eff World Unit
  pub bulk_write : String → List WriteModel → Eff World Unit
  pub insert_one : String → Doc → World → Insertion × World
  pub delete_one : String → Doc → Eff World Unit
  pub find_one : String → Doc → World → Result (Option Doc)
  pub find : String → Query → List String → World → Result (List Doc)
  pub aggregate : String → List Stage → World → Result (List Doc)
  -- Decode of a document whose field has another BSON type
  pub decode_error : String → Error

-- Documented behaviour: an operation touches its own collection, a write of one document that
-- document, and one that returns has applied $inc, $set and $setOnInsert. `index` gives the fields
-- of the unique index that each collection has.
pub record MongoLaws (index : String → List String) (m : Mongo) : Type 0 where
  pub update_elsewhere :
      (c d : String) (f g : Doc) (u : Update) (w : m.World)
      → (c == d) ≡ false
      → m.point (m.update_one c f u w).1 d g ≡ m.point w d g
  pub update_miss :
      (c : String) (f g : Doc) (u : Update) (w : m.World)
      → same_fields f g ≡ true
      → keeps_key f u ≡ true
      → key_eq f g ≡ false
      → m.point (m.update_one c f u w).1 c g ≡ m.point w c g
  pub update_hit :
      (c : String) (f g : Doc) (u : Update) (w : m.World) (k : String)
      → same_fields f g ≡ true
      → keeps_key f u ≡ true
      → key_eq f g ≡ true
      → (m.update_one c f u w).0 ≡ ok tt
      → field k (m.point (m.update_one c f u w).1 c g) ≡ updated f u k (m.point w c g)
  pub bulk_elsewhere :
      (c d : String) (g : Doc) (ms : List WriteModel) (w : m.World)
      → (c == d) ≡ false
      → m.point (m.bulk_write c ms w).1 d g ≡ m.point w d g
  pub bulk_row :
      (c : String) (g : Doc) (ms : List WriteModel) (w : m.World) (k : String)
      → batch_on k g ms ≡ true
      → (m.bulk_write c ms w).0 ≡ ok tt
      → as_int (field k (m.point (m.bulk_write c ms w).1 c g))
        ≡ as_int (field k (m.point w c g)) +ℤ inc_total k g ms
  pub insert_elsewhere :
      (c d : String) (doc g : Doc) (w : m.World)
      → (c == d) ≡ false
      → m.point (m.insert_one c doc w).1 d g ≡ m.point w d g
  -- no insert changes a document that is there
  pub insert_keeps :
      (c : String) (doc g : Doc) (w : m.World)
      → has (m.point w c g) ≡ true
      → m.point (m.insert_one c doc w).1 c g ≡ m.point w c g
  -- an insert makes one document, with the values of `doc`
  pub insert_miss :
      (c : String) (doc g : Doc) (w : m.World)
      → covers doc g ≡ false
      → m.point (m.insert_one c doc w).1 c g ≡ m.point w c g
  pub insert_done :
      (c : String) (doc f : Doc) (w : m.World)
      → fields_are f (index c) ≡ true
      → covers doc f ≡ true
      → (m.insert_one c doc w).0 ≡ inserted
      → (m.point w c f ≡ none) × (m.point (m.insert_one c doc w).1 c f ≡ some doc)
  pub insert_duplicate :
      (c : String) (doc f : Doc) (w : m.World)
      → fields_are f (index c) ≡ true
      → covers doc f ≡ true
      → (m.insert_one c doc w).0 ≡ duplicate_key
      → has (m.point w c f) ≡ true
  pub delete_done :
      (c : String) (f : Doc) (w : m.World)
      → fields_are f (index c) ≡ true
      → (m.delete_one c f w).0 ≡ ok tt
      → m.point (m.delete_one c f w).1 c f ≡ none
  pub delete_miss :
      (c : String) (f g : Doc) (w : m.World)
      → same_fields f g ≡ true
      → key_eq f g ≡ false
      → m.point (m.delete_one c f w).1 c g ≡ m.point w c g
  pub delete_elsewhere :
      (c d : String) (f g : Doc) (w : m.World)
      → (c == d) ≡ false
      → m.point (m.delete_one c f w).1 d g ≡ m.point w d g
  pub find_one_row :
      (c : String) (f : Doc) (w : m.World) (o : Option Doc)
      → m.find_one c f w ≡ ok o
      → o ≡ m.point w c f
