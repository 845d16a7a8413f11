-- ===== src/Analytics/Repository/EventIds/Laws.antt =====
-- EventIDsRepo as an EventDeduper: InsertOne against the unique index on event_id tests and records
-- in one step.
use quick_bite_analytics_ser.Prelude.{◌≡◌, refl, ap, true, false, arith, eq_refl, ◌∙◌}
use quick_bite_analytics_ser.Go.Effect.{ok}
use quick_bite_analytics_ser.Mongo.Bson.{has, datetime}
use quick_bite_analytics_ser.Mongo.Driver.{Mongo, MongoLaws, Insertion, inserted, duplicate_key}
use quick_bite_analytics_ser.CoreEvents.Dedupe.{DedupeLaws}
use quick_bite_analytics_ser.Analytics.Repository.Collections.{unique_index, coll_event_ids}
use quick_bite_analytics_ser.Analytics.Repository.EventIds.{
  event_key, event_doc, freshness, deduper, seen,
}

inserted_of_fresh : (r : Insertion) → freshness r ≡ ok true → r ≡ inserted
inserted_of_fresh r h = ground arith

duplicate_of_stale : (r : Insertion) → freshness r ≡ ok false → r ≡ duplicate_key
duplicate_of_stale r h = ground arith

module _ (m : Mongo) (laws : MongoLaws unique_index m) where
  pub deduper-DedupeLaws : DedupeLaws (deduper m) (seen m)
  unfolding deduper seen
  deduper-DedupeLaws = record {
    mark_fresh = λ id w h.
        let d = event_doc id (datetime (m.stored_time (m.now w))) in
        let (before, after) =
          laws.insert_done coll_event_ids d (event_key id) w refl (simp eq_refl)
            (inserted_of_fresh _ h) in
        (ap has before, ap has after);
    mark_duplicate = λ id w h.
        laws.insert_duplicate coll_event_ids (event_doc id (datetime (m.stored_time (m.now w))))
          (event_key id) w refl (simp eq_refl) (duplicate_of_stale _ h);
    mark_keeps = λ id j w h.
        ap has (
          laws.insert_keeps coll_event_ids (event_doc id (datetime (m.stored_time (m.now w))))
            (event_key j) w h)
        ∙ h;
    mark_others = λ id j w ne. ap has (
        laws.insert_miss coll_event_ids (event_doc id (datetime (m.stored_time (m.now w))))
          (event_key j) w (ground arith));
    unmark_forgets = λ id w h. ap has (laws.delete_done coll_event_ids (event_key id) w refl h);
    unmark_others = λ id j w ne.
        ap has
          (laws.delete_miss coll_event_ids (event_key id) (event_key j) w refl (ground (arith)));
  }
