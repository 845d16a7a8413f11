-- ===== src/Analytics/Repository/EventIds.antt =====
-- app/analytics/repository/event_ids.repo.go
pub mod Laws
use quick_bite_analytics_ser.Prelude.{String, Bool, true, false, [], ◌∷◌}
use quick_bite_analytics_ser.Go.Effect.{Result, ok, fail, Eff}
use quick_bite_analytics_ser.Mongo.Bson.{Doc, Value, text, datetime, has}
use quick_bite_analytics_ser.Mongo.Driver.{Mongo, Insertion, inserted, duplicate_key, insert_failed}
use quick_bite_analytics_ser.CoreEvents.Dedupe.{EventDeduper}
use quick_bite_analytics_ser.Analytics.Repository.Collections.{coll_event_ids}

abbrev pub event_key : String → Doc
event_key event_id = ("event_id", text event_id) ∷ []

abbrev pub event_doc : String → Value → Doc
event_doc event_id received_at = ("event_id", text event_id) ∷ ("received_at", received_at) ∷ []

abbrev pub freshness : Insertion → Result Bool
freshness inserted = ok true
freshness duplicate_key = ok false
freshness (insert_failed e) = fail e

module _ (m : Mongo) where
  unfoldable pub mark_seen : String → Eff m.World Bool
  mark_seen event_id w =
      let (done, w') =
        m.insert_one coll_event_ids (event_doc event_id (datetime (m.stored_time (m.now w)))) w in
      (freshness done, w')

  unfoldable pub unmark : String → Eff m.World Unit
  unmark event_id = m.delete_one coll_event_ids (event_key event_id)

  -- EventIDsRepo as the consumer's EventDeduper
  unfoldable pub deduper : EventDeduper m.World
  unfolding mark_seen unmark
  deduper = record { mark_seen = mark_seen; unmark = unmark }

  -- the event is recorded
  unfoldable pub seen : m.World → String → Bool
  seen w event_id = has (m.point w coll_event_ids (event_key event_id))
