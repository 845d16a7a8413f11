-- ===== src/Analytics/Ingest/Marking.antt =====
-- MarkSeen on the ledger and on the record of events.
use quick_bite_analytics_ser.Prelude.{
  String, ◌==◌, ◌≡◌, subst, Bool, true, false, ◌||◌, Bool-cases, inl, inr, eq_iff, if◌then◌else◌,
}
use quick_bite_analytics_ser.Go.Effect.{ok}
use quick_bite_analytics_ser.Mongo.Driver.{Mongo, MongoLaws}
use quick_bite_analytics_ser.CoreEvents.Dedupe.{DedupeLaws}
use quick_bite_analytics_ser.Analytics.Ledger.View.{view}
use quick_bite_analytics_ser.Analytics.Ledger.View.Frames.{view-event_ids}
use quick_bite_analytics_ser.Analytics.Repository.Collections.{unique_index, coll_event_ids}
use quick_bite_analytics_ser.Analytics.Repository.EventIds.{deduper, mark_seen, seen}
use quick_bite_analytics_ser.Analytics.Repository.EventIds.Laws.{deduper-DedupeLaws}

module _ (m : Mongo) (laws : MongoLaws unique_index m) where
  pub view-mark_seen : (id : String) (w : m.World) → view m (mark_seen m id w).1 ≡ view m w
  unfolding mark_seen
  view-mark_seen id w =
      view-event_ids m w _ (λ c f off. laws.insert_elsewhere coll_event_ids c _ f w off)

  -- Whether the event was fresh or not, it is recorded now, and the others are as before.
  pub seen-mark_seen :
      (id : String) (w : m.World) (b : Bool)
      → (mark_seen m id w).0 ≡ ok b
      → (j : String) → seen m (mark_seen m id w).1 j ≡ (id == j || seen m w j)
  unfolding deduper
  seen-mark_seen id w b marked j = elim (Bool-cases (id == j)) [
    | inl hit ↦
        rw hit
          (subst (λ k. seen m (mark_seen m id w).1 k ≡ true) ((eq_iff id j).0 hit) (now b marked))
    | inr miss ↦ rw miss (dl.mark_others id j w miss)
  ]
    where
      dl : DedupeLaws (deduper m) (seen m)
      dl = deduper-DedupeLaws m laws

      now : (r : Bool) → (mark_seen m id w).0 ≡ ok r → seen m (mark_seen m id w).1 id ≡ true
      now true p = (dl.mark_fresh id w p).1
      now false p = dl.mark_keeps id id w (dl.mark_duplicate id w p)

  -- What MarkSeen answers is whether the event was new.
  pub mark_seen-was :
      (id : String) (w : m.World) (b : Bool)
      → (mark_seen m id w).0 ≡ ok b
      → seen m w id ≡ (if b then false else true)
  unfolding deduper
  mark_seen-was id w true marked = ((deduper-DedupeLaws m laws).mark_fresh id w marked).0
  mark_seen-was id w false marked = (deduper-DedupeLaws m laws).mark_duplicate id w marked
