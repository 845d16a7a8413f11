-- ===== src/Tests/Retry.antt =====
-- A handler that fails the first time, and counts its runs beside the documents.
use quick_bite_analytics_ser.Prelude.{ℕ, zero, suc, Bool, String, [], ◌∷◌}
use quick_bite_analytics_ser.Errors.{plain}
use quick_bite_analytics_ser.Go.Effect.{Eff, Result, ok, fail}
use quick_bite_analytics_ser.CoreEvents.Dedupe.{EventDeduper}
use quick_bite_analytics_ser.CoreEvents.Consumer.{EventHandler, Consumer, Session}
use quick_bite_analytics_ser.Analytics.Repository.EventIds.{seen, deduper, mark_seen, unmark}
use quick_bite_analytics_ser.Tests.Store.{memory, Memory}
use quick_bite_analytics_ser.Tests.Inputs.{empty, envelope_of}

abbrev Beside : Type 0
Beside = Memory × ℕ

-- a call on the documents, beside the count
abbrev beside : {A : Type 0} → Eff Memory A → Eff Beside A
beside f (w, n) = ((f w).0, ((f w).1, n))

abbrev counting_deduper : EventDeduper Beside
counting_deduper = record {
  mark_seen = λ id. beside ((deduper memory).mark_seen id);
  unmark = λ id. beside ((deduper memory).unmark id);
}

abbrev seen_beside : Beside → String → Bool
seen_beside w id = seen memory w.0 id

abbrev outcome_of : ℕ → Result (Unit {0})
outcome_of zero = fail (plain "no primary")
outcome_of (suc n) = ok tt

abbrev handler : EventHandler Beside
handler payload (w, n) = (outcome_of n, (w, suc n))

abbrev consumer : Consumer Beside
consumer = record {
  dedupe = counting_deduper;
  handlers = ((envelope_of "e1").event_type, handler) ∷ [];
}

abbrev start : Session Beside
start = record { world = (empty, 0); settled = [] }
