-- ===== src/Tests/Workers.antt =====
-- Two processes that are given the same event.
use quick_bite_analytics_ser.Prelude.{◌≡◌, ◌≤◌, ◌+◌, refl, true, [], ◌∷◌, arith}
use quick_bite_analytics_ser.CoreEvents.Consumer.{Envelope, Consumer}
use quick_bite_analytics_ser.CoreEvents.Workers.{
  Shared, times, marks, skips, succeeds, Run, stop, step,
}
use quick_bite_analytics_ser.CoreEvents.Workers.Once.{Run-Once, Run-held}
use quick_bite_analytics_ser.CoreEvents.Workers.Lost.{Run-lost}
use quick_bite_analytics_ser.Analytics.Repository.EventIds.{seen, mark_seen, deduper}
use quick_bite_analytics_ser.Analytics.Repository.EventIds.Laws.{deduper-DedupeLaws}
use quick_bite_analytics_ser.Tests.Store.{memory, Memory}
use quick_bite_analytics_ser.Tests.Store.Writes.{memory-MongoLaws}
use quick_bite_analytics_ser.Tests.Inputs.{empty, envelope_of}

abbrev consumer : Consumer Memory
consumer = record { dedupe = deduper memory; handlers = [] }

abbrev event : Envelope
event = envelope_of "e1"

abbrev marked_world : Memory
marked_world = (mark_seen memory "e1" empty).1

abbrev begin : Shared Memory
begin = record { world = empty; handling = []; failed = []; applied = [] }

-- One process has recorded the event.
abbrev in_hand : Shared Memory
in_hand = record begin { world = marked_world; handling = event ∷ [] }

to_in_hand : Run consumer (seen memory) begin in_hand
unfolding mark_seen deduper
to_in_hand = step stop (marks begin event marked_world refl)

-- The other is told that it is a duplicate; then the first one is done.
abbrev after_skip : Shared Memory
after_skip = record in_hand { world = (mark_seen memory "e1" marked_world).1 }

Run-held_example : 0 + (0 + (1 + 0)) ≤ 1
unfolding mark_seen deduper
Run-held_example =
    Run-held consumer (seen memory) (deduper-DedupeLaws memory memory-MongoLaws) empty
      (step (step to_in_hand (skips in_hand event _ refl)) (succeeds after_skip [] [] event refl))
      "e1"

-- The first process dies, and the event is delivered again.
Run-lost_example :
    (times "e1" [] ≡ 0) × (seen memory (mark_seen memory "e1" marked_world).1 "e1" ≡ true)
unfolding mark_seen deduper
Run-lost_example =
    Run-lost consumer (seen memory) (deduper-DedupeLaws memory memory-MongoLaws) in_hand [] [] event
      (Run-Once consumer (seen memory) (deduper-DedupeLaws memory memory-MongoLaws) to_in_hand
        (record { once = λ id. omega arith }))
      refl (step stop (skips (record in_hand { handling = [] }) event _ refl))
