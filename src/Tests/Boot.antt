-- ===== src/Tests/Boot.antt =====
-- A start in a world that records whether the indexes are there and whether a consumer runs.
use quick_bite_analytics_ser.Prelude.{
  or_true, pos, ◌≡◌, refl, Bool, true, false, ◌||◌, not, none, [], ◌∷◌,
}
use quick_bite_analytics_ser.Go.Effect.{ok}
use quick_bite_analytics_ser.Config
use quick_bite_analytics_ser.Messaging.{Amqp, Link}
use quick_bite_analytics_ser.MongoClient.{MongoDriver}
use quick_bite_analytics_ser.Boot.{System, run}
use quick_bite_analytics_ser.Boot.Ordering.{Quiet}
use quick_bite_analytics_ser.Boot.Started.{run-Safe}

record World : Type 0 where
  indexed : Bool
  consuming : Bool

abbrev amqp : Amqp World Unit Unit
amqp = record {
  dial = λ url w. (ok tt, w);
  is_closed = λ conn w. false;
  open_channel = λ conn w. (ok tt, w);
  close_channel = λ ch w. (ok tt, w);
  close_connection = λ conn w. (ok tt, w);
  declare = λ ch d w. (ok tt, w);
  qos = λ ch n w. (ok tt, w);
  consume = λ ch queue w. (ok tt, record w { consuming = true });
}

abbrev driver : MongoDriver World Unit Unit
driver = record {
  connect = λ timeout uri w. (ok tt, w);
  ping = λ timeout client w. (ok tt, w);
  database = λ client name. tt;
  disconnect = λ client w. (ok tt, w);
}

abbrev system : System World Unit Unit
system = record {
  ensure_indexes = λ db a b w. (ok tt, record w { indexed = true });
  sleep = λ d w. w;
  serve = λ port w. w;
  shutdown_server = λ w. (ok tt, w);
}

abbrev pub configuration : Config.Config
configuration = record {
  port = pos 4002;
  is_production = false;
  cors_origins = [];
  access_secret = "secret";
  mongo = record { uri = "mongodb://"; database = "analytics"; connect_timeout = pos 10 };
  rabbit = record {
    url = "amqp://";
    order_events_exchange = "order.events";
    queue = "orders";
    bindings = "order.#" ∷ [];
    dlx = "";
    dlq = "";
    prefetch = pos 32;
    core_events_exchange = "core.events";
    core_events_queue = "core";
    core_events_bindings = [];
    core_events_dlx = "";
    core_events_dlq = "";
  };
  core = record { base_url = "http://core"; internal_api_key = "key"; http_timeout = pos 5 };
  order_service = record { base_url = "http://orders"; internal_api_key = "key" };
  cache_ttl = pos 300;
  event_dedupe_ttl = pos 7;
  order_context_ttl = pos 45;
}

abbrev Safe : World → Type 0
Safe w = (not w.consuming || w.indexed) ≡ true

abbrev Indexed : World → Type 0
Indexed w = w.indexed ≡ true

idle : (Q : World → Type 0) → Quiet amqp driver system Q
idle Q = record {
  dial = λ u. record { at = λ w q. q };
  open_channel = λ c. record { at = λ w q. q };
  close_channel = λ c. record { at = λ w q. q };
  close_connection = λ c. record { at = λ w q. q };
  declare = λ c d. record { at = λ w q. q };
  qos = λ c n. record { at = λ w q. q };
  connect = λ t u. record { at = λ w q. q };
  ping = λ t c. record { at = λ w q. q };
  disconnect = λ c. record { at = λ w q. q };
  sleep = λ d w q. q;
  serve = λ d w q. q;
  shutdown_server = record { at = λ w q. q };
}

abbrev link : Link World Unit Unit
link = record {
  url = "";
  conn = none;
  channel = none;
  outside = record { indexed = false; consuming = false };
}

run-Safe_example : Safe (run amqp driver system (ok configuration) link).1.outside
run-Safe_example =
    run-Safe amqp driver system Safe Indexed (idle Safe) (idle Indexed) (λ db a b w done. refl)
      (λ db a b. record { at = λ w q. or_true (not w.consuming) })
      (λ ch queue. record { at = λ w q. (q.1, q.1) }) (ok configuration) link refl
