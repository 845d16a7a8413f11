-- ===== src/Boot.antt =====
-- lib/boot/boot.go. The HTTP server, EnsureIndexes, time.Sleep and the wait for a signal are parameters;
-- the routes and the handlers of the consumers are modelled in Analytics. Log lines are left out.
pub mod Ordering
pub mod Started
use quick_bite_analytics_ser.Prelude.{
  ℕ, zero, suc, ◌*◌, ◌^◌, ℤ, pos, String, Option, none, some, List, [], ◌∷◌,
}
use quick_bite_analytics_ser.Errors.{Error, wrapped}
use quick_bite_analytics_ser.Go.Effect.{wrapping, Eff, Result, ok, fail, return, reads, ◌>>=◌, ◌>>◌}
use quick_bite_analytics_ser.HttpClient
use quick_bite_analytics_ser.HttpClient.{new_client}
use quick_bite_analytics_ser.CoreClient.{CoreClient}
use quick_bite_analytics_ser.Config
use quick_bite_analytics_ser.Messaging
use quick_bite_analytics_ser.Messaging.{
  Amqp, Link, ConsumerOptions, new_amqp_client, start_consuming,
}
use quick_bite_analytics_ser.MongoClient
use quick_bite_analytics_ser.MongoClient.{MongoDriver, MongoConfig}

abbrev pub mongo_config : Config.Config → MongoConfig
mongo_config cfg = record {
  uri = cfg.mongo.uri;
  database = cfg.mongo.database;
  connect_timeout = cfg.mongo.connect_timeout;
}

abbrev pub core_client : Config.Config → CoreClient
core_client cfg = record {
  http =
      new_client
        (record { timeout = cfg.core.http_timeout; max_retries = pos 2; base_delay = pos 0 });
  base_url = cfg.core.base_url;
  api_key = cfg.core.internal_api_key;
}

abbrev pub order_events_options : Config.Config → ConsumerOptions
order_events_options cfg = record {
  exchange = cfg.rabbit.order_events_exchange;
  queue = cfg.rabbit.queue;
  binding_keys = cfg.rabbit.bindings;
  dead_letter_exchange = cfg.rabbit.dlx;
  dead_letter_queue = cfg.rabbit.dlq;
  prefetch = cfg.rabbit.prefetch;
}

abbrev pub core_events_options : Config.Config → ConsumerOptions
core_events_options cfg = record {
  exchange = cfg.rabbit.core_events_exchange;
  queue = cfg.rabbit.core_events_queue;
  binding_keys = cfg.rabbit.core_events_bindings;
  dead_letter_exchange = cfg.rabbit.core_events_dlx;
  dead_letter_queue = cfg.rabbit.core_events_dlq;
  prefetch = cfg.rabbit.prefetch;
}

-- What boot takes from libraries and from the operating system.
pub record System (W Client Database : Type 0) : Type 0 where
  pub ensure_indexes : Database → ℤ → ℤ → Eff W Unit
  pub sleep : ℤ → W → W
  -- ListenAndServe, until a signal or an error
  pub serve : ℤ → W → W
  pub shutdown_server : Eff W Unit

module _ {W A : Type 0} (sleep : ℤ → W → W) (attempt_once : Eff W A) where
  -- log, and time.Sleep(time.Duration(attempt) * time.Second)
  abbrev pub pause : ℕ → W → W
  pause attempt w = sleep (pos (attempt * 10 ^ 9)) w

  abbrev pub or_retry : ℕ → (Error → W → Result A × W) → Result A × W → Result A × W
  or_retry attempt next (ok a, w) = (ok a, w)
  or_retry attempt next (fail e, w) = next e (pause attempt w)

  -- the loop, with the number of attempts that are left after this one
  unfoldable pub retrying : ℕ → ℕ → Eff W A
  retrying zero attempt w = or_retry attempt (λ e v. (fail e, v)) (attempt_once w)
  retrying (suc left) attempt w =
      or_retry attempt (λ e v. retrying left (suc attempt) v) (attempt_once w)

  -- for attempt := 1; attempt <= 5; attempt++
  unfoldable pub with_retry : Eff W A
  unfolding retrying
  with_retry = retrying 4 1

module _ {W Conn Chan Client Database : Type 0} (amqp : Amqp W Conn Chan)
    (driver : MongoDriver W Client Database) (system : System W Client Database)
    (load : Result Config.Config) where
  -- a call that leaves the broker's client as it is
  abbrev pub outside : {A : Type 0} → Eff W A → Eff (Link W Conn Chan) A
  outside f l = let (r, w) = f l.outside in (r, record l { outside = w })

  abbrev pub sleep_outside : ℤ → Link W Conn Chan → Link W Conn Chan
  sleep_outside d l = record l { outside = system.sleep d l.outside }

  abbrev pub booting : {A : Type 0} → String → Eff (Link W Conn Chan) A → Eff (Link W Conn Chan) A
  booting format f l = let (r, l') = f l in (wrapping format [] r, l')

  unfoldable pub connect_mongo_with_retry : Config.Config → Eff W (Client × Database)
  connect_mongo_with_retry cfg =
      with_retry system.sleep (MongoClient.connect driver (mongo_config cfg))

  unfoldable pub connect_broker_with_retry : Eff (Link W Conn Chan) Unit
  connect_broker_with_retry = with_retry sleep_outside (Messaging.connect amqp)

  -- its errors are logged only
  unfoldable pub shutdown : Client → Eff (Link W Conn Chan) Unit
  shutdown client l =
      let l1 = (outside system.shutdown_server l).1 in
      let l2 = (Messaging.close amqp l1).1 in
      (ok tt, (outside (MongoClient.disconnect driver (some client)) l2).1)

  abbrev pub serving : Config.Config → Eff (Link W Conn Chan) Unit
  serving cfg l = (ok tt, record l { outside = system.serve cfg.port l.outside })

  -- messaging.NewAMQPClient
  abbrev pub new_broker : Config.Config → Eff (Link W Conn Chan) Unit
  new_broker cfg l = (ok tt, new_amqp_client cfg.rabbit.url l.outside)

  -- Consumer.Start
  abbrev pub start_consumer : ConsumerOptions → Eff (Link W Conn Chan) Unit
  start_consumer opts = start_consuming amqp opts

  -- the part of Run that follows EnsureIndexes
  unfoldable pub start_and_serve : Config.Config → Client → Eff (Link W Conn Chan) Unit
  unfolding connect_broker_with_retry shutdown
  start_and_serve cfg client = do
    new_broker cfg
    booting "boot: rabbit: %w" connect_broker_with_retry
    booting "boot: start consumer: %w" (start_consumer (order_events_options cfg))
    booting "boot: start core-events consumer: %w" (start_consumer (core_events_options cfg))
    serving cfg
    shutdown client

  unfoldable pub ensured : Config.Config → Database → Eff (Link W Conn Chan) Unit
  ensured cfg db =
      booting "boot: ensure indexes: %w"
        (outside (system.ensure_indexes db cfg.event_dedupe_ttl cfg.order_context_ttl))

  unfoldable pub run : Eff (Link W Conn Chan) Unit
  unfolding connect_mongo_with_retry ensured start_and_serve
  run = do
    cfg ← reads (λ _. load)
    connected ← booting "boot: mongo: %w" (outside (connect_mongo_with_retry cfg))
    ensured cfg connected.1
    start_and_serve cfg connected.0
