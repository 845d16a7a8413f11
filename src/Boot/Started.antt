-- ===== src/Boot/Started.antt =====
-- No consumer is started before the indexes are there.
use quick_bite_analytics_ser.Prelude.{ℤ, String, ◌≡◌, refl, []}
use quick_bite_analytics_ser.Go.Effect.{wrapping-ok, Eff, Result, ok, fail, proceed, reads, ◌>>=◌}
use quick_bite_analytics_ser.Config
use quick_bite_analytics_ser.Messaging.{Amqp, Link}
use quick_bite_analytics_ser.MongoClient.{MongoDriver}
use quick_bite_analytics_ser.Boot.{
  System, connect_mongo_with_retry, connect_broker_with_retry, mongo_config, order_events_options,
  core_events_options, serving, new_broker, run, start_and_serve, ensured, sleep_outside,
}
use quick_bite_analytics_ser.Boot.Ordering.{
  Keeps, Keeps-bind, Quiet, with_retry-Keeps, connect-Keeps, start_consuming-Keeps, mongo-Keeps,
  shutdown-Keeps, booting-Keeps, outside-Keeps,
}

module _ {S B : Type 0} (Q R : S → Type 0) (f : Eff S (Unit {0})) (g : Eff S B) where
  -- The first part establishes what the second one also needs.
  Keeps-establish :
      Keeps Q f
      → ((s : S) → Q s → (f s).0 ≡ ok tt → R (f s).1)
      → Keeps (λ s. Q s × R s) g
      → Keeps Q (f >>= λ _. g)
  Keeps-establish kept makes rest = record {
    at = λ s q. go (f s).0 (f s).1 (kept.at s q) (λ done. makes s q done);
  }
    where
      go : (r : Result (Unit {0})) (t : S) → Q t → (r ≡ ok tt → R t) → Q (proceed r (λ _. g) t).1
      go (ok tt) t q made = (rest.at t (q, made refl)).0
      go (fail e) t q made = q

module _ {W Conn Chan Client Database : Type 0} (amqp : Amqp W Conn Chan)
    (driver : MongoDriver W Client Database) (system : System W Client Database) where
  Quiet-both :
      (P Q : W → Type 0)
      → Quiet amqp driver system P
      → Quiet amqp driver system Q
      → Quiet amqp driver system (λ w. P w × Q w)
  Quiet-both P Q p q = record {
    dial = λ u. record { at = λ w h. ((p.dial u).at w h.0, (q.dial u).at w h.1) };
    open_channel =
        λ c. record { at = λ w h. ((p.open_channel c).at w h.0, (q.open_channel c).at w h.1) };
    close_channel =
        λ c. record { at = λ w h. ((p.close_channel c).at w h.0, (q.close_channel c).at w h.1) };
    close_connection = λ c. record {
      at = λ w h. ((p.close_connection c).at w h.0, (q.close_connection c).at w h.1);
    };
    declare = λ c d. record { at = λ w h. ((p.declare c d).at w h.0, (q.declare c d).at w h.1) };
    qos = λ c n. record { at = λ w h. ((p.qos c n).at w h.0, (q.qos c n).at w h.1) };
    connect = λ t u. record { at = λ w h. ((p.connect t u).at w h.0, (q.connect t u).at w h.1) };
    ping = λ t c. record { at = λ w h. ((p.ping t c).at w h.0, (q.ping t c).at w h.1) };
    disconnect = λ c. record { at = λ w h. ((p.disconnect c).at w h.0, (q.disconnect c).at w h.1) };
    sleep = λ d w h. (p.sleep d w h.0, q.sleep d w h.1);
    serve = λ d w h. (p.serve d w h.0, q.serve d w h.1);
    shutdown_server = record {
      at = λ w h. (p.shutdown_server.at w h.0, q.shutdown_server.at w h.1);
    };
  }

  module _ (Q : W → Type 0) (quiet : Quiet amqp driver system Q)
      (consumes : (ch : Chan) (queue : String) → Keeps Q (amqp.consume ch queue))
      (load : Result Config.Config) (cfg : Config.Config) (client : Client) where
    broker-Keeps : Keeps (λ l. Q l.outside) (connect_broker_with_retry amqp driver system load)
    unfolding connect_broker_with_retry
    broker-Keeps =
        with_retry-Keeps (λ l. Q l.outside) (sleep_outside amqp driver system load) _
          (λ d l q. quiet.sleep d l.outside q) (connect-Keeps amqp driver system Q quiet)

    start_and_serve-Keeps :
        Keeps (λ l. Q l.outside) (start_and_serve amqp driver system load cfg client)
    unfolding start_and_serve
    start_and_serve-Keeps =
        Keeps-bind _ (new_broker amqp driver system load cfg) _ (record { at = λ l q. q })
          (λ _.
            Keeps-bind _ _ _
              (booting-Keeps amqp driver system Q quiet load "boot: rabbit: %w" _ broker-Keeps)
              (λ _.
                Keeps-bind _ _ _
                  (booting-Keeps amqp driver system Q quiet load "boot: start consumer: %w" _ (
                    start_consuming-Keeps amqp driver system Q quiet consumes
                      (order_events_options cfg)))
                  (λ _.
                    Keeps-bind _ _ _
                      (booting-Keeps amqp driver system Q quiet load
                        "boot: start core-events consumer: %w" _
                        (start_consuming-Keeps amqp driver system Q quiet consumes
                          (core_events_options cfg)))
                      (λ _.
                        Keeps-bind _ (serving amqp driver system load cfg) _
                          (record { at = λ l q. quiet.serve cfg.port l.outside q })
                          (λ _. shutdown-Keeps amqp driver system Q quiet load client)))))

  module _ (Safe Indexed : W → Type 0) (quiet : Quiet amqp driver system Safe)
      (lasting : Quiet amqp driver system Indexed)
      (ensures : (db : Database) (a b : ℤ) (w : W)
        → (system.ensure_indexes db a b w).0 ≡ ok tt
        → Indexed (system.ensure_indexes db a b w).1)
      (ensure_quiet : (db : Database) (a b : ℤ) → Keeps Safe (system.ensure_indexes db a b))
      (consumes : (ch : Chan) (queue : String)
        → Keeps (λ w. Safe w × Indexed w) (amqp.consume ch queue))
      (load : Result Config.Config) where
    -- Boot keeps whatever every call keeps but the start of a consumer over a database without the
    -- unique indexes: it starts no consumer unless EnsureIndexes has returned without an error before,
    -- and whichever of its steps fails.
    pub run-Safe :
        (l : Link W Conn Chan) → Safe l.outside → Safe (run amqp driver system load l).1.outside
    unfolding run connect_mongo_with_retry ensured
    run-Safe l safe =
        (Keeps-bind (λ l. Safe l.outside) (reads (λ _. load)) _ (record { at = λ l q. q })
            (λ cfg.
              Keeps-bind _ _ _
                (booting-Keeps amqp driver system Safe quiet load "boot: mongo: %w" _ (
                  outside-Keeps amqp driver system Safe quiet load _ (
                    with_retry-Keeps Safe system.sleep _ quiet.sleep
                      (mongo-Keeps amqp driver system Safe quiet (mongo_config cfg)))))
                (λ connected.
                  Keeps-establish (λ l. Safe l.outside) (λ l. Indexed l.outside)
                    (ensured amqp driver system load cfg connected.1) _
                    (booting-Keeps amqp driver system Safe quiet load _ _ (
                      outside-Keeps amqp driver system Safe quiet load _
                        (ensure_quiet connected.1 _ _)))
                    (λ l q done. ensures connected.1 _ _ l.outside (wrapping-ok _ [] _ done))
                    (start_and_serve-Keeps (λ w. Safe w × Indexed w)
                      (Quiet-both Safe Indexed quiet lasting) consumes load cfg connected.0)))).at
          l safe
