-- ===== src/Boot/Ordering.antt =====
-- The order in which boot starts things.
use quick_bite_analytics_ser.Prelude.{
  ℕ, zero, suc, ℤ, String, Bool, true, false, Option, none, some, List, [], ◌∷◌, if◌then◌else◌,
}
use quick_bite_analytics_ser.Errors.{Error}
use quick_bite_analytics_ser.Go.Effect.{Eff, Result, ok, fail, proceed, return, ◌>>=◌}
use quick_bite_analytics_ser.Config
use quick_bite_analytics_ser.Messaging
use quick_bite_analytics_ser.Messaging.{
  Amqp, Link, Declaration, ConsumerOptions, calling, redial, dialled, opened, is_open, close_if,
  on_channel, declare_dead_letters, bind_all, declare_on, has_dead_letters, declare_topology,
  current_channel, start_consuming,
}
use quick_bite_analytics_ser.MongoClient
use quick_bite_analytics_ser.MongoClient.{MongoDriver, MongoConfig, failing, timeout_of}
use quick_bite_analytics_ser.Boot.{
  System, retrying, or_retry, with_retry, outside, booting, shutdown,
}

-- What a call keeps, whether it fails or not.
pub record Keeps {S A : Type 0} (Q : S → Type 0) (f : Eff S A) : Type 0 where
  pub at : (s : S) → Q s → Q (f s).1

module _ {S A B : Type 0} (Q : S → Type 0) (f : Eff S A) (g : A → Eff S B) where
  pub Keeps-bind : Keeps Q f → ((a : A) → Keeps Q (g a)) → Keeps Q (f >>= g)
  Keeps-bind a b = record { at = λ s q. go (f s).0 (f s).1 (a.at s q) }
    where
      go : (r : Result A) (t : S) → Q t → Q (proceed r g t).1
      go (ok x) t h = (b x).at t h
      go (fail e) t h = h

module _ {S A : Type 0} (Q : S → Type 0) (sleep : ℤ → S → S) (once : Eff S A)
    (quiet : (d : ℤ) (s : S) → Q s → Q (sleep d s)) (kept : Keeps Q once) where
  or_retry-Keeps :
      (attempt : ℕ) (next : Error → Eff S A) (t : Result A × S)
      → Q t.1
      → ((e : Error) → Keeps Q (next e))
      → Q (or_retry sleep once attempt next t).1
  or_retry-Keeps attempt next (ok a, s) q later = q
  or_retry-Keeps attempt next (fail e, s) q later = (later e).at _ (quiet _ s q)

  retrying-Keeps : (left attempt : ℕ) → Keeps Q (retrying sleep once left attempt)
  unfolding retrying
  retrying-Keeps zero attempt = record {
    at = λ s q.
        or_retry-Keeps attempt (λ e v. (fail e, v)) (once s) (kept.at s q)
          (λ e. record { at = λ v h. h });
  }
  retrying-Keeps (suc left) attempt = record {
    at = λ s q.
        or_retry-Keeps attempt (λ e v. retrying sleep once left (suc attempt) v) (once s)
          (kept.at s q) (λ e. record { at = λ v h. (retrying-Keeps left (suc attempt)).at v h });
  }

  pub with_retry-Keeps : Keeps Q (with_retry sleep once)
  unfolding with_retry
  with_retry-Keeps = retrying-Keeps 4 1

module _ {W Conn Chan Client Database : Type 0} (amqp : Amqp W Conn Chan)
    (driver : MongoDriver W Client Database) (system : System W Client Database) where
  -- Everything that boot calls, but EnsureIndexes and the start of a consumer, keeps this.
  pub record Quiet (Q : W → Type 0) : Type 0 where
    pub dial : (url : String) → Keeps Q (amqp.dial url)
    pub open_channel : (conn : Conn) → Keeps Q (amqp.open_channel conn)
    pub close_channel : (ch : Chan) → Keeps Q (amqp.close_channel ch)
    pub close_connection : (conn : Conn) → Keeps Q (amqp.close_connection conn)
    pub declare : (ch : Chan) (d : Declaration) → Keeps Q (amqp.declare ch d)
    pub qos : (ch : Chan) (n : ℤ) → Keeps Q (amqp.qos ch n)
    pub connect : (timeout : ℤ) (uri : String) → Keeps Q (driver.connect timeout uri)
    pub ping : (timeout : ℤ) (client : Client) → Keeps Q (driver.ping timeout client)
    pub disconnect : (client : Client) → Keeps Q (driver.disconnect client)
    pub sleep : (d : ℤ) (w : W) → Q w → Q (system.sleep d w)
    pub serve : (port : ℤ) (w : W) → Q w → Q (system.serve port w)
    pub shutdown_server : Keeps Q system.shutdown_server

  module _ (Q : W → Type 0) (quiet : Quiet Q) where
    abbrev pub Out : Link W Conn Chan → Type 0
    Out l = Q l.outside

    redial-Keeps : Keeps Out (redial amqp)
    redial-Keeps = record {
      at = λ l q.
          on_dialled l (amqp.dial l.url l.outside).0 (amqp.dial l.url l.outside).1
            ((quiet.dial l.url).at l.outside q);
    }
      where
        on_opened :
            (l : Link W Conn Chan) (conn : Conn) (r : Result Chan) (w : W)
            → Q w
            → Q (opened amqp conn r (record l { outside = w })).1.outside
        on_opened l conn (ok ch) w h = h
        on_opened l conn (fail e) w h = (quiet.close_connection conn).at w h

        on_dialled :
            (l : Link W Conn Chan) (r : Result Conn) (w : W)
            → Q w
            → Q (dialled amqp r (record l { outside = w })).1.outside
        on_dialled l (fail e) w h = h
        on_dialled l (ok conn) w h =
            on_opened l conn (amqp.open_channel conn w).0 (amqp.open_channel conn w).1
              ((quiet.open_channel conn).at w h)

    pub connect-Keeps : Keeps Out (Messaging.connect amqp)
    unfolding Messaging.connect
    connect-Keeps = record { at = λ l q. go l q (is_open amqp l.conn l.outside) }
      where
        go :
            (l : Link W Conn Chan)
            → Q l.outside
            → (b : Bool)
            → Q
                (if◌then◌else◌ {A = Result (Unit {0}) × Link W Conn Chan} b
                  (ok tt, l)
                  (redial amqp l)).1.outside
        go l q true = q
        go l q false = redial-Keeps.at l q

    on_channel-Keeps :
        {A : Type 0} (o : Option Chan) (f : Chan → Eff (Link W Conn Chan) A)
        → ((ch : Chan) → Keeps Out (f ch))
        → Keeps Out (on_channel amqp o f)
    on_channel-Keeps none f kept = record { at = λ l q. q }
    on_channel-Keeps (some ch) f kept = record { at = λ l q. (kept ch).at l q }

    -- a declaration, with its error wrapped
    declare-Keeps :
        (format : String) (operands : List String) (ch : Chan) (d : Declaration)
        → Keeps Out (calling amqp format operands (amqp.declare ch d))
    declare-Keeps format operands ch d = record { at = λ l q. (quiet.declare ch d).at l.outside q }

    bind_all-Keeps :
        (opts : ConsumerOptions) (keys : List String) (ch : Chan)
        → Keeps Out (bind_all amqp opts keys ch)
    unfolding bind_all
    bind_all-Keeps opts [] ch = record { at = λ l q. q }
    bind_all-Keeps opts (key ∷ keys) ch =
        Keeps-bind Out _ _ (declare-Keeps _ _ ch _) (λ _. bind_all-Keeps opts keys ch)

    dead_letters-Keeps :
        (opts : ConsumerOptions) (ch : Chan) (b : Bool)
        → Keeps Out (if b then declare_dead_letters amqp opts ch else return tt)
    unfolding declare_dead_letters
    dead_letters-Keeps opts ch true =
        Keeps-bind Out _ _ (declare-Keeps _ _ ch _)
          (λ _. Keeps-bind Out _ _ (declare-Keeps _ _ ch _) (λ _. declare-Keeps _ _ ch _))
    dead_letters-Keeps opts ch false = record { at = λ l q. q }

    declare_on-Keeps : (opts : ConsumerOptions) (ch : Chan) → Keeps Out (declare_on amqp opts ch)
    unfolding declare_on
    declare_on-Keeps opts ch = Keeps-bind Out _ _ (declare-Keeps _ _ ch _) (λ _.
        Keeps-bind Out _ _ (dead_letters-Keeps opts ch (has_dead_letters opts)) (λ _.
          Keeps-bind Out _ _ (declare-Keeps _ _ ch _)
            (λ _. bind_all-Keeps opts opts.binding_keys ch)))

    declare_topology-Keeps : (opts : ConsumerOptions) → Keeps Out (declare_topology amqp opts)
    unfolding declare_topology
    declare_topology-Keeps opts = Keeps-bind Out _ _ connect-Keeps (λ _.
        Keeps-bind Out (current_channel amqp) _ (record { at = λ l q. q })
          (λ o. on_channel-Keeps o _ (declare_on-Keeps opts)))

    pub start_consuming-Keeps :
        ((ch : Chan) (queue : String) → Keeps Q (amqp.consume ch queue))
        → (opts : ConsumerOptions) → Keeps Out (start_consuming amqp opts)
    unfolding start_consuming
    start_consuming-Keeps consumes opts = Keeps-bind Out _ _ (declare_topology-Keeps opts) (λ _.
        Keeps-bind Out (current_channel amqp) _ (record { at = λ l q. q })
          (λ o.
            Keeps-bind Out _ _
              (on_channel-Keeps o _ (λ ch. record { at = λ l q. (quiet.qos ch _).at l.outside q }))
              (λ _.
                on_channel-Keeps o _
                  (λ ch. record { at = λ l q. (consumes ch opts.queue).at l.outside q }))))

    failing-Keeps :
        {A : Type 0} (format : String) (f : Eff W A) → Keeps Q f → Keeps Q (failing driver format f)
    failing-Keeps format f kept = record { at = λ w q. kept.at w q }

    pub mongo-Keeps : (cfg : MongoConfig) → Keeps Q (MongoClient.connect driver cfg)
    unfolding MongoClient.connect
    mongo-Keeps cfg =
        Keeps-bind Q
          (failing driver "mongo connect: %w" (driver.connect (timeout_of driver cfg) cfg.uri)) _
          (failing-Keeps _ _ (quiet.connect _ _))
          (λ client.
            Keeps-bind Q
              (failing driver "mongo ping: %w" (driver.ping (timeout_of driver cfg) client))
              (λ _. return (client, driver.database client cfg.database))
              (failing-Keeps _ _ (quiet.ping _ client)) (λ _. record { at = λ w q. q }))

    close-Keeps : Keeps Out (Messaging.close amqp)
    unfolding Messaging.close
    close-Keeps = record { at = λ l q. on_conn l.conn _ (on_chan l.channel l.outside q) }
      where
        on_chan : (o : Option Chan) (w : W) → Q w → Q (close_if amqp amqp.close_channel o w).1
        on_chan none w h = h
        on_chan (some ch) w h = (quiet.close_channel ch).at w h

        on_conn : (o : Option Conn) (w : W) → Q w → Q (close_if amqp amqp.close_connection o w).1
        on_conn none w h = h
        on_conn (some conn) w h = (quiet.close_connection conn).at w h

    pub shutdown-Keeps :
        (load : Result Config.Config) (client : Client)
        → Keeps Out (shutdown amqp driver system load client)
    unfolding shutdown MongoClient.disconnect
    shutdown-Keeps load client = record {
      at = λ l q.
          (quiet.disconnect client).at _ (close-Keeps.at _ (quiet.shutdown_server.at l.outside q));
    }

    -- a step of boot, with its error wrapped
    pub booting-Keeps :
        {A : Type 0} (load : Result Config.Config) (format : String) (f : Eff (Link W Conn Chan) A)
        → Keeps Out f
        → Keeps Out (booting amqp driver system load format f)
    booting-Keeps load format f kept = record { at = λ l q. kept.at l q }

    pub outside-Keeps :
        {A : Type 0} (load : Result Config.Config) (f : Eff W A)
        → Keeps Q f
        → Keeps Out (outside amqp driver system load f)
    outside-Keeps load f kept = record { at = λ l q. kept.at l.outside q }
