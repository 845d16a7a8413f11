-- ===== src/Messaging.antt =====
-- pkg/messaging: the client of the broker. amqp091-go is a parameter: `Amqp` dials, opens channels and
-- calls the broker in a world `W`. The mutex is left out: the service connects from one goroutine.
pub mod Topology
use quick_bite_analytics_ser.Prelude.{
  ℤ, pos, ltb_ℤ, String, ◌==◌, Bool, true, false, not, ◌&&◌, Option, none, some, List, [], ◌∷◌,
  ◌++◌, if◌then◌else◌,
}
use quick_bite_analytics_ser.Errors.{Error, plain, wrapped}
use quick_bite_analytics_ser.Go.Effect.{wrapping, Eff, Result, ok, fail, return, throw, ◌>>=◌, ◌>>◌}

pub record ConsumerOptions : Type 0 where
  pub exchange : String
  pub queue : String
  pub binding_keys : List String
  pub dead_letter_exchange : String
  pub dead_letter_queue : String
  pub prefetch : ℤ

-- The declarations that are made over a channel: a durable topic exchange, a durable queue with its
-- arguments, and a binding of a queue by a key to an exchange.
pub data Declaration : Type 0 where
  exchange_declare : String → Declaration
  queue_declare : String → List (String × String) → Declaration
  queue_bind : String → String → String → Declaration

pub record Amqp (W Conn Chan : Type 0) : Type 0 where
  pub dial : String → Eff W Conn
  pub is_closed : Conn → W → Bool
  pub open_channel : Conn → Eff W Chan
  pub close_channel : Chan → Eff W Unit
  pub close_connection : Conn → Eff W Unit
  pub declare : Chan → Declaration → Eff W Unit
  pub qos : Chan → ℤ → Eff W Unit
  pub consume : Chan → String → Eff W Unit

-- the fields of AMQPClient, and the world
pub record Link (W Conn Chan : Type 0) : Type 0 where
  pub url : String
  pub conn : Option Conn
  pub channel : Option Chan
  pub outside : W

abbrev pub has_dead_letters : ConsumerOptions → Bool
has_dead_letters opts = not (opts.dead_letter_exchange == "") && not (opts.dead_letter_queue == "")

abbrev pub queue_args : ConsumerOptions → List (String × String)
queue_args opts =
    if has_dead_letters opts then ("x-dead-letter-exchange", opts.dead_letter_exchange) ∷ [] else []

abbrev pub new_amqp_client : {W Conn Chan : Type 0} → String → W → Link W Conn Chan
new_amqp_client url w = record { url = url; conn = none; channel = none; outside = w }

module _ {W Conn Chan : Type 0} (amqp : Amqp W Conn Chan) where
  -- a call of the library, with its error wrapped
  abbrev pub calling : {A : Type 0} → String → List String → Eff W A → Eff (Link W Conn Chan) A
  calling format operands call l =
      let (r, w) = call l.outside in (wrapping format operands r, record l { outside = w })

  abbrev pub opened : Conn → Result Chan → Eff (Link W Conn Chan) Unit
  opened conn (ok ch) l = (ok tt, record l { conn = some conn; channel = some ch })
  opened conn (fail e) l = (
    fail (wrapped "amqp channel: %w" [] e),
    record l { outside = (amqp.close_connection conn l.outside).1 },
  )

  abbrev pub dialled : Result Conn → Eff (Link W Conn Chan) Unit
  dialled (fail e) l = (fail (wrapped "amqp dial: %w" [] e), l)
  dialled (ok conn) l =
      let (r, w) = amqp.open_channel conn l.outside in opened conn r (record l { outside = w })

  abbrev pub redial : Eff (Link W Conn Chan) Unit
  redial l = let (r, w) = amqp.dial l.url l.outside in dialled r (record l { outside = w })

  abbrev pub is_open : Option Conn → W → Bool
  is_open none w = false
  is_open (some conn) w = not (amqp.is_closed conn w)

  unfoldable pub connect : Eff (Link W Conn Chan) Unit
  connect l = if is_open l.conn l.outside then (ok tt, l) else redial l

  abbrev pub close_if : {H : Type 0} → (H → Eff W Unit) → Option H → Eff W Unit
  close_if close none w = (ok tt, w)
  close_if close (some handle) w = close handle w

  -- if cerr != nil && err == nil { err = cerr }
  abbrev pub first_error : Result (Unit {0}) → Result (Unit {0}) → Result (Unit {0})
  first_error (ok _) cerr = cerr
  first_error (fail e) cerr = fail e

  unfoldable pub close : Eff (Link W Conn Chan) Unit
  close l =
      let (err, w1) = close_if amqp.close_channel l.channel l.outside in
      let (cerr, w2) = close_if amqp.close_connection l.conn w1 in
      (first_error err cerr, record l { conn = none; channel = none; outside = w2 })

  -- `none` is a nil channel, on which the library panics
  abbrev pub on_channel :
      {A : Type 0} → Option Chan → (Chan → Eff (Link W Conn Chan) A) → Eff (Link W Conn Chan) A
  on_channel none f l = (fail (plain "nil pointer dereference"), l)
  on_channel (some ch) f l = f ch l

  unfoldable pub declare_dead_letters : ConsumerOptions → Chan → Eff (Link W Conn Chan) Unit
  declare_dead_letters opts ch = do
    calling "declare dlx %s: %w" (opts.dead_letter_exchange ∷ [])
        (amqp.declare ch (exchange_declare opts.dead_letter_exchange))
    calling "declare dlq %s: %w" (opts.dead_letter_queue ∷ [])
        (amqp.declare ch (queue_declare opts.dead_letter_queue []))
    calling "bind dlq %s: %w" (opts.dead_letter_queue ∷ [])
        (amqp.declare ch (queue_bind opts.dead_letter_queue "#" opts.dead_letter_exchange))

  unfoldable pub bind_all : ConsumerOptions → List String → Chan → Eff (Link W Conn Chan) Unit
  bind_all opts [] ch = return tt
  bind_all opts (key ∷ keys) ch =
      calling "bind %s -> %s (%s): %w" (opts.queue ∷ opts.exchange ∷ key ∷ [])
        (amqp.declare ch (queue_bind opts.queue key opts.exchange))
      >> bind_all opts keys ch

  unfoldable pub declare_on : ConsumerOptions → Chan → Eff (Link W Conn Chan) Unit
  unfolding declare_dead_letters bind_all
  declare_on opts ch = do
    calling "declare exchange %s: %w" (opts.exchange ∷ [])
        (amqp.declare ch (exchange_declare opts.exchange))
    (if has_dead_letters opts then declare_dead_letters opts ch else return tt)
    calling "declare queue %s: %w" (opts.queue ∷ [])
        (amqp.declare ch (queue_declare opts.queue (queue_args opts)))
    bind_all opts opts.binding_keys ch

  abbrev pub current_channel : Eff (Link W Conn Chan) (Option Chan)
  current_channel l = (ok l.channel, l)

  unfoldable pub declare_topology : ConsumerOptions → Eff (Link W Conn Chan) Unit
  unfolding connect declare_on
  declare_topology opts = do
    connect
    channel ← current_channel
    on_channel channel (declare_on opts)

  abbrev pub prefetch_of : ConsumerOptions → ℤ
  prefetch_of opts = if ltb_ℤ (pos 0) opts.prefetch then opts.prefetch else pos 1

  -- Consume, up to the goroutine that hands each delivery to the handler
  unfoldable pub start_consuming : ConsumerOptions → Eff (Link W Conn Chan) Unit
  unfolding declare_topology
  start_consuming opts = do
    declare_topology opts
    channel ← current_channel
    on_channel channel (λ ch. calling "qos: %w" [] (amqp.qos ch (prefetch_of opts)))
    on_channel channel
        (λ ch. calling "consume %s: %w" (opts.queue ∷ []) (amqp.consume ch opts.queue))
