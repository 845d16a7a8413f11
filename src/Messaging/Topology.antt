-- ===== src/Messaging/Topology.antt =====
-- What the broker has once the topology of a consumer is declared.
use quick_bite_analytics_ser.Prelude.{
  String, ◌==◌, ◌≡◌, refl, ap₂, subst, Bool, true, false, not, ◌&&◌, Option, none, some, List, [],
  ◌∷◌, ◌++◌, map, All, if◌then◌else◌,
}
use quick_bite_analytics_ser.Go.Effect.{wrapping-ok, Eff, Result, ok, fail, proceed, return, ◌>>=◌}
use quick_bite_analytics_ser.Messaging.{
  ConsumerOptions, Declaration, exchange_declare, queue_declare, queue_bind, Amqp, Link, calling,
  connect, on_channel, has_dead_letters, queue_args, declare_dead_letters, bind_all, declare_on,
  current_channel, declare_topology,
}

abbrev pub dead_letters : ConsumerOptions → List Declaration
dead_letters opts =
    exchange_declare opts.dead_letter_exchange
    ∷ queue_declare opts.dead_letter_queue []
    ∷ queue_bind opts.dead_letter_queue "#" opts.dead_letter_exchange
    ∷ []

-- xs, unless one of the two names of the dead letters is empty
abbrev pub if_both_named : {A : Type 0} → ConsumerOptions → List A → List A
if_both_named opts xs =
    if opts.dead_letter_exchange == "" then [] else if opts.dead_letter_queue == "" then [] else xs

-- The exchange; a queue for all that is dead-lettered, if both its names are set; the queue, which
-- dead-letters to that exchange; and a binding of the queue for each key.
abbrev pub topology : ConsumerOptions → List Declaration
topology opts =
    exchange_declare opts.exchange
    ∷ (if_both_named opts (dead_letters opts)
        ++ queue_declare opts.queue
            (if_both_named opts (("x-dead-letter-exchange", opts.dead_letter_exchange) ∷ []))
          ∷ map (λ key. queue_bind opts.queue key opts.exchange) opts.binding_keys)

-- a test for both names, as two tests
both_named :
    {A : Type 0} (p q : Bool) (xs : List A)
    → (if not p && not q then xs else []) ≡ (if p then [] else if q then [] else xs)
both_named true q xs = refl
both_named false true xs = refl
both_named false false xs = refl

-- what the calls of declare_on declare, by the code's own test
declared-topology :
    (opts : ConsumerOptions)
    → exchange_declare opts.exchange
        ∷ ((if has_dead_letters opts then dead_letters opts else [])
            ++ queue_declare opts.queue (queue_args opts)
              ∷ map (λ key. queue_bind opts.queue key opts.exchange) opts.binding_keys)
      ≡ topology opts
declared-topology opts =
    ap₂
      (λ ds args.
        exchange_declare opts.exchange
        ∷ (ds
            ++ queue_declare opts.queue args
              ∷ map (λ key. queue_bind opts.queue key opts.exchange) opts.binding_keys))
      (named (dead_letters opts))
      (named (("x-dead-letter-exchange", opts.dead_letter_exchange) ∷ []))
  where
    named :
        {A : Type 0} (xs : List A)
        → (if has_dead_letters opts then xs else []) ≡ if_both_named opts xs
    named xs = both_named (opts.dead_letter_exchange == "") (opts.dead_letter_queue == "") xs

All-join : {A : Type 0} (P : A → Type 0) (xs ys : List A) → All P xs → All P ys → All P (xs ++ ys)
All-join P [] ys p q = q
All-join P (x ∷ xs) ys (here, rest) q = (here, All-join P xs ys rest q)

All-mono :
    {A : Type 0} (P Q : A → Type 0) (xs : List A) → ((x : A) → P x → Q x) → All P xs → All Q xs
All-mono P Q [] f p = tt
All-mono P Q (x ∷ xs) f (here, rest) = (f x here, All-mono P Q xs f rest)

module _ {W Conn Chan : Type 0} (amqp : Amqp W Conn Chan) (Declared : W → Declaration → Type 0)
    (declares : (ch : Chan) (d : Declaration) (w : W)
      → (amqp.declare ch d w).0 ≡ ok tt
      → Declared (amqp.declare ch d w).1 d)
    (keeps : (ch : Chan) (d x : Declaration) (w : W)
      → Declared w x
      → Declared (amqp.declare ch d w).1 x) where
  -- Whatever is declared stays, and if the call returns no error, these are declared.
  record Makes (f : Eff (Link W Conn Chan) Unit) (ds : List Declaration) : Type 0 where
    sets : (l : Link W Conn Chan) → (f l).0 ≡ ok tt → All (Declared (f l).1.outside) ds
    leaves :
        (l : Link W Conn Chan) (x : Declaration) → Declared l.outside x → Declared (f l).1.outside x

  Makes-return : Makes (return tt) []
  Makes-return = record { sets = λ l done. tt; leaves = λ l x h. h }

  Makes-then :
      (f g : Eff (Link W Conn Chan) Unit) (ds es : List Declaration)
      → Makes f ds
      → Makes g es
      → Makes (f >>= λ _. g) (ds ++ es)
  Makes-then f g ds es a b = record {
    sets = λ l. sets_after (f l).0 (f l).1 (λ done. a.sets l done);
    leaves = λ l x h. leaves_after (f l).0 (f l).1 x (a.leaves l x h);
  }
    where
      sets_after :
          (r : Result (Unit {0})) (v : Link W Conn Chan)
          → (r ≡ ok tt → All (Declared v.outside) ds)
          → (proceed r (λ _. g) v).0 ≡ ok tt
          → All (Declared (proceed r (λ _. g) v).1.outside) (ds ++ es)
      sets_after (ok tt) v set done =
          All-join (Declared (g v).1.outside) ds es
            (All-mono (Declared v.outside) (Declared (g v).1.outside) ds (λ x. b.leaves v x)
              (set refl))
            (b.sets v done)
      sets_after (fail e) v set done = cc

      leaves_after :
          (r : Result (Unit {0})) (v : Link W Conn Chan) (x : Declaration)
          → Declared v.outside x
          → Declared (proceed r (λ _. g) v).1.outside x
      leaves_after (ok tt) v x h = b.leaves v x h
      leaves_after (fail e) v x h = h

  Makes-calling :
      (format : String) (operands : List String) (ch : Chan) (d : Declaration)
      → Makes (calling amqp format operands (amqp.declare ch d)) (d ∷ [])
  Makes-calling format operands ch d = record {
    sets = λ l done. (declares ch d l.outside (wrapping-ok format operands _ done), tt);
    leaves = λ l x h. keeps ch d x l.outside h;
  }

  Makes-dead_letters :
      (opts : ConsumerOptions) (ch : Chan)
      → Makes (declare_dead_letters amqp opts ch) (dead_letters opts)
  unfolding declare_dead_letters
  Makes-dead_letters opts ch =
      Makes-then _ _ (_ ∷ []) _ (Makes-calling _ _ ch _)
        (Makes-then _ _ (_ ∷ []) _ (Makes-calling _ _ ch _) (Makes-calling _ _ ch _))

  Makes-bind_all :
      (opts : ConsumerOptions) (keys : List String) (ch : Chan)
      → Makes
          (bind_all amqp opts keys ch)
          (map (λ key. queue_bind opts.queue key opts.exchange) keys)
  unfolding bind_all
  Makes-bind_all opts [] ch = Makes-return
  Makes-bind_all opts (key ∷ keys) ch =
      Makes-then _ _ (_ ∷ []) _ (Makes-calling _ _ ch _) (Makes-bind_all opts keys ch)

  Makes-if :
      (b : Bool) (f : Eff (Link W Conn Chan) Unit) (ds : List Declaration)
      → Makes f ds
      → Makes (if b then f else return tt) (if b then ds else [])
  Makes-if true f ds a = a
  Makes-if false f ds a = Makes-return

  Makes-declare_on :
      (opts : ConsumerOptions) (ch : Chan) → Makes (declare_on amqp opts ch) (topology opts)
  unfolding declare_on
  Makes-declare_on opts ch = subst (Makes (declare_on amqp opts ch)) (declared-topology opts) (
      Makes-then _ _ (_ ∷ []) _ (Makes-calling _ _ ch _) (
        Makes-then _ _ (if has_dead_letters opts then dead_letters opts else []) _
          (Makes-if (has_dead_letters opts) _ _ (Makes-dead_letters opts ch))
          (Makes-then _ _ (_ ∷ []) _ (Makes-calling _ _ ch _)
            (Makes-bind_all opts opts.binding_keys ch))))

  -- When DeclareTopology returns no error, the broker has the whole topology of the consumer: if both
  -- names of the dead letters are set, the queue has the argument that dead-letters to the exchange, and
  -- a queue is bound to that by the key that every message matches.
  pub declare_topology-topology :
      (opts : ConsumerOptions) (l : Link W Conn Chan)
      → (declare_topology amqp opts l).0 ≡ ok tt
      → All (Declared (declare_topology amqp opts l).1.outside) (topology opts)
  unfolding declare_topology
  declare_topology-topology opts l = go (connect amqp l).0 (connect amqp l).1
    where
      on_open :
          (o : Option Chan) (v : Link W Conn Chan)
          → (on_channel amqp o (declare_on amqp opts) v).0 ≡ ok tt
          → All (Declared (on_channel amqp o (declare_on amqp opts) v).1.outside) (topology opts)
      on_open none v done = cc
      on_open (some ch) v done = (Makes-declare_on opts ch).sets v done

      go :
          (r : Result (Unit {0})) (v : Link W Conn Chan)
          → (proceed r
              (λ _. current_channel amqp >>= λ ch. on_channel amqp ch (declare_on amqp opts))
              v).0
            ≡ ok tt
          → All
              (Declared
                (proceed r
                  (λ _. current_channel amqp >>= λ ch. on_channel amqp ch (declare_on amqp opts))
                  v).1.outside)
              (topology opts)
      go (ok tt) v done = on_open v.channel v done
      go (fail e) v done = cc
