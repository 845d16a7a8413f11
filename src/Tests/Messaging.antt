-- ===== src/Tests/Messaging.antt =====
-- A broker that keeps a list of what was declared.
use quick_bite_analytics_ser.Prelude.{
  pos, ◌≡◌, refl, ◌⊎◌, inl, inr, false, none, List, [], ◌∷◌, All,
}
use quick_bite_analytics_ser.Go.Effect.{ok}
use quick_bite_analytics_ser.Messaging.{
  ConsumerOptions, Declaration, Amqp, Link, connect, declare_on, declare_dead_letters, bind_all,
  declare_topology,
}
use quick_bite_analytics_ser.Messaging.Topology.{topology, declare_topology-topology}

abbrev amqp : Amqp (List Declaration) Unit Unit
amqp = record {
  dial = λ url w. (ok tt, w);
  is_closed = λ conn w. false;
  open_channel = λ conn w. (ok tt, w);
  close_channel = λ ch w. (ok tt, w);
  close_connection = λ conn w. (ok tt, w);
  declare = λ ch d w. (ok tt, d ∷ w);
  qos = λ ch n w. (ok tt, w);
  consume = λ ch queue w. (ok tt, w);
}

abbrev Declared : List Declaration → Declaration → Type 0
Declared [] d = ⊥
Declared (x ∷ w) d = (x ≡ d) ⊎ Declared w d

abbrev options : ConsumerOptions
options = record {
  exchange = "order.events";
  queue = "analytics";
  binding_keys = "order.#" ∷ "payment.#" ∷ [];
  dead_letter_exchange = "order.events.dlx";
  dead_letter_queue = "analytics.dlq";
  prefetch = pos 32;
}

abbrev link : Link (List Declaration) Unit Unit
link = record { url = "amqp://"; conn = none; channel = none; outside = [] }

declare_topology-topology_example :
    All (Declared (declare_topology amqp options link).1.outside) (topology options)
unfolding declare_topology connect declare_on declare_dead_letters bind_all
declare_topology-topology_example =
    declare_topology-topology amqp Declared (λ ch d w done. inl refl) (λ ch d x w h. inr h) options
      link refl
