-- ===== src/Analytics/Repository/OrderContexts.antt =====
-- app/analytics/repository/order_context.repo.go
use quick_bite_analytics_ser.Prelude.{String, Option, none, some, [], ◌∷◌}
use quick_bite_analytics_ser.Go.Effect.{Result, ok, fail, Eff, reads, ◌>>=◌}
use quick_bite_analytics_ser.Go.Time.{Time}
use quick_bite_analytics_ser.Mongo.Bson.{Doc, Update, Value, text, datetime}
use quick_bite_analytics_ser.Mongo.Driver.{Mongo}
use quick_bite_analytics_ser.Analytics.Entity.{OrderContext}
use quick_bite_analytics_ser.Analytics.Decode.{decode_order_context}
use quick_bite_analytics_ser.Analytics.Repository.Collections.{coll_order_context}

abbrev pub context_key : String → Doc
context_key order_id = ("order_id", text order_id) ∷ []

abbrev pub context_update : String → String → Value → Value → Update
context_update order_id currency placed_at now = record {
  inc = [];
  set = ("currency", text currency) ∷ ("placed_at", placed_at) ∷ ("recorded_at", now) ∷ [];
  set_on_insert = context_key order_id;
}

abbrev pub found_or_error : Result OrderContext → Result (Option OrderContext)
found_or_error (ok row) = ok (some row)
found_or_error (fail e) = fail e

module _ (m : Mongo) where
  unfoldable pub save : String → String → Time → Eff m.World Unit
  save order_id currency placed_at w =
      m.update_one coll_order_context (context_key order_id)
        (context_update order_id currency (datetime (m.stored_time placed_at))
          (datetime (m.stored_time (m.now w))))
        w

  -- mongo.ErrNoDocuments is a miss, not an error
  abbrev pub decode_found : Option Doc → Result (Option OrderContext)
  decode_found none = ok none
  decode_found (some d) = found_or_error (decode_order_context m.decode_error d)

  unfoldable pub find : String → Eff m.World (Option OrderContext)
  find order_id = do
    found ← reads (m.find_one coll_order_context (context_key order_id))
    reads (λ _. decode_found found)
