-- ===== src/Analytics/Service/Refinement/Rules.antt =====
-- How the effect of a chain of writes on the ledger comes from the effects of its parts.
use quick_bite_analytics_ser.Prelude.{
  String, Option, none, some, ◌≡◌, refl, ap, ap₂, subst, ◌∙◌, arith,
}
use quick_bite_analytics_ser.Errors.{Error}
use quick_bite_analytics_ser.Go.Effect.{Result, ok, fail, Eff, return, ◌>>=◌, ◌>>◌, proceed, reads}
use quick_bite_analytics_ser.Mongo.Bson.{Doc}
use quick_bite_analytics_ser.Mongo.Driver.{Mongo, MongoLaws}
use quick_bite_analytics_ser.Analytics.Entity.{OrderContext}
use quick_bite_analytics_ser.Analytics.Decode.{decode_order_context}
use quick_bite_analytics_ser.Analytics.Ledger.{Ledger, Known}
use quick_bite_analytics_ser.Analytics.Ledger.View.{Updates, view, known}
use quick_bite_analytics_ser.Analytics.Repository.OrderContexts.{
  decode_found, found_or_error, context_key,
}
use quick_bite_analytics_ser.Analytics.Repository.OrderContexts
use quick_bite_analytics_ser.Analytics.Repository.Collections.{unique_index, coll_order_context}

abbrev pub knowns : Option OrderContext → Option Known
knowns none = none
knowns (some c) = some (record { currency = c.currency; placed_at = c.placed_at })

module _ (m : Mongo) where
  pub Updates-return : Updates m (return tt) (λ l. l)
  Updates-return = record { at = λ w h. refl }

  then_case :
      (r : Result Unit) {b : Eff m.World Unit} {g : Ledger → Ledger} (w : m.World) (l : Ledger)
      → Updates m b g
      → (r ≡ ok tt → view m w ≡ l)
      → (proceed r (λ _. b) w).0 ≡ ok tt
      → view m (proceed r (λ _. b) w).1 ≡ g l
  then_case (ok tt) {g = g} w l ub first h = ub.at w h ∙ ap g (first refl)
  then_case (fail e) w l ub first h = cc

  pub Updates-then :
      {a b : Eff m.World Unit} {f g : Ledger → Ledger}
      → Updates m a f
      → Updates m b g
      → Updates m (a >> b) (λ l. g (f l))
  Updates-then {a} {f = f} ua ub = record {
    at = λ w h. then_case (a w).0 (a w).1 (f (view m w)) ub (ua.at w) h;
  }

-- A document that decodes holds what the ledger knows of the order.
decode-known :
    (wrong : String → Error) (d : Doc) (row : OrderContext)
    → decode_order_context wrong d ≡ ok row
    → knowns (some row) ≡ known (some d)
unfolding decode_order_context
decode-known wrong d row h = ground arith

decode_some :
    (wrong : String → Error) (d : Doc) (r : Result OrderContext) (found : Option OrderContext)
    → decode_order_context wrong d ≡ r
    → found_or_error r ≡ ok found
    → knowns found ≡ known (some d)
decode_some wrong d (ok row) found e h =
    subst (λ o. knowns o ≡ known (some d)) {x = some row} (ground arith)
      (decode-known wrong d row e)
decode_some wrong d (fail x) found e h = cc

decode_found-known :
    (m : Mongo) (o : Option Doc) (found : Option OrderContext)
    → decode_found m o ≡ ok found
    → knowns found ≡ known o
decode_found-known m none found h = ground arith
decode_found-known m (some d) found h = decode_some m.decode_error d _ found refl h

module _ (m : Mongo) (laws : MongoLaws unique_index m) where
  find_case :
      (k : Option OrderContext → Eff m.World Unit) (f : Option Known → Ledger → Ledger)
      (w w' : m.World) (r : Result (Option OrderContext)) (o : Option Known)
      → ((found : Option OrderContext) → Updates m (k found) (f (knowns found)))
      → w' ≡ w
      → ((found : Option OrderContext) → r ≡ ok found → knowns found ≡ o)
      → (proceed r k w').0 ≡ ok tt
      → view m (proceed r k w').1 ≡ f o (view m w)
  find_case k f w w' (ok found) o uk same known_is h =
      (uk found).at w' h ∙ ap₂ (λ x y. f x (view m y)) (known_is found refl) same
  find_case k f w w' (fail e) o uk same known_is h = cc

  found_known :
      (w : m.World) (id : String) (r : Result (Option Doc)) (found : Option OrderContext)
      → m.find_one coll_order_context (context_key id) w ≡ r
      → (proceed r (λ o. reads (λ _. decode_found m o)) w).0 ≡ ok found
      → knowns found ≡ (view m w).context id
  unfolding view
  found_known w id (ok o) found e h =
      decode_found-known m o found h
      ∙ ap known (laws.find_one_row coll_order_context (context_key id) w o e)
  found_known w id (fail x) found e h = cc

  find_keeps :
      (w : m.World) (r : Result (Option Doc))
      → (proceed r (λ o. reads (λ _. decode_found m o)) w).1 ≡ w
  find_keeps w (ok o) = refl
  find_keeps w (fail x) = refl

  -- The lookup of an order hands on what the ledger knows of it, and changes nothing.
  pub Updates-find :
      (id : String) (k : Option OrderContext → Eff m.World Unit)
      (f : Option Known → Ledger → Ledger)
      → ((found : Option OrderContext) → Updates m (k found) (f (knowns found)))
      → Updates m (OrderContexts.find m id >>= k) (λ l. f (l.context id) l)
  unfolding OrderContexts.find
  Updates-find id k f uk = record {
    at = λ w h.
        let r = m.find_one coll_order_context (context_key id) w in
        find_case k f w _ _ ((view m w).context id) uk (find_keeps w r)
          (λ found e. found_known w id r found refl e) h;
  }
