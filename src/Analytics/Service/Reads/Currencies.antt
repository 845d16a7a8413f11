-- ===== src/Analytics/Service/Reads/Currencies.antt =====
-- The currency of a decoded row against the field of its document.
use quick_bite_analytics_ser.Prelude.{
  String, ◌==◌, ◌≡◌, refl, sym, ap, ◌∙◌, subst, true, false, Option, none, some,
}
use quick_bite_analytics_ser.Errors.{Error}
use quick_bite_analytics_ser.Go.Effect.{ok}
use quick_bite_analytics_ser.Mongo.Bson.{Value, int, text, datetime, as_text}
use quick_bite_analytics_ser.Mongo.Finding.{same_value, value_eq_sound}
use quick_bite_analytics_ser.Analytics.Decode.{text_field}

pub ok_injective : {A : Type 0} (x y : A) → ok x ≡ ok y → x ≡ y
ok_injective x y e = cc

module _ (wrong : String → Error) where
  pub id_read :
      (k : String) (o : Option Value) (c : String)
      → text_field wrong k o ≡ ok c
      → (c == "") ≡ false
      → o ≡ some (text c)
  id_read k none c e h =
      let same : "" ≡ c = ok_injective _ _ e in
      let void : (c == "") ≡ true = subst (λ x. (x == "") ≡ true) same refl in cc (h, void)
  id_read k (some (int i)) c e h = cc
  id_read k (some (datetime t)) c e h = cc
  id_read k (some (text s)) c e h = cc

  pub currency_test :
      (k : String) (o : Option Value) (c s : String)
      → text_field wrong k o ≡ ok s
      → (c == "") ≡ false
      → same_value (some (text c)) o ≡ (c == s)
  currency_test k none c s e h =
      let same : "" ≡ s = ok_injective _ _ e in subst (λ x. false ≡ (c == x)) same (sym h)
  currency_test k (some (int i)) c s e h = cc
  currency_test k (some (datetime t)) c s e h = cc
  currency_test k (some (text t)) c s e h = ap (λ x. c == x) (ok_injective _ _ e)

  as_text_read :
      (k : String) (o : Option Value) (c : String) → text_field wrong k o ≡ ok c → as_text o ≡ c
  as_text_read k none c e = ok_injective _ _ e
  as_text_read k (some (int i)) c e = cc
  as_text_read k (some (datetime t)) c e = cc
  as_text_read k (some (text s)) c e = ok_injective _ _ e

  pub same_currency :
      (k j : String) (o o' : Option Value) (c s : String)
      → text_field wrong k o ≡ ok c
      → text_field wrong j o' ≡ ok s
      → same_value o o' ≡ true
      → c ≡ s
  same_currency k j none none c s e f h = ok_injective _ _ (sym e ∙ f)
  same_currency k j none (some w) c s e f h = cc
  same_currency k j (some v) none c s e f h = cc
  same_currency k j (some v) (some w) c s e f h =
      sym (as_text_read k (some v) c e)
      ∙ ap (λ x. as_text (some x)) (value_eq_sound v w h)
      ∙ as_text_read j (some w) s f
