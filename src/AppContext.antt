-- ===== src/AppContext.antt =====
-- lib/appcontext/context.go, and the part of lib/logger/logger.go that rides the context. A context is
-- the values that were put on it, the last one first.
use quick_bite_analytics_ser.Prelude.{ℤ, String, Option, none, some, List, [], ◌∷◌, ◌++◌}
use quick_bite_analytics_ser.Rbac.Middleware.{Claims}

-- the value of an attribute of a log line
pub data Attribute : Type 0 where
  text : String → Attribute
  number : ℤ → Attribute

-- slog.Logger: the attributes that With has bound to it
pub record Logger : Type 0 where
  pub bound : List (String × Attribute)

pub record Line : Type 0 where
  pub message : String
  pub attributes : List (String × Attribute)

abbrev pub with_attribute : String → Attribute → Logger → Logger
with_attribute k v l = record { bound = l.bound ++ (k, v) ∷ [] }

-- logger.Info
abbrev pub info : Logger → String → List (String × Attribute) → Line
info l message attributes = record { message = message; attributes = l.bound ++ attributes }

-- context.WithValue by key
pub data Entry : Type 0 where
  claims_key : Claims → Entry
  correlation_id_key : String → Entry
  logger_key : Logger → Entry

abbrev pub Context : Type 0
Context = List Entry

unfoldable pub with_claims : Claims → Context → Context
with_claims c ctx = claims_key c ∷ ctx

unfoldable pub claims_from_context : Context → Option Claims
claims_from_context [] = none
claims_from_context (claims_key c ∷ ctx) = some c
claims_from_context (correlation_id_key id ∷ ctx) = claims_from_context ctx
claims_from_context (logger_key l ∷ ctx) = claims_from_context ctx

unfoldable pub with_correlation_id : String → Context → Context
with_correlation_id id ctx = correlation_id_key id ∷ ctx

-- "" if none was set
unfoldable pub correlation_id_from_context : Context → String
correlation_id_from_context [] = ""
correlation_id_from_context (claims_key c ∷ ctx) = correlation_id_from_context ctx
correlation_id_from_context (correlation_id_key id ∷ ctx) = id
correlation_id_from_context (logger_key l ∷ ctx) = correlation_id_from_context ctx

-- logger.WithContext and logger.FromContext, which falls back on slog.Default()
unfoldable pub with_logger : Logger → Context → Context
with_logger l ctx = logger_key l ∷ ctx

unfoldable pub logger_from_context : Logger → Context → Logger
logger_from_context fallback [] = fallback
logger_from_context fallback (claims_key c ∷ ctx) = logger_from_context fallback ctx
logger_from_context fallback (correlation_id_key id ∷ ctx) = logger_from_context fallback ctx
logger_from_context fallback (logger_key l ∷ ctx) = l
