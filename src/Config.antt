-- ===== src/Config.antt =====
-- lib/config/env.go. The environment is a function from names to values. Reading it into `raw` by its
-- tags is caarlos0/env's, a parameter; a panic of Load is an error. bufio's division of the .env file
-- into lines is left out: the file is its lines, if it can be opened.
pub mod Lists
pub mod DotEnv
use quick_bite_analytics_ser.Prelude.{
  ℕ, ◌*◌, ◌^◌, ℤ, eqb, String, ◌==◌, Bool, true, false, ◌||◌, Option, none, some, List, [], ◌∷◌,
  if◌then◌else◌,
}
use Prim.Native.Char.{code}
use Prim.Native.String
use quick_bite_analytics_ser.Errors.{wrapped}
use quick_bite_analytics_ser.Go.Effect.{Result, ok, fail}
use quick_bite_analytics_ser.Go.Int64.{times_int64}
use quick_bite_analytics_ser.Go.Strings.{trim, trim_space, cut_prefix, split, cut}

abbrev pub Environment : Type 0
Environment = String → Option String

-- the struct `raw`
pub record Raw : Type 0 where
  pub port : ℤ
  pub node_env : String
  pub cors_origins : String
  pub access_secret : String
  pub mongo_uri : String
  pub mongo_database : String
  pub mongo_connect_timeout : ℤ
  pub rabbit_mq_url : String
  pub rabbit_order_events_exchange : String
  pub rabbit_queue : String
  pub rabbit_bindings : String
  pub rabbit_dlx : String
  pub rabbit_dlq : String
  pub rabbit_prefetch : ℤ
  pub rabbit_core_events_exchange : String
  pub rabbit_core_events_queue : String
  pub rabbit_core_events_bindings : String
  pub rabbit_core_events_dlx : String
  pub rabbit_core_events_dlq : String
  pub core_service_base_url : String
  pub core_internal_api_key : String
  pub core_http_timeout_ms : ℤ
  pub order_service_base_url : String
  pub order_service_internal_key : String
  pub rbac_cache_ttl_sec : ℤ
  pub event_dedupe_ttl_days : ℤ
  pub order_context_ttl_days : ℤ

pub record MongoSettings : Type 0 where
  pub uri : String
  pub database : String
  pub connect_timeout : ℤ

pub record RabbitSettings : Type 0 where
  pub url : String
  pub order_events_exchange : String
  pub queue : String
  pub bindings : List String
  pub dlx : String
  pub dlq : String
  pub prefetch : ℤ
  pub core_events_exchange : String
  pub core_events_queue : String
  pub core_events_bindings : List String
  pub core_events_dlx : String
  pub core_events_dlq : String

pub record CoreSettings : Type 0 where
  pub base_url : String
  pub internal_api_key : String
  pub http_timeout : ℤ

pub record OrderServiceSettings : Type 0 where
  pub base_url : String
  pub internal_api_key : String

pub record Config : Type 0 where
  pub port : ℤ
  pub is_production : Bool
  pub cors_origins : List String
  pub access_secret : String
  pub mongo : MongoSettings
  pub rabbit : RabbitSettings
  pub core : CoreSettings
  pub order_service : OrderServiceSettings
  pub cache_ttl : ℤ
  pub event_dedupe_ttl : ℤ
  pub order_context_ttl : ℤ

-- the loop of splitTrim
unfoldable pub trimmed : List String → List String
trimmed [] = []
trimmed (p ∷ parts) =
    let out = trimmed parts in if trim_space p == "" then out else trim_space p ∷ out

unfoldable pub split_trim : String → List String
unfolding trimmed
split_trim raw = trimmed (split b',' raw)

-- os.Setenv, whose error is dropped: it refuses an empty name, one with `=` or NUL, and a value with NUL
unfoldable pub has_char : ℕ → String → Bool
has_char d String.[] = false
has_char d (String.◌∷◌ c s) = eqb (code c) d || has_char d s

unfoldable pub setenv : String → String → Environment → Environment
unfolding has_char
setenv key value env name =
    if key == "" || has_char b'=' key || has_char 0 key || has_char 0 value
    then env name
    else if key == name
    then some value
    else env name

abbrev pub is_quote : ℕ → Bool
is_quote c = eqb c 34 || eqb c 39

-- an assignment that strings.Cut has found
abbrev pub assignment : Option (String × String) → Option (String × String)
assignment none = none
assignment (some (key, value)) = some (trim_space key, trim is_quote (trim_space value))

abbrev pub is_comment : String → Bool
is_comment line = elim (cut_prefix "#" line) [ none ↦ false | some rest ↦ true ]

-- the name and the value of a line, if it has any
unfoldable pub parse_line : String → Option (String × String)
parse_line text =
    let line = trim_space text in
    if line == "" || is_comment line then none else assignment (cut b'=' line)

-- if _, exists := os.LookupEnv(key); !exists
abbrev pub set_unless : Option String → String → String → Environment → Environment
set_unless (some v) key value env = env
set_unless none key value env = setenv key value env

abbrev pub assign : Option (String × String) → Environment → Environment
assign none env = env
assign (some (key, value)) env = set_unless (env key) key value env

unfoldable pub load_lines : List String → Environment → Environment
unfolding parse_line setenv
load_lines [] env = env
load_lines (line ∷ lines) env = load_lines lines (assign (parse_line line) env)

-- `none` is a file that cannot be opened
unfoldable pub load_dot_env : Option (List String) → Environment → Environment
unfolding load_lines
load_dot_env none env = env
load_dot_env (some lines) env = load_lines lines env

abbrev second : ℕ
second = 10 ^ 9

abbrev pub seconds : ℤ → ℤ
seconds n = times_int64 n second

abbrev pub days : ℤ → ℤ
days n = times_int64 (times_int64 n 24) (3600 * second)

-- what Load makes of `raw`
unfoldable pub config_of : Raw → Config
unfolding split_trim
config_of r = record {
  port = r.port;
  is_production = r.node_env == "production";
  cors_origins = split_trim r.cors_origins;
  access_secret = r.access_secret;
  mongo = record {
    uri = r.mongo_uri;
    database = r.mongo_database;
    connect_timeout = seconds r.mongo_connect_timeout;
  };
  rabbit = record {
    url = r.rabbit_mq_url;
    order_events_exchange = r.rabbit_order_events_exchange;
    queue = r.rabbit_queue;
    bindings = split_trim r.rabbit_bindings;
    dlx = r.rabbit_dlx;
    dlq = r.rabbit_dlq;
    prefetch = r.rabbit_prefetch;
    core_events_exchange = r.rabbit_core_events_exchange;
    core_events_queue = r.rabbit_core_events_queue;
    core_events_bindings = split_trim r.rabbit_core_events_bindings;
    core_events_dlx = r.rabbit_core_events_dlx;
    core_events_dlq = r.rabbit_core_events_dlq;
  };
  core = record {
    base_url = r.core_service_base_url;
    internal_api_key = r.core_internal_api_key;
    http_timeout = times_int64 r.core_http_timeout_ms (10 ^ 6);
  };
  order_service = record {
    base_url = r.order_service_base_url;
    internal_api_key = r.order_service_internal_key;
  };
  cache_ttl = seconds r.rbac_cache_ttl_sec;
  event_dedupe_ttl = days r.event_dedupe_ttl_days;
  order_context_ttl = days r.order_context_ttl_days;
}

abbrev pub grouped : Result Raw → Result Config
grouped (ok r) = ok (config_of r)
grouped (fail e) = fail (wrapped "config: %v" [] e)

unfoldable pub load :
    (Environment → Result Raw) → Option (List String) → Environment → Result Config
unfolding load_dot_env config_of
load parse dot_env env = grouped (parse (load_dot_env dot_env env))
