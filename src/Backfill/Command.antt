-- ===== src/Backfill/Command.antt =====
-- main of cmd/backfill-aggs/main.go. os.Exit runs no deferred call, so the database is disconnected
-- only where main returns.
pub mod Completed
use quick_bite_analytics_ser.Prelude.{
  ℕ, ℤ, pos, eqb_ℤ, String, ◌==◌, ◌≡◌, refl, Bool, true, false, ◌||◌, Bool-cases, Option-cases, sym,
  ap₂, ap, ◌∙◌, ◌⊎◌, inl, inr, Option, none, some, [], arith, ltb, if◌then◌else◌,
}
use quick_bite_analytics_ser.Go.Effect.{
  Result, ok, fail, Eff, wrapping, proceed, return, ◌>>=◌, ◌>>◌,
}
use quick_bite_analytics_ser.Go.Time.{Time}
use quick_bite_analytics_ser.Mongo.Driver.{Mongo}
use quick_bite_analytics_ser.HttpClient.{Net, new_client}
use quick_bite_analytics_ser.Config
use quick_bite_analytics_ser.MongoClient
use quick_bite_analytics_ser.MongoClient.{MongoDriver}
use quick_bite_analytics_ser.Boot.{mongo_config}
use quick_bite_analytics_ser.Backfill.{Flags, Formats, Counts, no_counts, backfill, exit_status}

-- the flags of the command line
pub record Arguments : Type 0 where
  pub region : String
  pub year : ℤ
  pub limit : ℤ
  pub dry_run : Bool

abbrev pub flags_of : Arguments → Config.Config → Flags
flags_of a cfg = record {
  region = a.region;
  year = a.year;
  limit = a.limit;
  dry_run = a.dry_run;
  base_url = cfg.order_service.base_url;
  internal_api_key = cfg.order_service.internal_api_key;
  http =
      new_client
        (record { timeout = cfg.core.http_timeout; max_retries = pos 2; base_delay = pos 0 });
}

module _ {J Client Database : Type 0} (m : Mongo) (net : Net m.World J) (day : Time → String)
    (formats : Formats) (driver : MongoDriver m.World Client Database)
    (ensure_indexes : Database → ℤ → ℤ → Eff m.World Unit) (load : Result Config.Config) where
  -- the client, unless it is a dry run
  unfoldable pub prepare : Arguments → Config.Config → Eff m.World (Option Client)
  prepare a cfg w =
      if a.dry_run
      then (ok none, w)
      else (do
        connected ← (λ w.
            let (r, w') = MongoClient.connect driver (mongo_config cfg) w in
            (wrapping "mongo connect: %w" [] r, w'))
        (λ w.
            let (r, w') = ensure_indexes connected.1 cfg.event_dedupe_ttl cfg.order_context_ttl w in
            (wrapping "ensure indexes: %w" [] r, w'))
        return (some connected.0))
          w

  -- the deferred Disconnect, on an exit status of 0
  abbrev pub finished : Option Client → Result Counts × m.World → ℕ × m.World
  finished client (r, w) =
      if ltb 0 (exit_status r)
      then (exit_status r, w)
      else (0, (MongoClient.disconnect driver client w).1)

  abbrev pub prepared : ℕ → Flags → Result (Option Client) × m.World → Option (ℕ × m.World)
  prepared fuel flags (fail e, w) = some (1, w)
  prepared fuel flags (ok client, w) = elim (backfill m net day formats flags fuel "" no_counts w) [
    | none ↦ none
    | some outcome ↦ some (finished client outcome)
  ]

  -- a panic of Load exits with 2
  abbrev pub loaded : ℕ → Arguments → Result Config.Config → m.World → Option (ℕ × m.World)
  loaded fuel a (fail e) w = some (2, w)
  loaded fuel a (ok cfg) w =
      if cfg.order_service.internal_api_key == ""
      then some (1, w)
      else prepared fuel (flags_of a cfg) (prepare a cfg w)

  -- the exit status, and the database after it
  unfoldable pub command : ℕ → Arguments → m.World → Option (ℕ × m.World)
  unfolding prepare
  command fuel a w =
      if a.region == "" || eqb_ℤ a.year (pos 0) then some (2, w) else loaded fuel a load w
