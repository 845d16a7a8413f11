-- ===== src/Backfill/Command/Completed.antt =====
-- What main of cmd/backfill-aggs/main.go has done when it exits with 0.
use quick_bite_analytics_ser.Prelude.{
  ℕ, ℤ, pos, eqb_ℤ, String, ◌==◌, ◌≡◌, refl, Bool, true, false, ◌||◌, Bool-cases, Option-cases, sym,
  ap₂, ap, ◌∙◌, ◌⊎◌, inl, inr, Option, none, some, [], arith, ltb,
}
use quick_bite_analytics_ser.Go.Effect.{Result, ok, fail, Eff, wrapping, proceed, return, ◌>>◌}
use quick_bite_analytics_ser.Go.Time.{Time}
use quick_bite_analytics_ser.Mongo.Driver.{Mongo}
use quick_bite_analytics_ser.HttpClient.{Net}
use quick_bite_analytics_ser.Config
use quick_bite_analytics_ser.MongoClient
use quick_bite_analytics_ser.MongoClient.{MongoDriver}
use quick_bite_analytics_ser.Boot.{mongo_config}
use quick_bite_analytics_ser.Backfill.{Formats, Counts, no_counts, backfill, exit_status}
use quick_bite_analytics_ser.Backfill.Command.{
  Arguments, flags_of, prepare, finished, prepared, loaded, command,
}

module _ {J Client Database : Type 0} (m : Mongo) (net : Net m.World J) (day : Time → String)
    (formats : Formats) (driver : MongoDriver m.World Client Database)
    (ensure_indexes : Database → ℤ → ℤ → Eff m.World Unit) (load : Result Config.Config) where
  none_failed :
      (r : Result Counts)
      → ltb 0 (exit_status r) ≡ false
      → (c : Counts) × (r ≡ ok c) × (c.failed ≡ 0)
  none_failed (fail e) h = cc
  none_failed (ok c) h = (c, refl, ground arith)

  some_injective : {A : Type 0} (x y : A) → some x ≡ some y → x ≡ y
  some_injective x y e = cc

  finished_lem :
      (client : Option Client) (r : Result Counts) (w w' : m.World)
      → finished m net day formats driver ensure_indexes load client (r, w) ≡ (0, w')
      → (c : Counts) × (r ≡ ok c)
        × (c.failed ≡ 0)
        × (w' ≡ (MongoClient.disconnect driver client w).1)
  finished_lem client r w w' h = elim (Bool-cases (ltb 0 (exit_status r))) [
    | inl bad ↦
        let status : exit_status r ≡ 0 = ap (λ p. p.0) (rw bad at h) in
        absurd (ground (arith, status, bad))
    | inr good ↦
        let (c, is, clean) = none_failed r good in
        (c, is, clean, sym (ap (λ p. p.1) (rw good at h)))
  ]

  -- Nothing is connected on a dry run; else the client is, to the database of the configuration, and
  -- its indexes are there.
  abbrev pub Prepared : Arguments → Config.Config → m.World → Option Client → m.World → Type 0
  Prepared a cfg w client w' =
      ((a.dry_run ≡ true) × (client ≡ none) × (w' ≡ w))
      ⊎ ((a.dry_run ≡ false)
          × ((connected : Client × Database) × (v : m.World) × (MongoClient.connect driver
                  (mongo_config cfg) w
                ≡ (ok connected, v))
              × (ensure_indexes connected.1 cfg.event_dedupe_ttl cfg.order_context_ttl v
                  ≡ (ok tt, w'))
              × (client ≡ some connected.0)))

  abbrev indexed : Config.Config → Client × Database → Eff m.World (Option Client)
  indexed cfg connected = do
    (λ w.
        let (r, w') = ensure_indexes connected.1 cfg.event_dedupe_ttl cfg.order_context_ttl w in
        (wrapping "ensure indexes: %w" [] r, w'))
    return (some connected.0)

  indexed_lem :
      (connected : Client × Database) (r : Result (Unit {0})) (v w' : m.World)
      (client : Option Client)
      → proceed (wrapping "ensure indexes: %w" [] r) (λ _. return (some connected.0)) v
        ≡ (ok client, w')
      → (r ≡ ok tt) × (v ≡ w') × (client ≡ some connected.0)
  indexed_lem connected (ok _) v w' client h = (refl, ap (λ p. p.1) h, cc)
  indexed_lem connected (fail e) v w' client h = cc

  connected_lem :
      (a : Arguments) (cfg : Config.Config) (r : Result (Client × Database)) (w v w' : m.World)
      (client : Option Client)
      → a.dry_run ≡ false
      → MongoClient.connect driver (mongo_config cfg) w ≡ (r, v)
      → proceed (wrapping "mongo connect: %w" [] r) (indexed cfg) v ≡ (ok client, w')
      → Prepared a cfg w client w'
  connected_lem a cfg (fail e) w v w' client wet is h = cc
  connected_lem a cfg (ok connected) w v w' client wet is h =
      let t = ensure_indexes connected.1 cfg.event_dedupe_ttl cfg.order_context_ttl v in
      let (indexes, same, given) = indexed_lem connected t.0 t.1 w' client h in
      let both : ◌≡◌ {A = Result (Unit {0}) × m.World} (t.0, t.1) (ok tt, w') =
        ap₂ (λ x y. (x, y)) indexes same in
      inr (wet, (connected, v, is, both, given))

  prepare_lem :
      (a : Arguments) (cfg : Config.Config) (w w' : m.World) (client : Option Client)
      → prepare m net day formats driver ensure_indexes load a cfg w ≡ (ok client, w')
      → Prepared a cfg w client w'
  unfolding prepare
  prepare_lem a cfg w w' client h = elim (Bool-cases a.dry_run) [
    | inl dry ↦
        let same : ◌≡◌ {A = Result (Option Client) × m.World} (ok none, w) (ok client, w') =
          rw dry at h in
        inl (dry, cc, sym (ap (λ p. p.1) same))
    | inr wet ↦
        let t = MongoClient.connect driver (mongo_config cfg) w in
        connected_lem a cfg t.0 w t.1 w' client wet refl (rw wet at h)
  ]

  -- What the command has done with a configuration, when it exits with 0.
  abbrev pub Completed : ℕ → Arguments → Config.Config → m.World → m.World → Type 0
  Completed fuel a cfg w w' =
      (client : Option Client) × (c : Counts) × (w₁ w₂ : m.World) × Prepared a cfg w client w₁
      × (backfill m net day formats (flags_of a cfg) fuel "" no_counts w₁ ≡ some (ok c, w₂))
      × (c.failed ≡ 0)
      × (w' ≡ (MongoClient.disconnect driver client w₂).1)

  prepared_lem :
      (fuel : ℕ) (a : Arguments) (cfg : Config.Config) (w w' : m.World)
      (p : Result (Option Client) × m.World)
      → prepare m net day formats driver ensure_indexes load a cfg w ≡ p
      → prepared m net day formats driver ensure_indexes load fuel (flags_of a cfg) p ≡ some (0, w')
      → Completed fuel a cfg w w'
  prepared_lem fuel a cfg w w' (fail e, v) is h =
      let status : ◌≡◌ {A = ℕ} 1 0 = ap (λ p. p.0) (some_injective _ _ h) in absurd (omega arith)
  prepared_lem fuel a cfg w w' (ok client, v) is h =
      elim (Option-cases (backfill m net day formats (flags_of a cfg) fuel "" no_counts v)) [
        | inl stuck ↦ cc (rw (stuck, prepared) at h)
        | inr (done, ran) ↦
            let (c, good, clean, left) =
              finished_lem client done.0 done.1 w' (some_injective _ _ (rw (ran, prepared) at h)) in
            (
              client,
              c,
              v,
              done.1,
              prepare_lem a cfg w v client is,
              ran ∙ ap (λ r. some (r, done.1)) good,
              clean,
              left,
            )
      ]

  loaded_lem :
      (fuel : ℕ) (a : Arguments) (r : Result Config.Config) (w w' : m.World)
      → loaded m net day formats driver ensure_indexes load fuel a r w ≡ some (0, w')
      → (cfg : Config.Config) × (r ≡ ok cfg)
        × ((cfg.order_service.internal_api_key == "") ≡ false)
        × Completed fuel a cfg w w'
  loaded_lem fuel a (fail e) w w' h =
      let status : ◌≡◌ {A = ℕ} 2 0 = ap (λ p. p.0) (some_injective _ _ h) in absurd (omega arith)
  loaded_lem fuel a (ok cfg) w w' h = elim (Bool-cases (cfg.order_service.internal_api_key == "")) [
    | inl unset ↦
        let status : ◌≡◌ {A = ℕ} 1 0 = ap (λ p. p.0) (some_injective _ _ (rw unset at h)) in
        absurd (omega arith)
    | inr given ↦ (
      cfg,
      refl,
      given,
      prepared_lem fuel a cfg w w' (prepare m net day formats driver ensure_indexes load a cfg w)
          refl (rw given at h),
    )
  ]

  neither : (p q : Bool) → (p || q) ≡ false → (p ≡ false) × (q ≡ false)
  neither false q h = (refl, h)
  neither true q h = cc

  -- The command exits with 0 only for a region and a year, with a configuration that has the key of
  -- order-service, after the database was connected and EnsureIndexes of it succeeded (on a dry run:
  -- with no database), and the loop over the pages ended with no failed order; it disconnects the
  -- database then.
  pub command-Completed :
      (fuel : ℕ) (a : Arguments) (w w' : m.World)
      → command m net day formats driver ensure_indexes load fuel a w ≡ some (0, w')
      → ((a.region == "") ≡ false)
        × (eqb_ℤ a.year (pos 0) ≡ false)
        × ((cfg : Config.Config) × (load ≡ ok cfg)
            × ((cfg.order_service.internal_api_key == "") ≡ false)
            × Completed fuel a cfg w w')
  unfolding command
  command-Completed fuel a w w' h = elim (Bool-cases (a.region == "" || eqb_ℤ a.year (pos 0))) [
    | inl usage ↦
        let status : ◌≡◌ {A = ℕ} 2 0 = ap (λ p. p.0) (some_injective _ _ (rw usage at h)) in
        absurd (omega arith)
    | inr given ↦
        let (region, year) = neither (a.region == "") (eqb_ℤ a.year (pos 0)) given in
        (region, year, loaded_lem fuel a load w w' (rw given at h))
  ]
