-- ===== src/MongoClient.antt =====
-- pkg/mongo/client.go, with the driver's Connect, Ping, Database and Disconnect as parameters.
use quick_bite_analytics_ser.Prelude.{
  ℤ, pos, ◌^◌, ◌*◌, ltb_ℤ, String, Option, none, some, [], if◌then◌else◌,
}
use quick_bite_analytics_ser.Go.Effect.{wrapping, Eff, ok, return, ◌>>=◌, ◌>>◌}

pub record MongoConfig : Type 0 where
  pub uri : String
  pub database : String
  pub connect_timeout : ℤ

pub record MongoDriver (W Client Database : Type 0) : Type 0 where
  pub connect : ℤ → String → Eff W Client
  pub ping : ℤ → Client → Eff W Unit
  pub database : Client → String → Database
  pub disconnect : Client → Eff W Unit

module _ {W Client Database : Type 0} (driver : MongoDriver W Client Database) where
  abbrev pub failing : {A : Type 0} → String → Eff W A → Eff W A
  failing format call w = let (r, w') = call w in (wrapping format [] r, w')

  -- if timeout <= 0 { timeout = 10 * time.Second }
  abbrev pub timeout_of : MongoConfig → ℤ
  timeout_of cfg =
      if ltb_ℤ (pos 0) cfg.connect_timeout then cfg.connect_timeout else pos (10 * 10 ^ 9)

  unfoldable pub connect : MongoConfig → Eff W (Client × Database)
  connect cfg = do
    client ← failing "mongo connect: %w" (driver.connect (timeout_of cfg) cfg.uri)
    failing "mongo ping: %w" (driver.ping (timeout_of cfg) client)
    return (client, driver.database client cfg.database)

  unfoldable pub disconnect : Option Client → Eff W Unit
  disconnect none w = (ok tt, w)
  disconnect (some client) w = driver.disconnect client w
