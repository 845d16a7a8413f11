-- ===== src/HttpClient/Attempts.antt =====
-- The rounds that Do runs.
use quick_bite_analytics_ser.Prelude.{ℕ, zero, suc, ◌+◌, ◌<◌, ◌≡◌, ◌⊎◌, String, Option, none, some}
use quick_bite_analytics_ser.Errors.{Error}
use quick_bite_analytics_ser.Go.Effect.{Result}
use quick_bite_analytics_ser.HttpClient.Rounds.{Retries, Settles}
use quick_bite_analytics_ser.HttpClient.{Client, Outgoing, Net, returns, round, rounds, last_error}

module _ {W J A : Type 0} (net : Net W J) (c : Client) (decode : String → Result A)
    (out : Outgoing) where
  -- `k` rounds from round `attempt` on that are each tried again, and the lastErr and the world after them.
  abbrev pub GoesOn : ℕ → ℕ → Option Error → W → Option Error → W → Type 0
  GoesOn zero attempt last w last' w' = (last ≡ last') × (w ≡ w')
  GoesOn (suc k) attempt last w last' w' =
      (e : Error) × (v : W) × Retries net c decode out attempt w e v
      × GoesOn k (suc attempt) (some e) v last' w'

  -- How a run of `left` rounds ends: after `k` that go on, either none is left, or the next returns.
  pub record Ends (left attempt : ℕ) (last : Option Error) (w : W) : Type 0 where
    pub gone : ℕ
    pub last_err : Option Error
    pub at : W
    pub goes_on : GoesOn gone attempt last w last_err at
    pub end :
        ((gone ≡ left)
          × (rounds net c decode left attempt last out w ≡ (last_error net c decode last_err, at)))
        ⊎ ((gone < left)
            × ((r : Result (Option A)) × (v : W) × (round net c decode (attempt + gone) out at
                  ≡ (returns r, v))
                × (rounds net c decode left attempt last out w ≡ (r, v))))

module _ {W J A : Type 0} (net : Net W J) (c : Client) (decode : String → Result A) where
  -- How the rounds of a request come out: all of them are tried again, and the error of the last is
  -- returned; or the one after some that are tried again settles the result.
  abbrev pub Outcome : Outgoing → ℕ → W → Result (Option A) × W → Type 0
  Outcome out limit w t =
      (k : ℕ) × (last : Option Error) × (v : W) × GoesOn net c decode out k 0 none w last v
      × (((k ≡ limit) × (t ≡ (last_error net c decode last, v)))
          ⊎ ((k < limit)
              × ((r : Result (Option A)) × (u : W) × Settles net c decode out k v r u
                  × (t ≡ (r, u)))))
