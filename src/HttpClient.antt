-- ===== src/HttpClient.antt =====
-- pkg/httpclient/client.go. net/http, the context and encoding/json are parameters: a `Net` builds
-- and sends a request, waits, and reads the clock of the context in a world `W`.
pub mod Rounds
pub mod Attempts
pub mod Bounds
use quick_bite_analytics_ser.Prelude.{
  ℕ, zero, suc, ◌-◌, ◌*◌, ◌^◌, ℤ, pos, pos_part, ltb_ℤ, leb, String, ◌==◌, Bool, true, false,
  Option, none, some, List, [], ◌∷◌, if◌then◌else◌,
}
use quick_bite_analytics_ser.Errors.{Error, http_error, wrapped}
use quick_bite_analytics_ser.Go.Effect.{Eff, Result, ok, fail}
use quick_bite_analytics_ser.Go.Int64.{wrap_int64, succ_int64}

pub record Client : Type 0 where
  pub timeout : ℤ
  pub max_retries : ℤ
  pub base_delay : ℤ

pub record Config : Type 0 where
  pub timeout : ℤ
  pub max_retries : ℤ
  pub base_delay : ℤ

-- if d <= 0 { d = fallback }
abbrev pub or_default : ℤ → ℤ → ℤ
or_default d fallback = if ltb_ℤ (pos 0) d then d else fallback

unfoldable pub new_client : Config → Client
new_client cfg = record {
  timeout = or_default cfg.timeout (pos (5 * 10 ^ 9));
  max_retries = cfg.max_retries;
  base_delay = or_default cfg.base_delay (pos (50 * 10 ^ 6));
}

-- `J` is the type of a body before json.Marshal
pub record Request (J : Type 0) : Type 0 where
  pub method : String
  pub url : String
  pub headers : List (String × String)
  pub body : Option J

-- what http.NewRequestWithContext takes, with the headers that are set on it
pub record Outgoing : Type 0 where
  pub method : String
  pub url : String
  pub headers : List (String × String)
  pub body : Option String

-- http.Client.Do and io.ReadAll: no response, a body that breaks off, or a response
pub data Exchange : Type 0 where
  no_response : Error → Exchange
  broken_body : Error → Exchange
  response : ℕ → String → Exchange

pub record Net (W J : Type 0) : Type 1 where
  pub marshal : J → Result String
  -- whether http.NewRequestWithContext refuses the method or the URL
  pub refused : String → String → Option Error
  pub exchange : Client → Outgoing → W → Exchange × W
  -- select on ctx.Done() and time.After(d): the context's error, if it is done first
  pub wait : ℤ → W → Option Error × W

module _ {W J A : Type 0} (net : Net W J) (c : Client) (decode : String → Result A) where
  -- c.baseDelay * time.Duration(1<<uint(attempt-1)), for attempt > 0
  unfoldable pub backoff : ℕ → ℤ
  backoff attempt = wrap_int64 (pos_part c.base_delay * 2 ^ (attempt - 1))

  -- what one round of the loop decides: to return, or to go on with this lastErr
  pub data Round : Type 0 where
    returns : Result (Option A) → Round
    again : Error → Round

  -- if out != nil && len(respBody) > 0 { json.Unmarshal }; `none` leaves `out` as it was
  unfoldable pub decoded : String → Result (Option A)
  decoded resp_body = if resp_body == "" then ok none else elim (decode resp_body) [
    | ok a ↦ ok (some a)
    | fail e ↦ fail (wrapped "httpclient: decode response: %w" [] e)
  ]

  unfoldable pub judge : Exchange → Round
  unfolding decoded
  judge (no_response e) = again (wrapped "httpclient: %w" [] e)
  judge (broken_body e) = again (wrapped "httpclient: read body: %w" [] e)
  judge (response status_code resp_body) =
      if leb 500 status_code
      then again (http_error status_code resp_body)
      else if leb 400 status_code
      then returns (fail (http_error status_code resp_body))
      else returns (decoded resp_body)

  abbrev pub or_sent : Option Error → Outgoing → W → Round × W
  or_sent (some e) out w = (returns (fail (wrapped "httpclient: build request: %w" [] e)), w)
  or_sent none out w = let (x, w') = net.exchange c out w in (judge x, w')

  abbrev pub unless_done : Option Error → Outgoing → W → Round × W
  unless_done (some e) out w = (returns (fail e), w)
  unless_done none out w = or_sent (net.refused out.method out.url) out w

  -- one round: the wait, if it is not the first, and the request
  unfoldable pub round : ℕ → Outgoing → W → Round × W
  unfolding backoff judge
  round zero out w = unless_done none out w
  round (suc k) out w = let (done, w') = net.wait (backoff (suc k)) w in unless_done done out w'

  -- return lastErr, which is nil if no round was run
  abbrev pub last_error : Option Error → Result (Option A)
  last_error none = ok none
  last_error (some e) = fail e

  -- return, or continue with the next round
  abbrev pub go_on : Round × W → (Error → W → Result (Option A) × W) → Result (Option A) × W
  go_on (returns r, w) next = (r, w)
  go_on (again e, w) next = next e w

  -- the loop, with the number of rounds that are left, `attempt` and `lastErr`
  unfoldable pub rounds : ℕ → ℕ → Option Error → Outgoing → Eff W (Option A)
  unfolding round
  rounds zero attempt last out w = (last_error last, w)
  rounds (suc left) attempt last out w =
      go_on (round attempt out w) (λ e v. rounds left (suc attempt) (some e) out v)

  abbrev pub outgoing : Request J → Option String → Outgoing
  outgoing req none = record {
    method = req.method;
    url = req.url;
    headers = req.headers;
    body = none;
  }
  outgoing req (some b) = record {
    method = req.method;
    url = req.url;
    headers = ("Content-Type", "application/json") ∷ req.headers;
    body = some b;
  }

  -- attempts := c.maxRetries + 1 on Go's int; none if that is 0 or less
  abbrev pub attempts : ℕ
  attempts = pos_part (succ_int64 c.max_retries)

  abbrev pub marshalled : Request J → Option (Result String)
  marshalled req = elim req.body [ none ↦ none | some j ↦ some (net.marshal j) ]

  abbrev pub send : Request J → Option (Result String) → Eff W (Option A)
  send req none w = rounds attempts 0 none (outgoing req none) w
  send req (some (ok b)) w = rounds attempts 0 none (outgoing req (some b)) w
  send req (some (fail e)) w = (fail (wrapped "httpclient: marshal body: %w" [] e), w)

  unfoldable pub do_request : Request J → Eff W (Option A)
  unfolding rounds
  do_request req = send req (marshalled req)
