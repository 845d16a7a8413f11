-- ===== src/HttpClient/Bounds.antt =====
-- How often Do sends, and how long it waits.
use quick_bite_analytics_ser.Prelude.{
  ℕ, zero, suc, ◌+◌, ◌-◌, ◌*◌, ◌^◌, ◌≤◌, ◌<◌, ◌≡◌, refl, ℤ, pos, ◌<ℤ◌, pos_part, ◌+ℤ◌, String,
  Option, none, some, arith, eqb_ℤ, Bool-cases, inl, inr,
}
use quick_bite_analytics_ser.Errors.{Error}
use quick_bite_analytics_ser.Go.Effect.{Result, ok, fail}
use quick_bite_analytics_ser.Go.Int64.{int64_limit, int64_max, wrap_int64, succ_int64}
use quick_bite_analytics_ser.HttpClient.{
  Client, Request, Outgoing, Net, Round, returns, again, round, rounds, attempts, send, marshalled,
  do_request, go_on, backoff, unless_done, or_sent,
}

module _ {W J A : Type 0} (net : Net W J) (c : Client) (decode : String → Result A) (sent : W → ℕ)
    (one_more : (out : Outgoing) (w : W) → sent (net.exchange c out w).1 ≤ suc (sent w))
    (quiet : (d : ℤ) (w : W) → sent (net.wait d w).1 ≡ sent w) where
  or_sent_bound :
      (o : Option Error) (out : Outgoing) (w : W)
      → sent (or_sent net c decode o out w).1 ≤ suc (sent w)
  or_sent_bound none out w = one_more out w
  or_sent_bound (some e) out w = omega arith

  unless_done_bound :
      (o : Option Error) (out : Outgoing) (w : W)
      → sent (unless_done net c decode o out w).1 ≤ suc (sent w)
  unless_done_bound none out w = or_sent_bound (net.refused out.method out.url) out w
  unless_done_bound (some e) out w = omega arith

  round_bound :
      (attempt : ℕ) (out : Outgoing) (w : W)
      → sent (round net c decode attempt out w).1 ≤ suc (sent w)
  unfolding round
  round_bound zero out w = unless_done_bound none out w
  round_bound (suc k) out w = omega (
    arith,
    unless_done_bound (net.wait (backoff net c decode (suc k)) w).0 out
        (net.wait (backoff net c decode (suc k)) w).1,
    quiet (backoff net c decode (suc k)) w,
  )

  go_on_bound :
      (left n : ℕ) (t : Round net c decode × W) (next : Error → W → Result (Option A) × W)
      → sent t.1 ≤ n
      → ((e : Error) (v : W) → sent (next e v).1 ≤ sent v + left)
      → sent (go_on net c decode t next).1 ≤ n + left
  go_on_bound left n (returns r, v) next h later = omega (arith, h)
  go_on_bound left n (again e, v) next h later = omega (arith, h, later e v)

  rounds_bound :
      (left attempt : ℕ) (last : Option Error) (out : Outgoing) (w : W)
      → sent (rounds net c decode left attempt last out w).1 ≤ sent w + left
  unfolding rounds
  rounds_bound zero attempt last out w = omega arith
  rounds_bound (suc left) attempt last out w = omega (
    arith,
    go_on_bound left (suc (sent w)) (round net c decode attempt out w)
        (λ e v. rounds net c decode left (suc attempt) (some e) out v) (round_bound attempt out w)
        (λ e v. rounds_bound left (suc attempt) (some e) out v),
  )

  send_bound :
      (req : Request J) (b : Option (Result String)) (w : W)
      → sent (send net c decode req b w).1 ≤ sent w + attempts net c decode
  send_bound req none w = rounds_bound _ 0 none _ w
  send_bound req (some (ok b)) w = rounds_bound _ 0 none _ w
  send_bound req (some (fail e)) w = omega arith

  pub attempts_bound : attempts net c decode ≤ pos_part (c.max_retries +ℤ pos 1)
  unfolding succ_int64
  attempts_bound = elim (Bool-cases (eqb_ℤ c.max_retries int64_max)) [
    | inl wraps ↦ rw wraps (omega arith)
    | inr small ↦ rw small (omega arith)
  ]

  -- Do sends at most maxRetries + 1 requests, and none if maxRetries is negative: for every count of
  -- the world that one exchange raises by at most one and that waiting does not change.
  pub do_request_bound :
      (req : Request J) (w : W)
      → sent (do_request net c decode req w).1 ≤ sent w + pos_part (c.max_retries +ℤ pos 1)
  unfolding do_request
  do_request_bound req w =
      omega (arith, attempts_bound, send_bound req (marshalled net c decode req) w)

none_left_of : (n : ℤ) → n <ℤ pos 0 → pos_part (succ_int64 n) ≡ 0
unfolding ◌+ℤ◌ succ_int64
none_left_of n h = ground arith

wrap_int64_small : (n : ℕ) → n < int64_limit → wrap_int64 n ≡ pos n
unfolding wrap_int64
wrap_int64_small n h = ground arith

module _ {W J A : Type 0} (net : Net W J) (c : Client) (decode : String → Result A) where
  -- With a negative maxRetries, Do of a request with no body returns nil at once: it sends nothing,
  -- reports no error, and leaves the output as it was.
  pub do_request-negative :
      (req : Request J) (w : W)
      → req.body ≡ none
      → c.max_retries <ℤ pos 0
      → do_request net c decode req w ≡ (ok none, w)
  unfolding do_request rounds
  do_request-negative req w bare negative =
      let none_left : attempts net c decode ≡ 0 = none_left_of c.max_retries negative in
      rw (bare, none_left) refl

  -- The wait before round k + 1 is the base delay times 2^k, as long as that is an int64.
  backoff_exact :
      (k : ℕ)
      → pos_part c.base_delay * 2 ^ k < int64_limit
      → backoff net c decode (suc k) ≡ pos (pos_part c.base_delay * 2 ^ k)
  unfolding backoff
  backoff_exact k small =
      let same : suc k - 1 ≡ k = omega arith in rw same (wrap_int64_small _ small)
