-- ===== src/HttpClient/Rounds.antt =====
-- What one round of Do comes to, by the wait before it, the request and its answer.
use quick_bite_analytics_ser.Prelude.{
  ℕ, zero, suc, ◌-◌, ◌*◌, ◌^◌, ◌≤◌, ◌<◌, leb, pos_part, String, ◌==◌, ◌≡◌, refl, sym, ap, subst,
  true, false, Bool-cases, ◌⊎◌, inl, inr, Option, none, some, [], arith,
}
use quick_bite_analytics_ser.Errors.{Error, http_error, wrapped}
use quick_bite_analytics_ser.Go.Effect.{Result, ok, fail}
use quick_bite_analytics_ser.Go.Int64.{wrap_int64}
use quick_bite_analytics_ser.HttpClient.{
  Client, Outgoing, Exchange, no_response, broken_body, response, Net, Round, returns, again,
  backoff, decoded, judge, or_sent, unless_done, round,
}

-- A transport error, a body that breaks off or a status of 500 or more, and the error it is kept as.
abbrev pub Retried : Exchange → Error → Type 0
Retried (no_response x) e = e ≡ wrapped "httpclient: %w" [] x
Retried (broken_body x) e = e ≡ wrapped "httpclient: read body: %w" [] x
Retried (response code body) e = (500 ≤ code) × (e ≡ http_error code body)

abbrev pub Parsed : {A : Type 0} → Result A → Result (Option A) → Type 0
Parsed (ok a) r = r ≡ ok (some a)
Parsed (fail x) r = r ≡ fail (wrapped "httpclient: decode response: %w" [] x)

-- The result for an answer that is final: a status from 400 on is an error, and the body of any
-- other is read, unless it is empty.
abbrev pub Answered : {A : Type 0} → (String → Result A) → Exchange → Result (Option A) → Type 0
Answered decode (no_response x) r = ⊥
Answered decode (broken_body x) r = ⊥
Answered decode (response code body) r =
    ((400 ≤ code) × (code < 500) × (r ≡ fail (http_error code body)))
    ⊎ ((code < 400)
        × ((((body == "") ≡ true) × (r ≡ ok none))
            ⊎ (((body == "") ≡ false) × Parsed (decode body) r)))

module _ {W J A : Type 0} (net : Net W J) (c : Client) (decode : String → Result A)
    (out : Outgoing) where
  -- No wait before the first round; the base delay times 2^k before round k + 1, as an int64.
  abbrev pub Waits : ℕ → Option Error → W → W → Type 0
  Waits zero done w v = (done ≡ none) × (w ≡ v)
  Waits (suc k) done w v = net.wait (wrap_int64 (pos_part c.base_delay * 2 ^ k)) w ≡ (done, v)

  -- The round sends the request, and its answer is one to be tried again.
  abbrev pub Retries : ℕ → W → Error → W → Type 0
  Retries attempt w e v =
      (u : W) × Waits attempt none w u
      × (net.refused out.method out.url ≡ none)
      × Retried (net.exchange c out u).0 e
      × ((net.exchange c out u).1 ≡ v)

  -- The round decides the result: the context is done, the request cannot be built, or its answer is
  -- final.
  abbrev pub Settles : ℕ → W → Result (Option A) → W → Type 0
  Settles attempt w r v =
      ((e : Error) × Waits attempt (some e) w v × (r ≡ fail e))
      ⊎ (((e : Error) × Waits attempt none w v
            × (net.refused out.method out.url ≡ some e)
            × (r ≡ fail (wrapped "httpclient: build request: %w" [] e)))
          ⊎ ((u : W) × Waits attempt none w u
              × (net.refused out.method out.url ≡ none)
              × Answered decode (net.exchange c out u).0 r
              × ((net.exchange c out u).1 ≡ v)))

  abbrev Judged : Exchange → Round net c decode → Type 0
  Judged x (again e) = Retried x e
  Judged x (returns r) = Answered decode x r

  read-Parsed :
      (code : ℕ) (body : String)
      → code < 400
      → Answered decode (response code body) (decoded net c decode body)
  unfolding decoded
  read-Parsed code body low = elim (Bool-cases (body == "")) [
    | inl empty ↦ inr (low, inl (empty, rw empty refl))
    | inr there ↦ inr (low, inr (there, rw there (parsed (decode body))))
  ]
    where
      parsed :
          (r : Result A)
          → Parsed r (elim r [
            | ok a ↦ ok (some a)
            | fail e ↦ fail (wrapped "httpclient: decode response: %w" [] e)
          ])
      parsed (ok a) = refl
      parsed (fail e) = refl

  judge-Judged : (x : Exchange) → Judged x (judge net c decode x)
  unfolding judge
  judge-Judged (no_response e) = refl
  judge-Judged (broken_body e) = refl
  judge-Judged (response code body) = elim (Bool-cases (leb 500 code)) [
    | inl high ↦ rw high (ground (arith, high), refl)
    | inr low ↦ elim (Bool-cases (leb 400 code)) [
      | inl refused ↦ rw (low, refused) (inl (ground (arith, refused), ground (arith, low), refl))
      | inr fine ↦ rw (low, fine) (read-Parsed code body (ground (arith, fine)))
    ]
  ]

  abbrev pub Comes : ℕ → W → Round net c decode × W → Type 0
  Comes attempt w (again e, v) = Retries attempt w e v
  Comes attempt w (returns r, v) = Settles attempt w r v

  exchange-Comes :
      (attempt : ℕ) (w u v : W) (x : Exchange) (t : Round net c decode)
      → Waits attempt none w u
      → net.refused out.method out.url ≡ none
      → net.exchange c out u ≡ (x, v)
      → Judged x t
      → Comes attempt w (t, v)
  exchange-Comes attempt w u v x (again e) waits built sent how =
      (u, waits, built, subst (λ y. Retried y e) (sym (ap (λ p. p.0) sent)) how, ap (λ p. p.1) sent)
  exchange-Comes attempt w u v x (returns r) waits built sent how = inr (
      inr (
        u,
        waits,
        built,
        subst (λ y. Answered decode y r) (sym (ap (λ p. p.0) sent)) how,
        ap (λ p. p.1) sent,
      ))

  sent-Comes :
      (attempt : ℕ) (w u : W) (o : Option Error)
      → Waits attempt none w u
      → net.refused out.method out.url ≡ o
      → Comes attempt w (or_sent net c decode o out u)
  sent-Comes attempt w u none waits built =
      exchange-Comes attempt w u (net.exchange c out u).1 (net.exchange c out u).0 _ waits built
        refl (judge-Judged (net.exchange c out u).0)
  sent-Comes attempt w u (some e) waits refused = inr (inl (e, waits, refused, refl))

  waited-Comes :
      (attempt : ℕ) (w u : W) (o : Option Error)
      → Waits attempt o w u
      → Comes attempt w (unless_done net c decode o out u)
  waited-Comes attempt w u none waits =
      sent-Comes attempt w u (net.refused out.method out.url) waits refl
  waited-Comes attempt w u (some e) waits = inl (e, waits, refl)

  backoff_doubles :
      (k : ℕ) → backoff net c decode (suc k) ≡ wrap_int64 (pos_part c.base_delay * 2 ^ k)
  unfolding backoff
  backoff_doubles k = let same : suc k - 1 ≡ k = omega arith in rw same refl

  round-Comes : (attempt : ℕ) (w : W) → Comes attempt w (round net c decode attempt out w)
  unfolding round
  round-Comes zero w = waited-Comes zero w w none (refl, refl)
  round-Comes (suc k) w =
      let d = backoff net c decode (suc k) in
      waited-Comes (suc k) w (net.wait d w).1 (net.wait d w).0
        (ap (λ d. net.wait d w) (sym (backoff_doubles k)))

  pub round-Retries :
      (attempt : ℕ) (w v : W) (e : Error)
      → round net c decode attempt out w ≡ (again e, v)
      → Retries attempt w e v
  round-Retries attempt w v e is = subst (Comes attempt w) is (round-Comes attempt w)

  pub round-Settles :
      (attempt : ℕ) (w v : W) (r : Result (Option A))
      → round net c decode attempt out w ≡ (returns r, v)
      → Settles attempt w r v
  round-Settles attempt w v r is = subst (Comes attempt w) is (round-Comes attempt w)
