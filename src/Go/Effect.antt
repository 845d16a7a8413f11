-- ===== src/Go/Effect.antt =====
-- A Go function that returns `(A, error)` and acts on the world outside: it takes the world and
-- gives back its result with the world that it leaves, on the error path too. Early
-- `return err` is `◌>>=◌`.
use quick_bite_analytics_ser.Prelude.{String, List, ◌≡◌, refl}
use quick_bite_analytics_ser.Errors.{Error, wrapped}

pub data Result {ℓ} (A : Type ℓ) : Type ℓ where
  ok : A → Result A
  fail : Error → Result A

abbrev pub Eff {ℓ} : Type ℓ → Type ℓ → Type ℓ
Eff W A = W → Result A × W

-- `if err != nil { return fmt.Errorf(format, operands…, err) }`
abbrev pub wrapping {ℓ} : {A : Type ℓ} → String → List String → Result A → Result A
wrapping format operands (ok a) = ok a
wrapping format operands (fail e) = fail (wrapped format operands e)

pub wrapping-ok {ℓ} :
    {A : Type ℓ} (format : String) (operands : List String) (r : Result A) {a : A}
    → wrapping format operands r ≡ ok a
    → r ≡ ok a
wrapping-ok format operands (ok x) h = h
wrapping-ok format operands (fail e) h = cc

module _ {ℓ} {W A : Type ℓ} where
  abbrev pub return : A → Eff W A
  return a w = (ok a, w)

  abbrev pub throw : Error → Eff W A
  throw e w = (fail e, w)

  -- a call that returns and changes nothing outside
  abbrev pub reads : (W → Result A) → Eff W A
  reads f w = (f w, w)

module _ {ℓ} {W A B : Type ℓ} where
  abbrev pub proceed : Result A → (A → Eff W B) → Eff W B
  proceed (ok a) f w = f a w
  proceed (fail e) f w = (fail e, w)

  infixl 5 ◌>>=◌ ◌>>◌
  abbrev pub ◌>>=◌ : Eff W A → (A → Eff W B) → Eff W B
  ◌>>=◌ m f w = proceed (m w).0 f (m w).1

  abbrev pub ◌>>◌ : Eff W A → Eff W B → Eff W B
  m >> n = m >>= λ _. n

  -- What a chain that returned has done: each part returned.
  pub proceed-eq-ok :
      (r : Result A) (f : A → Eff W B) (w : W) {b : B} {w' : W}
      → proceed r f w ≡ (ok b, w')
      → (a : A) × (r ≡ ok a) × (f a w ≡ (ok b, w'))
  proceed-eq-ok (ok a) f w h = (a, refl, h)
  proceed-eq-ok (fail e) f w h = cc
