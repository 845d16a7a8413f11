-- ===== src/Go/Strings/Trimming.antt =====
-- A text that trimming leaves as it is, and one that it has been applied to.
use Prim.Native.Char.{Char, code}
use quick_bite_analytics_ser.Prelude.{
  ℕ, String, ◌≡◌, refl, ap, ◌∙◌, Bool, false, Bool-cases, inl, inr,
}
use quick_bite_analytics_ser.Go.Strings.{trim_left, before, trim_right, trim}

module _ (p : ℕ → Bool) where
  -- The text is empty, or its first character stays.
  abbrev pub Starts : String → Type 0
  Starts String.[] = Unit
  Starts (String.◌∷◌ c s) = p (code c) ≡ false

  trim_left-Starts : (s : String) → Starts (trim_left p s)
  unfolding trim_left
  trim_left-Starts String.[] = tt
  trim_left-Starts (String.◌∷◌ c s) = elim (Bool-cases (p (code c))) [
    | inl out ↦ rw out (trim_left-Starts s)
    | inr stays ↦ rw stays stays
  ]

  trim_left-id : (s : String) → Starts s → trim_left p s ≡ s
  unfolding trim_left
  trim_left-id String.[] starts = refl
  trim_left-id (String.◌∷◌ c s) starts = rw starts refl

  before-Starts : (c : Char) (s : String) → p (code c) ≡ false → Starts (before p c s)
  unfolding before
  before-Starts c String.[] stays = rw stays stays
  before-Starts c (String.◌∷◌ d s) stays = stays

  trim_right-Starts : (s : String) → Starts s → Starts (trim_right p s)
  unfolding trim_right
  trim_right-Starts String.[] starts = tt
  trim_right-Starts (String.◌∷◌ c s) starts = before-Starts c (trim_right p s) starts

  trim_right-before :
      (c : Char) (s : String) → trim_right p s ≡ s → trim_right p (before p c s) ≡ before p c s
  unfolding trim_right before
  trim_right-before c String.[] same = elim (Bool-cases (p (code c))) [
    | inl out ↦ rw out refl
    | inr stays ↦ rw stays (rw stays refl)
  ]
  trim_right-before c (String.◌∷◌ d s) same = ap (before p c) same

  trim_right_idem : (s : String) → trim_right p (trim_right p s) ≡ trim_right p s
  unfolding trim_right
  trim_right_idem String.[] = refl
  trim_right_idem (String.◌∷◌ c s) = trim_right-before c (trim_right p s) (trim_right_idem s)

  pub trim_idem : (s : String) → trim p (trim p s) ≡ trim p s
  unfolding trim
  trim_idem s =
      ap (trim_right p) (trim_left-id _ (trim_right-Starts (trim_left p s) (trim_left-Starts s)))
      ∙ trim_right_idem (trim_left p s)
