-- ===== src/Config/Lists.antt =====
-- A list of values in one variable, joined by commas.
use Prim.Native.Char.{Char, code}
use text.Mathlib.TextLemmas.{nil-append, cons-append}
use quick_bite_analytics_ser.Prelude.{
  ℕ, eqb, String, ◌==◌, ◌<>◌, ◌≡◌, refl, ap, ◌∙◌, Bool, false, Bool-cases, inl, inr, List, [], ◌∷◌,
  All,
}
use quick_bite_analytics_ser.Go.Strings.{
  is_space, trim_left, before, trim_right, trim, trim_space, split, prepend,
}
use quick_bite_analytics_ser.Go.Strings.Trimming.{trim_idem}
use quick_bite_analytics_ser.Config.{trimmed, split_trim}

-- The text has no comma.
abbrev pub NoComma : String → Type 0
NoComma String.[] = Unit
NoComma (String.◌∷◌ c s) = (eqb (code c) b',' ≡ false) × NoComma s

-- strings.Join(values, ",")
unfoldable pub join : List String → String
join [] = ""
join (v ∷ []) = v
join (v ∷ u ∷ values) = v <> ("," <> join (u ∷ values))

-- A value that stands for itself in such a list.
abbrev pub Plain : String → Type 0
Plain v = NoComma v × (trim_space v ≡ v) × ((v == "") ≡ false)

split-NoComma : (v : String) → NoComma v → split b',' v ≡ v ∷ []
unfolding split
split-NoComma String.[] plain = refl
split-NoComma (String.◌∷◌ c v) (here, rest) = rw here (ap (prepend b',' c) (split-NoComma v rest))

split_comma : (v s : String) → NoComma v → split b',' (v <> ("," <> s)) ≡ v ∷ split b',' s
unfolding split
split_comma String.[] s plain =
    let joined : "" <> ("," <> s) ≡ "," <> s = nil-append ("," <> s) in
    let comma : "," <> s ≡ String.◌∷◌ "," s =
      cons-append "," "" s ∙ ap (String.◌∷◌ ",") (nil-append s) in
    ap (split b',') (joined ∙ comma)
split_comma (String.◌∷◌ c v) s (here, rest) =
    ap (split b',') (cons-append c v ("," <> s))
    ∙ rw here (ap (prepend b',' c) (split_comma v s rest))

split-join :
    (v : String) (values : List String)
    → All Plain (v ∷ values)
    → split b',' (join (v ∷ values)) ≡ v ∷ values
unfolding join
split-join v [] ((plain, _, _), _) = split-NoComma v plain
split-join v (u ∷ values) ((plain, _, _), rest) =
    split_comma v (join (u ∷ values)) plain ∙ ap (λ l. v ∷ l) (split-join u values rest)

trimmed-Plain : (values : List String) → All Plain values → trimmed values ≡ values
unfolding trimmed
trimmed-Plain [] plain = refl
trimmed-Plain (v ∷ values) ((_, same, some_text), rest) =
    rw (same, some_text) (ap (λ l. v ∷ l) (trimmed-Plain values rest))

-- The values of a list, none of which is empty, has a comma or has space around it, are what splitTrim
-- reads back from their join with commas.
pub split_trim-join : (values : List String) → All Plain values → split_trim (join values) ≡ values
unfolding split_trim join
split_trim-join [] plain = unfold split trimmed trim in refl
split_trim-join (v ∷ values) plain =
    ap trimmed (split-join v values plain) ∙ trimmed-Plain (v ∷ values) plain

module _ (p : ℕ → Bool) where
  trim_left-NoComma : (s : String) → NoComma s → NoComma (trim_left p s)
  unfolding trim_left
  trim_left-NoComma String.[] plain = tt
  trim_left-NoComma (String.◌∷◌ c s) (here, rest) = elim (Bool-cases (p (code c))) [
    | inl out ↦ rw out (trim_left-NoComma s rest)
    | inr stays ↦ rw stays (here, rest)
  ]

  before-NoComma :
      (c : Char) (s : String) → eqb (code c) b',' ≡ false → NoComma s → NoComma (before p c s)
  unfolding before
  before-NoComma c String.[] here rest = elim (Bool-cases (p (code c))) [
    | inl out ↦ rw out tt
    | inr stays ↦ rw stays (here, tt)
  ]
  before-NoComma c (String.◌∷◌ d s) here rest = (here, rest)

  trim_right-NoComma : (s : String) → NoComma s → NoComma (trim_right p s)
  unfolding trim_right
  trim_right-NoComma String.[] plain = tt
  trim_right-NoComma (String.◌∷◌ c s) (here, rest) =
      before-NoComma c (trim_right p s) here (trim_right-NoComma s rest)

prepend-NoComma :
    (c : Char) (parts : List String)
    → eqb (code c) b',' ≡ false
    → All NoComma parts
    → All NoComma (prepend b',' c parts)
prepend-NoComma c [] here plain = ((here, tt), tt)
prepend-NoComma c (part ∷ parts) here (first, rest) = ((here, first), rest)

split-All : (s : String) → All NoComma (split b',' s)
unfolding split
split-All String.[] = (tt, tt)
split-All (String.◌∷◌ c s) = elim (Bool-cases (eqb (code c) b',')) [
  | inl comma ↦ rw comma (tt, split-All s)
  | inr other ↦ rw other (prepend-NoComma c (split b',' s) other (split-All s))
]

trimmed-All : (parts : List String) → All NoComma parts → All Plain (trimmed parts)
unfolding trimmed
trimmed-All [] plain = tt
trimmed-All (v ∷ parts) (here, rest) = elim (Bool-cases (trim_space v == "")) [
  | inl blank ↦ rw blank (trimmed-All parts rest)
  | inr text ↦ rw text (
    (
      unfold trim in trim_right-NoComma is_space _ (trim_left-NoComma is_space v here),
      trim_idem is_space v,
      text,
    ),
    trimmed-All parts rest,
  )
]

-- Whatever text splitTrim is given, joining its values with commas and reading them again gives the
-- same values: none of them is empty, has a comma, or has space around it.
pub split_trim_idem :
    (raw : String)
    → All Plain (split_trim raw) × (split_trim (join (split_trim raw)) ≡ split_trim raw)
unfolding split_trim
split_trim_idem raw =
    let plain = trimmed-All (split b',' raw) (split-All raw) in
    (plain, split_trim-join (split_trim raw) plain)
