-- ===== src/Go/Strings.antt =====
-- The functions of Go's strings package that the service uses, on texts of valid UTF-8.
pub mod Trimming
use Prim.Native.Char.{Char, code}
use Prim.Native.String
use quick_bite_analytics_ser.Prelude.{
  ℕ, leb, eqb, String, ◌==◌, Bool, true, false, ◌&&◌, ◌||◌, Option, none, some, List, [], ◌∷◌,
  if◌then◌else◌,
}

-- unicode.IsSpace
unfoldable pub is_space : ℕ → Bool
is_space c =
    (leb 9 c && leb c 13)
    || eqb c 32
    || eqb c 133
    || eqb c 160
    || eqb c 5760
    || (leb 8192 c && leb c 8202)
    || eqb c 8232
    || eqb c 8233
    || eqb c 8239
    || eqb c 8287
    || eqb c 12288

module _ (p : ℕ → Bool) where
  -- strings.TrimLeftFunc
  unfoldable pub trim_left : String → String
  trim_left String.[] = ""
  trim_left (String.◌∷◌ c s) = if p (code c) then trim_left s else String.◌∷◌ c s

  -- c before a rest that is trimmed already
  unfoldable pub before : Char → String → String
  before c String.[] = if p (code c) then "" else String.◌∷◌ c ""
  before c (String.◌∷◌ d s) = String.◌∷◌ c (String.◌∷◌ d s)

  -- strings.TrimRightFunc
  unfoldable pub trim_right : String → String
  unfolding before
  trim_right String.[] = ""
  trim_right (String.◌∷◌ c s) = before c (trim_right s)

  -- strings.TrimFunc
  unfoldable pub trim : String → String
  unfolding trim_left trim_right
  trim s = trim_right (trim_left s)

-- strings.TrimSpace
abbrev pub trim_space : String → String
trim_space s = trim is_space s

-- strings.TrimPrefix, and strings.HasPrefix: what is left after the prefix
unfoldable pub cut_prefix : String → String → Option String
cut_prefix String.[] s = some s
cut_prefix (String.◌∷◌ d t) String.[] = none
cut_prefix (String.◌∷◌ d t) (String.◌∷◌ c s) =
    if eqb (code c) (code d) then cut_prefix t s else none

module _ (sep : ℕ) where
  abbrev pub prepend : Char → List String → List String
  prepend c [] = String.◌∷◌ c "" ∷ []
  prepend c (part ∷ parts) = String.◌∷◌ c part ∷ parts

  -- strings.Split by one character
  unfoldable pub split : String → List String
  split String.[] = "" ∷ []
  split (String.◌∷◌ c s) =
      let rest = split s in if eqb (code c) sep then "" ∷ rest else prepend c rest

  abbrev pub prepend_key : Char → Option (String × String) → Option (String × String)
  prepend_key c none = none
  prepend_key c (some (key, value)) = some (String.◌∷◌ c key, value)

  -- strings.Cut by one character; `none` is found == false
  unfoldable pub cut : String → Option (String × String)
  cut String.[] = none
  cut (String.◌∷◌ c s) =
      let rest = cut s in if eqb (code c) sep then some ("", s) else prepend_key c rest
