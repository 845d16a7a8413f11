-- ===== src/Config/DotEnv.antt =====
-- What the .env file adds to the environment.
use quick_bite_analytics_ser.Prelude.{
  String, ◌==◌, ◌≡◌, refl, sym, ap, ◌∙◌, Bool, true, false, ◌||◌, Option, none, some, List, [], ◌∷◌,
  Bool-cases, inl, inr, ◌⊎◌, eq_iff, if◌then◌else◌,
}
use quick_bite_analytics_ser.Config.{
  Environment, has_char, setenv, parse_line, assign, set_unless, load_lines, load_dot_env,
}

-- os.Setenv takes this name and value.
abbrev pub settable : String → String → Bool
settable key value =
    if key == "" || has_char b'=' key || has_char 0 key || has_char 0 value then false else true

-- The value that an assignment has for a name.
abbrev pub value_in : String → Option (String × String) → Option String
value_in name none = none
value_in name (some (key, value)) =
    if settable key value then (if key == name then some value else none) else none

abbrev pub or_else : Option String → Option String → Option String
or_else (some v) other = some v
or_else none other = other

-- The value of the first line of a file that assigns the name.
unfoldable pub first_in : String → List String → Option String
unfolding parse_line
first_in name [] = none
first_in name (line ∷ lines) = or_else (value_in name (parse_line line)) (first_in name lines)

or_else_assoc : (a b c : Option String) → or_else (or_else a b) c ≡ or_else a (or_else b c)
or_else_assoc (some v) b c = refl
or_else_assoc none b c = refl

or_else-none : (a : Option String) → or_else a none ≡ a
or_else-none (some v) = refl
or_else-none none = refl

setenv_at :
    (key value name : String) (env : Environment)
    → env key ≡ none
    → setenv key value env name ≡ or_else (env name) (value_in name (some (key, value)))
unfolding setenv
setenv_at key value name env unset =
    go (key == "" || has_char b'=' key || has_char 0 key || has_char 0 value) (key == name)
      (env name) (λ same. ap env (sym ((eq_iff key name).0 same)) ∙ unset)
  where
    go :
        (refused same : Bool) (v : Option String)
        → (same ≡ true → v ≡ none)
        → (if refused then v else if same then some value else v)
          ≡ or_else v (
              if (if refused then false else true)
              then (if same then some value else none)
              else none)
    go true same v h = sym (or_else-none v)
    go false true v h = rw (h refl) refl
    go false false v h = sym (or_else-none v)

set_unless_at :
    (o : Option String) (key value name : String) (env : Environment)
    → env key ≡ o
    → set_unless o key value env name ≡ or_else (env name) (value_in name (some (key, value)))
set_unless_at none key value name env at = setenv_at key value name env at
set_unless_at (some v) key value name env at = go (settable key value) (Bool-cases (key == name))
  where
    go :
        (ok : Bool)
        → ((key == name) ≡ true) ⊎ ((key == name) ≡ false)
        → env name
          ≡ or_else (env name) (if ok then (if key == name then some value else none) else none)
    go ok (inl same) =
        let held : env name ≡ some v = ap env (sym ((eq_iff key name).0 same)) ∙ at in rw held refl
    go true (inr other) = rw other (sym (or_else-none (env name)))
    go false (inr other) = sym (or_else-none (env name))

assign_at :
    (a : Option (String × String)) (name : String) (env : Environment)
    → assign a env name ≡ or_else (env name) (value_in name a)
assign_at none name env = sym (or_else-none (env name))
assign_at (some (key, value)) name env = set_unless_at (env key) key value name env refl

load_lines-first_in :
    (lines : List String) (name : String) (env : Environment)
    → load_lines lines env name ≡ or_else (env name) (first_in name lines)
unfolding load_lines first_in
load_lines-first_in [] name env = sym (or_else-none (env name))
load_lines-first_in (line ∷ lines) name env =
    load_lines-first_in lines name (assign (parse_line line) env)
    ∙ ap (λ v. or_else v (first_in name lines)) (assign_at (parse_line line) name env)
    ∙ or_else_assoc (env name) (value_in name (parse_line line)) (first_in name lines)

-- After loadDotEnv a name has the value that the environment had for it, and if it had none, the one
-- of the first line of the file that assigns it a value that os.Setenv takes, if the file opens.
pub load_dot_env-first_in :
    (file : Option (List String)) (name : String) (env : Environment)
    → load_dot_env file env name
      ≡ or_else (env name) (elim file [ none ↦ none | some lines ↦ first_in name lines ])
unfolding load_dot_env
load_dot_env-first_in none name env = sym (or_else-none (env name))
load_dot_env-first_in (some lines) name env = load_lines-first_in lines name env
