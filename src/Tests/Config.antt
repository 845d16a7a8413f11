-- ===== src/Tests/Config.antt =====
-- A list of bindings, and a .env file of two lines.
use quick_bite_analytics_ser.Prelude.{
  String, ◌==◌, ◌≡◌, refl, Option, none, some, List, [], ◌∷◌, if◌then◌else◌,
}
use quick_bite_analytics_ser.Go.Strings.{
  is_space, trim_left, before, trim_right, trim, cut_prefix, split, cut,
}
use quick_bite_analytics_ser.Config.{
  Environment, trimmed, split_trim, load_dot_env, load_lines, parse_line, setenv, has_char,
}
use quick_bite_analytics_ser.Config.Lists.{join, split_trim-join}
use quick_bite_analytics_ser.Config.DotEnv.{first_in, or_else, load_dot_env-first_in}

abbrev bindings : List String
bindings = "order.#" ∷ "payment.#" ∷ []

bindings_read : split_trim " order.#,, payment.# " ≡ bindings
unfolding split_trim trimmed split trim trim_left trim_right before is_space
bindings_read = refl

split_trim-join_example : split_trim (join bindings) ≡ bindings
unfolding trim trim_left trim_right before is_space
split_trim-join_example = split_trim-join bindings (
  ((refl, (refl, (refl, (refl, (refl, (refl, (refl, tt))))))), refl, refl),
  (((refl, (refl, (refl, (refl, (refl, (refl, (refl, (refl, (refl, tt))))))))), refl, refl), tt),
)

abbrev environment : Environment
environment name = if name == "PORT" then some "4002" else none

abbrev file : Option (List String)
file = some ("# comment" ∷ "PORT=80" ∷ "MODE = 'dev' " ∷ [])

mode_read : load_dot_env file environment "MODE" ≡ some "dev"
unfolding load_dot_env load_lines parse_line setenv has_char cut cut_prefix trim trim_left
    trim_right before is_space
mode_read = refl

load_dot_env-first_in_example :
    load_dot_env file environment "PORT"
    ≡ or_else
        (environment "PORT")
        (first_in "PORT" ("# comment" ∷ "PORT=80" ∷ "MODE = 'dev' " ∷ []))
load_dot_env-first_in_example = load_dot_env-first_in file "PORT" environment
