-- ===== src/Backend/App/Env.antt =====
-- The readers of the environment (src/backend/app.py). `env` is `os.environ.get`.
use aot_drone.Common.Int.{ℤ}
use aot_drone.Backend.App.Auth.{is_http_token}
use aot_drone.Runtime.{StrMethods, Runtime}
use aot_drone.Common.Texts.{split}
use aot_drone.Common.{
  value_error, String, List, true, Bool, ◌||◌, false, ok, none, not, Option, raise, str_eq, Result,
  ◌∷◌, some, if◌then◌else◌, [],
}

abbrev pub Env : Type 0
Env = String → Option String

module _ (R : Runtime) (str : StrMethods) (env : Env) where
  open R use {Float, int_of_text, float_of_text}
  open str use {lower, strip}

  abbrev or_value_error {ℓ} : {A : Type ℓ} → Option A → Result A
  or_value_error none = raise value_error
  or_value_error (some a) = ok a

  -- `_read_env_int`
  unfoldable pub read_env_int : String → ℤ → Result ℤ
  read_env_int name default = elim (env name) [
    | Option.none ↦ ok default
    | Option.some raw ↦ or_value_error (int_of_text raw)
  ]

  -- `_read_env_float`
  unfoldable pub read_env_float : String → Float → Result Float
  read_env_float name default = elim (env name) [
    | Option.none ↦ ok default
    | Option.some raw ↦ or_value_error (float_of_text raw)
  ]

  abbrev is_among : String → List String → Bool
  is_among s [] = false
  is_among s (t ∷ ts) = str_eq t s || is_among s ts

  unfoldable pub bool_of_env : String → Result Bool
  bool_of_env raw =
      let normalized = lower (strip raw) in
      if is_among normalized ("1" ∷ "true" ∷ "yes" ∷ "on" ∷ [])
      then ok true
      else if is_among normalized ("0" ∷ "false" ∷ "no" ∷ "off" ∷ [])
      then ok false
      else raise value_error

  -- `_read_env_bool`
  unfoldable pub read_env_bool : String → Bool → Result Bool
  unfolding bool_of_env
  read_env_bool name default = elim (env name) [
    | Option.none ↦ ok default
    | Option.some raw ↦ bool_of_env raw
  ]

  unfoldable pub token_of_env : String → Result (Option String)
  token_of_env raw =
      let stripped = strip raw in
      if str_eq stripped ""
      then ok none
      else if not (is_http_token stripped)
      then raise value_error
      else ok (some stripped)

  abbrev pub token_or_none : Option String → Result (Option String)
  token_or_none none = ok none
  token_or_none (some raw) = token_of_env raw

  -- `_read_env_token`
  unfoldable pub read_env_token : String → Result (Option String)
  unfolding token_of_env
  read_env_token name = token_or_none (env name)

  unfoldable pub filled_origins : List String → List String
  filled_origins [] = []
  filled_origins (origin ∷ origins) =
      let rest = filled_origins origins in
      if str_eq (strip origin) "" then rest else strip origin ∷ rest

  -- `_build_cors_origins`
  unfoldable pub build_cors_origins : List String
  unfolding filled_origins split
  build_cors_origins =
      let raw =
        strip (elim (env "BACKEND_CORS_ALLOW_ORIGINS") [ Option.none ↦ "" | Option.some s ↦ s ]) in
      if str_eq raw "" then [] else filled_origins (split raw ",")
