-- ===== src/Backend/Schema.antt =====
-- The checks of one field that src/backend/tel_schema.py and src/backend/vis_schema.py share word
-- for word.
pub mod Errors
use aot_drone.Common.{
  String, ◌≡◌, Bool, true, false, ◌&&◌, ◌||◌, Option, none, some, Result, ok, raise, Error,
  validation, guard, ◌>>=◌, arith,
}
use aot_drone.Common.Int.{ℤ, pos, negsuc, leb_ℤ}
use aot_drone.Runtime.{Runtime, or_overflow}
use aot_drone.Json.{Value, int, float, Fields, object, get}

-- raised with the reason "schema"
abbrev pub schema : Error
schema = validation "schema"

abbrev pub range : Error
range = validation "range"

module _ (R : Runtime) where
  open R use {Float, le, of_int}

  abbrev pub as_object : Value Float → Result (Fields Float)
  as_object (object d) = ok d
  as_object _ = raise schema

  -- a `bool` is refused, though Python counts it as an `int`
  abbrev pub int_value : Option (Value Float) → Result ℤ
  int_value (some (int n)) = ok n
  int_value _ = raise schema

  unfoldable pub require_int : Fields Float → String → Result ℤ
  require_int payload field_name = int_value (get field_name payload)

  abbrev pub float_value : Option (Value Float) → Result Float
  float_value (some (int n)) = or_overflow (of_int n)
  float_value (some (float x)) = ok x
  float_value _ = raise schema

  unfoldable pub require_float : Fields Float → String → Result Float
  require_float payload field_name = float_value (get field_name payload)

  unfoldable pub ensure_in_range : Float → Float → Float → Result (Unit {0})
  ensure_in_range value lower upper = guard (le lower value && le value upper) range

-- `n in {1, 2, 3, 4}`, and `n in {0, 1, 2, 3}`
abbrev pub is_tracking_state : ℤ → Bool
is_tracking_state n = leb_ℤ (pos 1) n && leb_ℤ n (pos 4)

abbrev pub is_control_mode : ℤ → Bool
is_control_mode n = leb_ℤ (pos 0) n && leb_ℤ n (pos 3)

module _ (R : Runtime) where
  open R use {Float, decimal, le}

  -- -1.0
  abbrev pub minus_one : Float
  minus_one = decimal (negsuc 0) 0

  abbrev pub Between : Float → Float → Float → Type 0
  Between lo x hi = (le lo x ≡ true) × (le x hi ≡ true)
