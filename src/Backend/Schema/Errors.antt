-- ===== src/Backend/Schema/Errors.antt =====
-- Which errors the checks of one field raise (src/backend/tel_schema.py,
-- src/backend/vis_schema.py).
use aot_drone.Common.{String, Option, none, some, Error, overflow_error, validation}
use aot_drone.Common.Raises.{OnlyRaises, raise_rules}
use aot_drone.Runtime.{Runtime, or_overflow}
use aot_drone.Json.{Value, null, int, float, object, Fields, get}
use aot_drone.Backend.Schema.{as_object, require_int, require_float, int_value, float_value}

-- two reasons, and the error that the validators do not raise themselves
pub data IsFieldError : Error → Type 0 where
  schema_error : IsFieldError (validation "schema")
  range_error : IsFieldError (validation "range")
  overflow : IsFieldError overflow_error

module _ (R : Runtime) where
  open R use {Float, of_int}

  pub as_object-IsFieldError : (v : Value Float) → OnlyRaises IsFieldError (as_object R v)
  as_object-IsFieldError (object d) = search raise_rules
  as_object-IsFieldError null = search (raise_rules, schema_error)
  as_object-IsFieldError _ = search (raise_rules, schema_error)

  int_value-IsFieldError : (o : Option (Value Float)) → OnlyRaises IsFieldError (int_value R o)
  int_value-IsFieldError (some (int n)) = search raise_rules
  int_value-IsFieldError none = search (raise_rules, schema_error)
  int_value-IsFieldError _ = search (raise_rules, schema_error)

  or_overflow-IsFieldError : (o : Option Float) → OnlyRaises IsFieldError (or_overflow o)
  or_overflow-IsFieldError none = search (raise_rules, overflow)
  or_overflow-IsFieldError (some x) = search raise_rules

  float_value-IsFieldError : (o : Option (Value Float)) → OnlyRaises IsFieldError (float_value R o)
  float_value-IsFieldError (some (int n)) = or_overflow-IsFieldError (of_int n)
  float_value-IsFieldError (some (float x)) = search raise_rules
  float_value-IsFieldError none = search (raise_rules, schema_error)
  float_value-IsFieldError _ = search (raise_rules, schema_error)

  pub require_int-IsFieldError :
      (d : Fields Float) (k : String) → OnlyRaises IsFieldError (require_int R d k)
  unfolding require_int
  require_int-IsFieldError d k = int_value-IsFieldError (get k d)

  pub require_float-IsFieldError :
      (d : Fields Float) (k : String) → OnlyRaises IsFieldError (require_float R d k)
  unfolding require_float
  require_float-IsFieldError d k = float_value-IsFieldError (get k d)

pub ruleset field_rules = (
  raise_rules, schema_error, range_error, as_object-IsFieldError, require_int-IsFieldError,
  require_float-IsFieldError,
)
