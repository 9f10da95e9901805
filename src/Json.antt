-- ===== src/Json.antt =====
-- The values that `json.loads` builds and `json.dumps` takes, and the built-in conversions that the
-- backend applies to them. A dict keeps its keys in the order of their insertion.
pub mod Laws
use aot_drone.Common.{
  String, Bool, true, false, not, ◌&&◌, ◌==◌, str_eq, if◌then◌else◌, Option, none, some, is_some,
  List, [], ◌∷◌, Result, ok, raise, value_error, type_error,
}
use aot_drone.Common.Int.{ℤ, pos, eqb_ℤ}
use aot_drone.Runtime.{Runtime, or_overflow, zero_f}

mutual
  pub data Value (F : Type 0) : Type 0 where
    null : Value F
    bool : Bool → Value F
    int : ℤ → Value F
    float : F → Value F
    text : String → Value F
    array : Items F → Value F
    object : Fields F → Value F

  pub data Items (F : Type 0) : Type 0 where
    nil : Items F
    cons : Value F → Items F → Items F

  pub data Fields (F : Type 0) : Type 0 where
    end : Fields F
    field : String → Value F → Fields F → Fields F

module _ {F : Type 0} where
  -- `d.get(k)`, with none for a missing key
  unfoldable pub get : String → Fields F → Option (Value F)
  get k end = none
  get k (field j v d) = if str_eq j k then some v else get k d

  -- `d[k] = v`
  unfoldable pub put : String → Value F → Fields F → Fields F
  put k v end = field k v end
  put k v (field j w d) = if str_eq j k then field j v d else field j w (put k v d)

  -- `k in d`
  unfoldable pub has : String → Fields F → Bool
  unfolding get
  has k d = is_some (get k d)

  -- `[k for k in names if k not in d]` is empty
  unfoldable pub has_all : List String → Fields F → Bool
  unfolding has
  has_all [] d = true
  has_all (k ∷ ks) d = has k d && has_all ks d

  -- `v == s` for a text s
  abbrev pub is_text : String → Option (Value F) → Bool
  is_text s (some (text t)) = str_eq t s
  is_text s _ = false

abbrev of_bool : Bool → ℤ
of_bool true = pos 1
of_bool false = pos 0

abbrev or_value_error : {A : Type 0} → Option A → Result A
or_value_error none = raise value_error
or_value_error (some a) = ok a

module _ (R : Runtime) where
  open R use {Float, le, of_int, trunc, int_of_text, float_of_text}

  -- `int(v)`
  unfoldable pub int_of : Value Float → Result ℤ
  int_of (int n) = ok n
  int_of (bool b) = ok (of_bool b)
  int_of (float x) = trunc x
  int_of (text s) = or_value_error (int_of_text s)
  int_of _ = raise type_error

  -- `float(v)`
  unfoldable pub float_of : Value Float → Result Float
  float_of (float x) = ok x
  float_of (int n) = or_overflow (of_int n)
  float_of (bool b) = or_overflow (of_int (of_bool b))
  float_of (text s) = or_value_error (float_of_text s)
  float_of _ = raise type_error

  -- `bool(v)`
  unfoldable pub bool_of : Value Float → Bool
  bool_of null = false
  bool_of (bool b) = b
  bool_of (int n) = not (eqb_ℤ n (pos 0))
  bool_of (float x) = not (le x (zero_f R) && le (zero_f R) x)
  bool_of (text s) = not (str_eq s "")
  bool_of (array nil) = false
  bool_of (array (cons v vs)) = true
  bool_of (object end) = false
  bool_of (object (field k v d)) = true
