-- ===== src/Backend/VisSchema.antt =====
-- src/backend/vis_schema.py
pub mod Accepts
use aot_drone.Common.{
  String, ◌≡◌, Bool, true, false, not, ◌&&◌, ◌||◌, if◌then◌else◌, Option, none, some, List, [], ◌∷◌,
  Result, ok, raise, validation, guard, ◌>>=◌, ◌>>◌, arith,
}
use aot_drone.Common.Int.{ℤ, pos, negsuc, eqb_ℤ}
use aot_drone.Runtime.{Runtime, zero_f, one_f}
use aot_drone.Json.{Value, int, float, text, object, Fields, end, field, get, has_all, is_text}
use aot_drone.Backend.Schema.{
  schema, range, as_object, require_int, require_float, ensure_in_range, is_tracking_state,
  minus_one,
}

abbrev pub required_fields : List String
required_fields =
    "type" ∷ "seq" ∷ "timestamp_s" ∷ "tracking_state" ∷ "loc_x" ∷ "loc_y" ∷ "bound_w" ∷ "bound_h"
    ∷ "confidence" ∷ []

-- the values that the validator reads, in their order
pub record VisFields (F : Type 0) : Type 0 where
  pub seq : ℤ
  pub timestamp_s : F
  pub tracking_state : ℤ
  pub loc_x : F
  pub loc_y : F
  pub bound_w : F
  pub bound_h : F
  pub confidence : F

-- the dict that the validator returns
abbrev pub vis_dict : {F : Type 0} → VisFields F → Fields F
vis_dict v = field "type" (text "VIS") (
    field "seq" (int v.seq) (
      field "timestamp_s" (float v.timestamp_s) (
        field "tracking_state" (int v.tracking_state) (
          field "loc_x" (float v.loc_x) (
            field "loc_y" (float v.loc_y) (
              field "bound_w" (float v.bound_w) (
                field "bound_h" (float v.bound_h)
                  (field "confidence" (float v.confidence) end))))))))

module _ (R : Runtime) where
  open R use {Float, decimal, lt, abs}

  -- 1e-6
  abbrev pub zero_eps : Float
  zero_eps = decimal (pos 1) 6

  -- `seq` to `confidence`, with the check of the state between
  unfoldable pub read_vis : Fields Float → Result (VisFields Float)
  read_vis payload = do
    seq ← require_int R payload "seq"
    timestamp_s ← require_float R payload "timestamp_s"
    tracking_state ← require_int R payload "tracking_state"
    guard (is_tracking_state tracking_state) range
    loc_x ← require_float R payload "loc_x"
    loc_y ← require_float R payload "loc_y"
    bound_w ← require_float R payload "bound_w"
    bound_h ← require_float R payload "bound_h"
    confidence ← require_float R payload "confidence"
    ok (record {
      seq = seq;
      timestamp_s = timestamp_s;
      tracking_state = tracking_state;
      loc_x = loc_x;
      loc_y = loc_y;
      bound_w = bound_w;
      bound_h = bound_h;
      confidence = confidence;
    })

  unfoldable pub ensure_vis_ranges : VisFields Float → Result (Unit {0})
  unfolding ensure_in_range
  ensure_vis_ranges v = do
    ensure_in_range R v.loc_x (minus_one R) (one_f R)
    ensure_in_range R v.loc_y (minus_one R) (one_f R)
    ensure_in_range R v.bound_w (zero_f R) (one_f R)
    ensure_in_range R v.bound_h (zero_f R) (one_f R)
    ensure_in_range R v.confidence (zero_f R) (one_f R)

  -- the names with a value away from 0, of which there may be none
  abbrev near_zero : Float → Bool
  near_zero x = not (lt zero_eps (abs x))

  abbrev pub all_near_zero : VisFields Float → Bool
  all_near_zero v =
      near_zero v.loc_x
      && (near_zero v.loc_y
          && (near_zero v.bound_w && (near_zero v.bound_h && near_zero v.confidence)))

  -- the values of a state other than TRACKING are set to 0.0
  abbrev pub zeroed : VisFields Float → VisFields Float
  zeroed v = record v {
    loc_x = zero_f R;
    loc_y = zero_f R;
    bound_w = zero_f R;
    bound_h = zero_f R;
    confidence = zero_f R;
  }

  unfoldable pub settle_vis : VisFields Float → Result (VisFields Float)
  settle_vis v =
      if not (eqb_ℤ v.tracking_state (pos 3))
      then (do guard (all_near_zero v) (validation "semantics"); ok (zeroed v))
      else ok v

  unfoldable pub validate_vis_message : Value Float → Result (Fields Float)
  validate_vis_message payload = do
    d ← as_object R payload
    guard (has_all required_fields d) schema
    guard (is_text "VIS" (get "type" d)) schema
    v ← read_vis d
    ensure_vis_ranges v
    settled ← settle_vis v
    ok (vis_dict settled)
