-- ===== src/Backend/TelSchema.antt =====
-- src/backend/tel_schema.py
pub mod Accepts
use aot_drone.Common.{String, Bool, List, [], ◌∷◌, Result, ok, guard, ◌>>=◌, ◌>>◌}
use aot_drone.Common.Int.{ℤ}
use aot_drone.Runtime.{Runtime, zero_f, one_f}
use aot_drone.Json.{Value, int, float, text, Fields, end, field, get, has_all, is_text}
use aot_drone.Backend.Schema.{
  schema, range, as_object, require_int, require_float, ensure_in_range, is_tracking_state,
  is_control_mode, minus_one,
}

abbrev pub required_fields : List String
required_fields =
    "type" ∷ "seq" ∷ "timestamp_s" ∷ "control_mode" ∷ "tracking_state" ∷ "distFront_m"
    ∷ "distBack_m" ∷ "distBottom_m" ∷ "target_x" ∷ "target_y" ∷ "bound_w" ∷ "bound_h" ∷ "confidence"
    ∷ []

-- the values that the validator reads, in their order
pub record TelFields (F : Type 0) : Type 0 where
  pub seq : ℤ
  pub timestamp_s : F
  pub control_mode : ℤ
  pub tracking_state : ℤ
  pub dist_front_m : F
  pub dist_back_m : F
  pub dist_bottom_m : F
  pub target_x : F
  pub target_y : F
  pub bound_w : F
  pub bound_h : F
  pub confidence : F

-- the dict that the validator returns
abbrev pub tel_dict : {F : Type 0} → TelFields F → Fields F
tel_dict v = field "type" (text "TEL") (
    field "seq" (int v.seq) (
      field "timestamp_s" (float v.timestamp_s) (
        field "control_mode" (int v.control_mode) (
          field "tracking_state" (int v.tracking_state) (
            field "distFront_m" (float v.dist_front_m) (
              field "distBack_m" (float v.dist_back_m) (
                field "distBottom_m" (float v.dist_bottom_m) (
                  field "target_x" (float v.target_x) (
                    field "target_y" (float v.target_y) (
                      field "bound_w" (float v.bound_w) (
                        field "bound_h" (float v.bound_h)
                          (field "confidence" (float v.confidence) end))))))))))))

module _ (R : Runtime) where
  open R use {Float}

  -- `seq` to `confidence`, with the checks of the two enums between
  unfoldable pub read_tel : Fields Float → Result (TelFields Float)
  read_tel payload = do
    seq ← require_int R payload "seq"
    timestamp_s ← require_float R payload "timestamp_s"
    control_mode ← require_int R payload "control_mode"
    tracking_state ← require_int R payload "tracking_state"
    guard (is_control_mode control_mode) range
    guard (is_tracking_state tracking_state) range
    dist_front_m ← require_float R payload "distFront_m"
    dist_back_m ← require_float R payload "distBack_m"
    dist_bottom_m ← require_float R payload "distBottom_m"
    target_x ← require_float R payload "target_x"
    target_y ← require_float R payload "target_y"
    bound_w ← require_float R payload "bound_w"
    bound_h ← require_float R payload "bound_h"
    confidence ← require_float R payload "confidence"
    ok (record {
      seq = seq;
      timestamp_s = timestamp_s;
      control_mode = control_mode;
      tracking_state = tracking_state;
      dist_front_m = dist_front_m;
      dist_back_m = dist_back_m;
      dist_bottom_m = dist_bottom_m;
      target_x = target_x;
      target_y = target_y;
      bound_w = bound_w;
      bound_h = bound_h;
      confidence = confidence;
    })

  unfoldable pub ensure_tel_ranges : TelFields Float → Result (Unit {0})
  unfolding ensure_in_range
  ensure_tel_ranges v = do
    ensure_in_range R v.target_x (minus_one R) (one_f R)
    ensure_in_range R v.target_y (minus_one R) (one_f R)
    ensure_in_range R v.bound_w (zero_f R) (one_f R)
    ensure_in_range R v.bound_h (zero_f R) (one_f R)
    ensure_in_range R v.confidence (zero_f R) (one_f R)

  unfoldable pub validate_tel_message : Value Float → Result (Fields Float)
  validate_tel_message payload = do
    d ← as_object R payload
    guard (has_all required_fields d) schema
    guard (is_text "TEL" (get "type" d)) schema
    v ← read_tel d
    ensure_tel_ranges v
    ok (tel_dict v)
