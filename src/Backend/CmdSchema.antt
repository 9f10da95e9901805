-- ===== src/Backend/CmdSchema.antt =====
-- src/backend/cmd_schema.py: the command frames for the flight controller, and the gate that holds
-- back a Tracking request without fresh vision.
pub mod Gate
pub mod Total
pub mod Framing
use aot_drone.Common.{
  ℕ, ◌+◌, ◌*◌, ◌/◌, ◌%◌, ◌^◌, String, Bool, true, false, not, ◌&&◌, ltb, leb, if◌then◌else◌, Option,
  none, some, is_some, List, [], ◌∷◌, ◌++◌, length, Result, ok, raise, value_error, key_error,
  struct_error, guard, ◌>>=◌, ◌>>◌,
}
use aot_drone.Common.Int.{ℤ, pos, ltb_ℤ, eqb_ℤ}
use aot_drone.Runtime.{Runtime, zero_f}
use aot_drone.Json.{
  Value, null, bool, int, float, text, object, Fields, end, field, get, put, has_all, int_of,
  float_of, bool_of,
}
use aot_drone.Backend.Schema.{is_control_mode}

abbrev pub mode_tracking : ℤ
mode_tracking = pos 1

abbrev pub mode_land_safely : ℤ
mode_land_safely = pos 2

-- what `build_cmd_payload` reads from the operator's intent
pub record Intent (F : Type 0) : Type 0 where
  pub desired_mode : ℤ
  pub arm : Option Bool
  pub setpoints : Option (Fields F)

module _ {F : Type 0} where
  -- `d[k]`
  abbrev pub item : Option (Value F) → Result (Value F)
  item none = raise key_error
  item (some v) = ok v

  -- a key that is there and not None
  abbrev pub present : Option (Value F) → Option (Value F)
  present (some null) = none
  present o = o

  -- `setpoints` must be an object
  abbrev pub setpoints_of : Option (Value F) → Result (Option (Fields F))
  setpoints_of none = ok none
  setpoints_of (some (object d)) = ok (some d)
  setpoints_of _ = raise value_error

module _ (R : Runtime) where
  open R use {Float, lt, le}

  abbrev arm_of : Option (Value Float) → Option Bool
  arm_of none = none
  arm_of (some v) = some (bool_of R v)

  unfoldable pub read_intent : Option (Fields Float) → Result (Intent Float)
  read_intent none = ok (record { desired_mode = mode_land_safely; arm = none; setpoints = none })
  read_intent (some intent) = do
    mode ← item (get "desired_mode" intent)
    desired_mode ← int_of R mode
    guard (is_control_mode desired_mode) value_error
    setpoints ← setpoints_of (present (get "setpoints" intent))
    ok (record {
      desired_mode = desired_mode;
      arm = arm_of (present (get "arm" intent));
      setpoints = setpoints;
    })

  -- the snapshot, if it is there and its age is at most `vis_fresh_s`
  unfoldable pub fresh_vis : Option (Fields Float) → Option Float → Float → Option (Fields Float)
  fresh_vis (some vis) (some age) vis_fresh_s = if le age vis_fresh_s then some vis else none
  fresh_vis _ _ vis_fresh_s = none

  -- the mode that is sent, and why it is not the one that was asked for
  unfoldable pub gate_mode : ℤ → Option (Fields Float) → Bool → ℤ × Option String
  gate_mode desired_mode vis_snapshot is_vis_fresh =
      if eqb_ℤ desired_mode mode_tracking && not is_vis_fresh
      then (mode_land_safely, some (if is_some vis_snapshot then "stale_vis" else "no_vis"))
      else (desired_mode, none)

  abbrev tracking_required : List String
  tracking_required =
      "tracking_state" ∷ "loc_x" ∷ "loc_y" ∷ "bound_w" ∷ "bound_h" ∷ "confidence" ∷ "seq"
      ∷ "timestamp_s" ∷ []

  -- `int(d[k])` and `float(d[k])`
  abbrev pub int_at : String → Fields Float → Result ℤ
  int_at k d = item (get k d) >>= int_of R

  abbrev pub float_at : String → Fields Float → Result Float
  float_at k d = item (get k d) >>= float_of R

  unfoldable pub build_tracking_object : Fields Float → Result (Fields Float)
  build_tracking_object vis = do
    guard (has_all tracking_required vis) value_error
    tracking_state ← int_at "tracking_state" vis
    loc_x ← float_at "loc_x" vis
    loc_y ← float_at "loc_y" vis
    bound_w ← float_at "bound_w" vis
    bound_h ← float_at "bound_h" vis
    confidence ← float_at "confidence" vis
    vis_seq ← int_at "seq" vis
    vis_timestamp_s ← float_at "timestamp_s" vis
    ok (
        field "tracking_state" (int tracking_state) (
          field "loc_x" (float loc_x) (
            field "loc_y" (float loc_y) (
              field "bound_w" (float bound_w) (
                field "bound_h" (float bound_h) (
                  field "confidence" (float confidence) (
                    field "vis_seq" (int vis_seq)
                      (field "vis_timestamp_s" (float vis_timestamp_s) end))))))))

  -- the optional entries
  abbrev with_arm : Option Bool → Fields Float → Fields Float
  with_arm none d = d
  with_arm (some b) d = put "arm" (bool b) d

  abbrev with_setpoints : Option (Fields Float) → Fields Float → Fields Float
  with_setpoints none d = d
  with_setpoints (some s) d = put "setpoints" (object s) d

  unfoldable pub with_tracking : Option (Fields Float) → Fields Float → Result (Fields Float)
  unfolding put
  with_tracking none d = ok d
  with_tracking (some vis) d = do
    tracking ← build_tracking_object vis
    ok (put "tracking" (object tracking) d)

  -- the entries up to the tracking object
  unfoldable pub base_payload : ℤ → Float → ℤ → Option Bool → Option (Fields Float) → Fields Float
  unfolding put
  base_payload seq timestamp_s desired_mode arm setpoints = with_setpoints setpoints (
      with_arm arm (
        field "type" (text "CMD") (
          field "seq" (int seq) (
            field "timestamp_s" (float timestamp_s)
              (field "desired_mode" (int desired_mode) end)))))

  unfoldable pub build_cmd_payload :
      ℤ
      → Float
      → Option (Fields Float)
      → Option (Fields Float)
      → Option Float
      → Float
      → Result (Fields Float × Option String)
  build_cmd_payload seq timestamp_s intent vis_snapshot vis_age_s vis_fresh_s = do
    guard (not (ltb_ℤ seq (pos 0))) value_error
    guard (not (lt vis_fresh_s (zero_f R))) value_error
    asked ← read_intent intent
    let fresh = fresh_vis vis_snapshot vis_age_s vis_fresh_s
    let gated = gate_mode asked.desired_mode vis_snapshot (is_some fresh)
    payload ← with_tracking fresh (base_payload seq timestamp_s gated.0 asked.arm asked.setpoints)
    ok (payload, gated.1)

-- `struct.pack(">I", n)`, which raises from 2^32 on
unfoldable pub pack_u32 : ℕ → Result (List ℕ)
pack_u32 n =
    if ltb n (2 ^ 32)
    then ok (n / 2 ^ 24 % 256 ∷ n / 2 ^ 16 % 256 ∷ n / 2 ^ 8 % 256 ∷ n % 256 ∷ [])
    else raise struct_error

-- `frame_cmd_payload` on the bytes of the JSON text
unfoldable pub frame_cmd_payload : List ℕ → ℕ → Result (List ℕ)
unfolding pack_u32
frame_cmd_payload raw max_payload_bytes = do
  guard (leb 1 (length raw) && leb (length raw) max_payload_bytes) value_error
  header ← pack_u32 (length raw)
  ok (header ++ raw)
