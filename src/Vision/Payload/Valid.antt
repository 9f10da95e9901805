-- ===== src/Vision/Payload/Valid.antt =====
-- What `_build_vis_payload` (src/vision/main.py) builds is what `validate_vis_message`
-- (src/backend/vis_schema.py) accepts.
use aot_drone.Common.{◌≡◌, refl, inl, ok, arith}
use aot_drone.Common.Int.{ℤ, pos, negsuc}
use aot_drone.Runtime.{Runtime, Laws, one_f}
use aot_drone.Json.{object}
use aot_drone.Backend.Schema.{minus_one, Between}
use aot_drone.Backend.VisSchema.{validate_vis_message}
use aot_drone.Backend.VisSchema.Accepts.{IsVis, validate_vis_message-fixed}
use aot_drone.Vision.Types.{VisState, tracking, NormalizedBbox}
use aot_drone.Vision.Types.Clamp.{clamp01-InUnit}
use aot_drone.Vision.Payload.{clamp_signed, vis_payload_fields, build_vis_payload}

module _ (R : Runtime) (laws : Laws R) where
  open R use {Float}
  open laws use {le_of_lt, le_trans, decimal_mono}

  clamp_signed_bounds : (x : Float) → Between R (minus_one R) (clamp_signed R x) (one_f R)
  unfolding clamp_signed
  clamp_signed_bounds x = ground (
    arith,
    le_of_lt x (one_f R),
    le_of_lt (minus_one R) x,
    le_of_lt (minus_one R) (one_f R),
    decimal_mono (negsuc 0) (negsuc 0) 0 refl,
    decimal_mono (negsuc 0) (pos 1) 0 refl,
    decimal_mono (pos 1) (pos 1) 0 refl,
  )

  vis_payload_fields-IsVis :
      (seq : ℤ) (timestamp_s : Float) (state : VisState) (bbox : NormalizedBbox Float)
      (confidence : Float)
      → IsVis R (vis_payload_fields R seq timestamp_s state bbox confidence)
  unfolding vis_payload_fields
  vis_payload_fields-IsVis seq timestamp_s tracking bbox confidence = record {
    known_state = refl;
    x_in = clamp_signed_bounds _;
    y_in = clamp_signed_bounds _;
    w_in = clamp01-InUnit R laws _;
    h_in = clamp01-InUnit R laws _;
    confidence_in = clamp01-InUnit R laws _;
    blank = inl refl;
  }
  vis_payload_fields-IsVis seq timestamp_s _ bbox confidence = ground (
    arith,
    decimal_mono (negsuc 0) (pos 0) 0 refl,
    decimal_mono (pos 0) (pos 0) 0 refl,
    decimal_mono (pos 0) (pos 1) 0 refl,
  )

  -- When the laws of floats hold, whatever the number, time, state, box and confidence are, NaN
  -- included, `validate_vis_message` accepts what `_build_vis_payload` builds from them and
  -- returns it unchanged.
  pub build_vis_payload_accepted :
      (seq : ℤ) (timestamp_s : Float) (state : VisState) (bbox : NormalizedBbox Float)
      (confidence : Float)
      → validate_vis_message R (object (build_vis_payload R seq timestamp_s state bbox confidence))
        ≡ ok (build_vis_payload R seq timestamp_s state bbox confidence)
  unfolding build_vis_payload
  build_vis_payload_accepted seq timestamp_s state bbox confidence =
      validate_vis_message-fixed R laws _
        (vis_payload_fields-IsVis seq timestamp_s state bbox confidence)
