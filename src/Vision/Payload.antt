-- ===== src/Vision/Payload.antt =====
-- `_build_vis_payload` of src/vision/main.py: what the vision process sends to the backend.
pub mod Valid
use aot_drone.Common.Int.{ℤ, pos, negsuc}
use aot_drone.Common.{Bool}
use aot_drone.Runtime.{Runtime, zero_f, one_f, max_f, min_f}
use aot_drone.Json.{Fields}
use aot_drone.Backend.VisSchema.{VisFields, vis_dict}
use aot_drone.Vision.Types.{
  VisState, no_target, target_detected, tracking, searching, NormalizedBbox, clamp01,
}

-- `_TRACKING_STATE_TO_CODE`
abbrev pub tracking_state_to_code : VisState → ℤ
tracking_state_to_code no_target = pos 1
tracking_state_to_code target_detected = pos 2
tracking_state_to_code tracking = pos 3
tracking_state_to_code searching = pos 4

module _ (R : Runtime) where
  open R use {Float, decimal, sub, mul}

  -- `max(-1.0, min(1.0, x))`
  unfoldable pub clamp_signed : Float → Float
  unfolding max_f min_f
  clamp_signed x = max_f R (decimal (negsuc 0) 0) (min_f R (one_f R) x)

  abbrev pub half_f : Float
  half_f = decimal (pos 5) 1

  abbrev pub two_f : Float
  two_f = decimal (pos 2) 0

  -- the nine entries of the dict, but for "type"
  unfoldable pub vis_payload_fields :
      ℤ → Float → VisState → NormalizedBbox Float → Float → VisFields Float
  vis_payload_fields seq timestamp_s tracking bbox confidence = record {
    seq = seq;
    timestamp_s = timestamp_s;
    tracking_state = pos 3;
    loc_x = clamp_signed (mul (sub bbox.cx half_f) two_f);
    loc_y = clamp_signed (mul (sub half_f bbox.cy) two_f);
    bound_w = clamp01 R bbox.w;
    bound_h = clamp01 R bbox.h;
    confidence = clamp01 R confidence;
  }
  vis_payload_fields seq timestamp_s state bbox confidence = record {
    seq = seq;
    timestamp_s = timestamp_s;
    tracking_state = tracking_state_to_code state;
    loc_x = zero_f R;
    loc_y = zero_f R;
    bound_w = zero_f R;
    bound_h = zero_f R;
    confidence = zero_f R;
  }

  unfoldable pub build_vis_payload :
      ℤ → Float → VisState → NormalizedBbox Float → Float → Fields Float
  unfolding vis_payload_fields
  build_vis_payload seq timestamp_s state bbox confidence =
      vis_dict (vis_payload_fields seq timestamp_s state bbox confidence)
