-- ===== src/Vision/Pipeline/Config.antt =====
-- `VisionPipelineConfig` (src/vision/vision_pipeline.py).
pub mod Valid
use aot_drone.Common.{Bool, not, ◌&&◌, Result, ok, value_error, guard, ◌>>◌}
use aot_drone.Common.Int.{ℤ, pos, leb_ℤ, ltb_ℤ}
use aot_drone.Runtime.{Runtime, zero_f, one_f}

pub record Config (F : Type 0) : Type 0 where
  pub detect_hold_n : ℤ
  pub search_n : ℤ
  pub detect_every_n : ℤ
  pub desired_cx : F
  pub desired_cy : F
  pub target_detected_grace_frames : ℤ
  pub tracker_reinit_iou : F
  pub tracker_only_conf_decay : F
  pub tracker_only_conf_floor : F

module _ (R : Runtime) where
  open R use {Float, decimal, lt, le}

  -- the defaults of the fields
  abbrev pub default_config : Config Float
  default_config = record {
    detect_hold_n = pos 30;
    search_n = pos 30;
    detect_every_n = pos 1;
    desired_cx = decimal (pos 5) 1;
    desired_cy = decimal (pos 5) 1;
    target_detected_grace_frames = pos 1;
    tracker_reinit_iou = decimal (pos 5) 1;
    tracker_only_conf_decay = decimal (pos 95) 2;
    tracker_only_conf_floor = decimal (pos 5) 1;
  }

  -- `0.0 <= x <= 1.0`
  abbrev pub within_unit : Float → Bool
  within_unit x = le (zero_f R) x && le x (one_f R)

  -- `__post_init__`: the configuration itself, unless a field is out of its range.
  unfoldable pub post_init : Config Float → Result (Config Float)
  post_init c = do
    guard (not (ltb_ℤ c.detect_hold_n (pos 0))) value_error
    guard (not (ltb_ℤ c.search_n (pos 0))) value_error
    guard (not (leb_ℤ c.detect_every_n (pos 0))) value_error
    guard (within_unit c.desired_cx) value_error
    guard (within_unit c.desired_cy) value_error
    guard (not (ltb_ℤ c.target_detected_grace_frames (pos 0))) value_error
    guard (within_unit c.tracker_reinit_iou) value_error
    guard (lt (zero_f R) c.tracker_only_conf_decay && le c.tracker_only_conf_decay (one_f R))
        value_error
    guard (within_unit c.tracker_only_conf_floor) value_error
    ok c
