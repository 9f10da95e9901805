-- ===== src/Vision/Pipeline/Config/Valid.antt =====
-- The configurations that `__post_init__` lets through (src/vision/vision_pipeline.py).
use aot_drone.Common.{◌≡◌, true, ok, arith}
use aot_drone.Common.Int.{pos, leb_ℤ, ltb_ℤ}
use aot_drone.Runtime.{Runtime, zero_f, one_f}
use aot_drone.Vision.Types.Clamp.{InUnit}
use aot_drone.Vision.Pipeline.Config.{Config, post_init}

module _ (R : Runtime) where
  open R use {Float, lt, le}

  pub record IsValid (c : Config Float) : Type 0 where
    pub hold_nonneg : leb_ℤ (pos 0) c.detect_hold_n ≡ true
    pub search_nonneg : leb_ℤ (pos 0) c.search_n ≡ true
    pub every_pos : ltb_ℤ (pos 0) c.detect_every_n ≡ true
    pub grace_nonneg : leb_ℤ (pos 0) c.target_detected_grace_frames ≡ true
    pub decay_pos : lt (zero_f R) c.tracker_only_conf_decay ≡ true
    pub decay_le_one : le c.tracker_only_conf_decay (one_f R) ≡ true
    pub floor_in : InUnit R c.tracker_only_conf_floor

  pub post_init-IsValid :
      (c : Config Float) {c' : Config Float} → post_init R c ≡ ok c' → (c' ≡ c) × IsValid c
  unfolding post_init
  post_init-IsValid c h = ground arith
