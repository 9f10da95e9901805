-- ===== src/Vision/SimpleTracker/States.antt =====
-- The states and the counters of the simple tracker (src/vision/tracker.py).
use aot_drone.Common.{◌≡◌, ◌⊎◌, true, List, [], ◌∷◌, Result, ok, raise, arith}
use aot_drone.Common.Int.{ℤ, pos, leb_ℤ}
use aot_drone.Runtime.{Runtime, Laws, zero_f}
use aot_drone.Vision.Types.{
  no_target, target_detected, tracking, searching, NormalizedBbox, Detection, normalize_bbox_xywh,
}
use aot_drone.Vision.Types.Clamp.{InUnit, clamp01-InUnit, zero-InUnit}
use aot_drone.Vision.SimpleTracker.{
  SimpleTracker, new_tracker, see, on_box, update_without_detection, update_simple,
}

module _ (R : Runtime) where
  open R use {Float}

  -- The streaks count towards their limits, and only in the states that they belong to.
  pub record SimpleInv (t : SimpleTracker Float) : Type 0 where
    pub conf_in : InUnit R t.last_conf
    pub id_nonneg : leb_ℤ (pos 0) t.last_track_id ≡ true
    pub detecting : t.state ≡ target_detected → leb_ℤ (pos t.detect_streak) t.detect_hold_n ≡ true
    pub missing : leb_ℤ (pos t.missing_streak) t.search_n ≡ true
    pub seen : (t.state ≡ searching) ⊎ (t.missing_streak ≡ 0)
    pub blank : t.state ≡ no_target → t.last_conf ≡ zero_f R
    pub limits : (leb_ℤ (pos 0) t.detect_hold_n ≡ true) × (leb_ℤ (pos 0) t.search_n ≡ true)

  module _ (laws : Laws R) where
    new_tracker-SimpleInv :
        (detect_hold_n search_n : ℤ) {t : SimpleTracker Float}
        → new_tracker R detect_hold_n search_n ≡ ok t
        → SimpleInv t
    unfolding new_tracker
    new_tracker-SimpleInv detect_hold_n search_n made = ground (arith, zero-InUnit R laws)

    missed-SimpleInv :
        (t : SimpleTracker Float) → SimpleInv t → SimpleInv (update_without_detection R t).1
    unfolding update_without_detection
    missed-SimpleInv t h = ground (arith, h, zero-InUnit R laws)

    on_box-SimpleInv :
        (d : Detection Float) (box : Result (NormalizedBbox Float)) (t : SimpleTracker Float)
        → SimpleInv t
        → (t.state ≡ tracking) ⊎ (t.state ≡ target_detected)
        → SimpleInv (on_box R d box t).1
    on_box-SimpleInv d (raise e) t h up = h
    on_box-SimpleInv d (ok box) t h up = ground (arith, h, up, clamp01-InUnit R laws d.confidence)

    see-SimpleInv :
        (t : SimpleTracker Float)
        → SimpleInv t
        → SimpleInv (see R t) × (((see R t).state ≡ tracking) ⊎ ((see R t).state ≡ target_detected))
    unfolding see
    see-SimpleInv t h = ground (arith, h)

    -- When the laws of floats hold, a frame keeps the invariant of the simple tracker, also when
    -- it ends with an error: the confidence is in [0, 1] and is 0.0 without a target, the track
    -- id is not negative, the streak of detections is within its limit while the target is not
    -- confirmed, and the streak of misses is within its limit and is 0 unless it searches.
    pub update_simple-SimpleInv :
        (ds : List (Detection Float)) (img_w img_h : ℤ) (t : SimpleTracker Float)
        → SimpleInv t
        → SimpleInv (update_simple R ds img_w img_h t).1
    unfolding update_simple
    update_simple-SimpleInv [] img_w img_h t h = missed-SimpleInv t h
    update_simple-SimpleInv (d ∷ ds) img_w img_h t h =
        let (h', up) = see-SimpleInv t h in
        on_box-SimpleInv d (normalize_bbox_xywh R d.bbox img_w img_h) (see R t) h' up
