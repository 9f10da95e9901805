-- ===== src/Examples/Camera.antt =====
-- The vision pipeline on fixed frames (src/vision/vision_pipeline.py, src/vision/main.py).
use aot_drone.Common.{ℕ, ◌≡◌, ◌≤◌, refl, Bool, true, false, Option, none, some, List, [], ◌∷◌, ok}
use aot_drone.Common.Int.{pos, ltb_ℤ, ◌*ℤ◌, ◌-ℤ◌}
use aot_drone.Runtime.Micros.{
  num_of_int, Num, nan, num, micros, micros-Laws, le_num, lt_num, decimal_num, scale,
}
use aot_drone.Json.{object}
use aot_drone.Backend.VisSchema.{validate_vis_message}
use aot_drone.Vision.Types.{
  normalize_bbox_xywh, no_target, tracking, searching, PixelBbox, Detection,
}
use aot_drone.Vision.BoxSelect.{score_box, pick_best_box}
use aot_drone.Vision.BoxSelect.Best.{IsChoice, pick_best_box_lem}
use aot_drone.Vision.Payload.{build_vis_payload}
use aot_drone.Vision.Payload.Valid.{build_vis_payload_accepted}
use aot_drone.Vision.Pipeline.Config.{Config}
use aot_drone.Vision.Pipeline.Config.Valid.{IsValid}
use aot_drone.Vision.Pipeline.Defs.{
  should_detect, tracking_result, TrackerLike, TrackerResult, Pipeline, new_pipeline,
}
use aot_drone.Vision.Pipeline.Frame.{process_frame}
use aot_drone.Vision.Pipeline.Invariant.{Inv, new_pipeline-Inv, process_frame-Inv}
use aot_drone.Vision.Pipeline.Results.{process_frame-Fits, Agrees, ◌⟶◌}
use aot_drone.Vision.Pipeline.Total.{Ends, IsSize, process_frame_total}
use aot_drone.Vision.Pipeline.Runs.{FrameInput, run}
use aot_drone.Vision.Pipeline.Runs.Earliest.{lock_needs_frames}
use aot_drone.Vision.Pipeline.Blind.GiveUp.{searching_gives_up}
use aot_drone.Vision.Pipeline.Blind.Coast.{IsDecayOf, coasting_decays}

abbrev still_update :
    Option (PixelBbox Num) → Bool × Option (PixelBbox Num) × Option (PixelBbox Num)
still_update none = (false, none, none)
still_update (some b) = (true, some b, some b)

-- a tracker that says the target stays where it was
abbrev still : TrackerLike Num
still = record {
  Frame = ℕ;
  Tracker = Option (PixelBbox Num);
  initialize = λ t frame b. ok (true, some b);
  update = λ t frame. ok (still_update t);
  reset = λ t. none;
}

abbrev cfg : Config Num
cfg = record {
  detect_hold_n = pos 1;
  search_n = pos 2;
  detect_every_n = pos 1;
  desired_cx = num (pos 500000);
  desired_cy = num (pos 500000);
  target_detected_grace_frames = pos 1;
  tracker_reinit_iou = num (pos 500000);
  tracker_only_conf_decay = num (pos 950000);
  tracker_only_conf_floor = num (pos 500000);
}

cfg-IsValid : IsValid micros cfg
unfolding le_num lt_num decimal_num scale ◌*ℤ◌
cfg-IsValid = record {
  hold_nonneg = refl;
  search_nonneg = refl;
  every_pos = refl;
  grace_nonneg = refl;
  decay_pos = refl;
  decay_le_one = refl;
  floor_in = (refl, refl);
}

abbrev person : Detection Num
person = record {
  bbox = record {
    x = num (pos 300000000);
    y = num (pos 200000000);
    w = num (pos 40000000);
    h = num (pos 80000000);
  };
  confidence = num (pos 900000);
  track_id = pos 0;
}

abbrev saw : List (Detection Num) → FrameInput Num ℕ
saw ds = record { frame = 0; frame_id = pos 1; img_w = pos 640; img_h = pos 480; detections = ds }

abbrev start : Pipeline Num (Option (PixelBbox Num))
start = new_pipeline micros still none

chosen :
    (best : Option (Detection Num)) × (pick_best_box micros
        (pos 640)
        (pos 480)
        (num (pos 500000))
        (num (pos 500000))
        (person ∷ person ∷ [])
      ≡ ok best)
unfolding pick_best_box score_box num_of_int
chosen = (_, refl)

pick_best_box_lem_example :
    IsChoice micros
      (pos 640)
      (pos 480)
      (num (pos 500000))
      (num (pos 500000))
      (person ∷ person ∷ [])
      chosen.0
pick_best_box_lem_example =
    pick_best_box_lem micros (pos 640) (pos 480) (num (pos 500000)) (num (pos 500000)) micros-Laws
      (person ∷ person ∷ []) chosen.0 chosen.1

-- seen twice: the target is confirmed
locked :
    (s : Pipeline Num (Option (PixelBbox Num))) × (run micros still cfg start
        (saw (person ∷ []) ∷ saw (person ∷ []) ∷ [])
      ≡ ok s)
    × (s.state ≡ tracking)
unfolding run process_frame pick_best_box score_box num_of_int tracking_result normalize_bbox_xywh
    should_detect ◌-ℤ◌
locked = (_, refl, refl)

lock_needs_frames_example : (ltb_ℤ (pos 1) (pos 2) ≡ true) × (2 ≤ 2)
lock_needs_frames_example =
    lock_needs_frames micros still cfg none (saw (person ∷ []) ∷ saw (person ∷ []) ∷ []) locked.1
      locked.2

first_frame :
    (r : TrackerResult Num) × (s : Pipeline Num (Option (PixelBbox Num))) × (process_frame micros
        still cfg start 0
        (pos 1)
        (pos 640)
        (pos 480)
        (person ∷ [])
      ≡ ok (r, s))
unfolding process_frame pick_best_box score_box num_of_int should_detect ◌-ℤ◌
first_frame = (_, _, refl)

process_frame-Inv_example : Inv micros still cfg first_frame.1
process_frame-Inv_example =
    process_frame-Inv micros still cfg micros-Laws cfg-IsValid start 0 (pos 1) (pos 640) (pos 480)
      (person ∷ []) (new_pipeline-Inv micros still cfg micros-Laws cfg-IsValid none) first_frame.2

process_frame-Fits_example :
    (no_target ⟶ first_frame.1.state) × Agrees micros still cfg first_frame.0 first_frame.1
process_frame-Fits_example =
    process_frame-Fits micros still cfg micros-Laws start 0 (pos 1) (pos 640) (pos 480)
      (person ∷ []) first_frame.2

-- a search that has gone on for one frame
abbrev looking : Pipeline Num (Option (PixelBbox Num))
looking = record start { state = searching; search_counter = 1 }

searching_gives_up_example :
    (s : Pipeline Num (Option (PixelBbox Num))) × (run micros still cfg looking (saw [] ∷ [])
      ≡ ok s)
    × (s.state ≡ no_target)
searching_gives_up_example =
    searching_gives_up micros still cfg looking (saw []) [] (refl, tt) refl refl

-- a target that the detector stops seeing
abbrev following : Pipeline Num (Option (PixelBbox Num))
following = record start {
  state = tracking;
  tracker_active = true;
  last_tracker_bbox = some person.bbox;
  last_tracking_conf = num (pos 900000);
  tracker = some person.bbox;
}

coasted :
    (s : Pipeline Num (Option (PixelBbox Num))) × (run micros still cfg following
        (saw [] ∷ saw [] ∷ [])
      ≡ ok s)
    × (s.state ≡ tracking)
unfolding run process_frame pick_best_box num_of_int tracking_result normalize_bbox_xywh
    should_detect ◌-ℤ◌
coasted = (_, refl, refl)

conf_nonneg : le_num (decimal_num (pos 0) 0) (num (pos 900000)) ≡ true
unfolding le_num decimal_num scale ◌*ℤ◌
conf_nonneg = refl

coasting_decays_example : IsDecayOf micros still cfg (num (pos 900000)) coasted.0.last_tracking_conf
coasting_decays_example =
    coasting_decays micros still cfg micros-Laws cfg-IsValid following (saw [] ∷ saw [] ∷ [])
      (refl, (refl, tt)) conf_nonneg refl coasted.1 coasted.2

build_vis_payload_accepted_example :
    validate_vis_message micros (
      object (
        build_vis_payload micros
          (pos 3)
          (num (pos 0))
          tracking
          (record { cx = num (pos 700000); cy = nan; w = num (pos 100000); h = num (pos 100000) })
          nan))
    ≡ ok (
        build_vis_payload micros
          (pos 3)
          (num (pos 0))
          tracking
          (record { cx = num (pos 700000); cy = nan; w = num (pos 100000); h = num (pos 100000) })
          nan)
build_vis_payload_accepted_example =
    build_vis_payload_accepted micros micros-Laws (pos 3) (num (pos 0)) tracking
      (record { cx = num (pos 700000); cy = nan; w = num (pos 100000); h = num (pos 100000) }) nan

vga-IsSize : IsSize micros (pos 640) (pos 480)
unfolding num_of_int ◌*ℤ◌
vga-IsSize = record {
  w_pos = refl;
  h_pos = refl;
  width = num (pos 640000000);
  height = num (pos 480000000);
  area = num (pos 307200000000);
  of_w = refl;
  of_h = refl;
  of_area = refl;
}

process_frame_total_example :
    Ends micros
      (pos 640)
      (pos 480)
      vga-IsSize
      still
      cfg
      start.tracker
      0
      (process_frame micros still cfg start 0 (pos 1) (pos 640) (pos 480) (person ∷ []))
process_frame_total_example =
    process_frame_total micros (pos 640) (pos 480) vga-IsSize still cfg start 0 (pos 1)
      (person ∷ [])
