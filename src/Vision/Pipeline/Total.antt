-- ===== src/Vision/Pipeline/Total.antt =====
-- How a frame of a proper size ends (src/vision/vision_pipeline.py).
use aot_drone.Common.Raises.{OnlyRaises-ok, OnlyRaises, OnlyRaises-if, OnlyRaises-bind}
use aot_drone.Common.{
  ◌+◌, inl, ◌⊎◌, Error, Result-cases, subst, inr, raise, if◌then◌else◌, ◌≡◌, refl, Bool, true,
  false, ◌||◌, not, guard, if◌then◌else◌, value_error, ◌>>=◌, ◌>>◌, Returns, Returns-bind,
  Returns-guard, Returns-if, Option, none, some, List, [], ◌∷◌, Result, ok, arith,
}
use aot_drone.Common.Int.{ℤ, pos, leb_ℤ, ◌*ℤ◌}
use aot_drone.Runtime.{Runtime, or_overflow}
use aot_drone.Vision.Types.{
  VisState, no_target, target_detected, tracking, searching, PixelBbox, Detection,
  normalize_bbox_xywh, clamp01,
}
use aot_drone.Vision.BoxSelect.{to_norm_center, score_box, min_by_score, pick_best_box}
use aot_drone.Vision.Pipeline.Config.{Config}
use aot_drone.Vision.Pipeline.Defs.{
  TrackerLike, TrackerResult, Pipeline, tracking_result, update_no_target, update_searching, miss,
  should_detect,
}
use aot_drone.Vision.Pipeline.Frame.{
  correct_from, should_reinit, lock_on, reinit, hold, coast, lose, correct, decayed_conf,
  after_update, current_of, update_target_detected, update_tracking, detect_best, dispatch,
  process_frame,
}

module _ (R : Runtime) where
  open R use {Float, of_int}

  -- a frame with positive sides, whose sides and area are floats
  pub record IsSize (img_w img_h : ℤ) : Type 0 where
    pub w_pos : leb_ℤ img_w (pos 0) ≡ false
    pub h_pos : leb_ℤ img_h (pos 0) ≡ false
    pub width : Float
    pub height : Float
    pub area : Float
    pub of_w : of_int img_w ≡ some width
    pub of_h : of_int img_h ≡ some height
    pub of_area : of_int (img_w *ℤ img_h) ≡ some area

  module _ (img_w img_h : ℤ) (size : IsSize img_w img_h) where
    abbrev sized : Bool
    sized = not (leb_ℤ img_w (pos 0) || leb_ℤ img_h (pos 0))

    sized_lem : sized ≡ true
    sized_lem = ground (arith, size)

    or_overflow_total : (n : ℤ) (x : Float) → of_int n ≡ some x → Returns (or_overflow (of_int n))
    or_overflow_total n x h = rw h (x, refl)

    -- the checks and conversions that each use of the sides begins with
    with_sides_total :
        {A : Type 0} (rest : Float → Float → Result A)
        → ((w h : Float) → Returns (rest w h))
        → Returns (do
          guard sized value_error
          w ← or_overflow (of_int img_w)
          h ← or_overflow (of_int img_h)
          rest w h)
    with_sides_total rest returns =
        Returns-bind (guard sized value_error) _ (Returns-guard sized value_error sized_lem) (λ _.
          Returns-bind (or_overflow (of_int img_w)) _ (or_overflow_total img_w size.width size.of_w)
            (λ w.
              Returns-bind (or_overflow (of_int img_h)) _
                (or_overflow_total img_h size.height size.of_h) (λ h. returns w h)))

    normalize_bbox_xywh_total :
        (b : PixelBbox Float) → Returns (normalize_bbox_xywh R b img_w img_h)
    unfolding normalize_bbox_xywh
    normalize_bbox_xywh_total b = with_sides_total _ (λ w h. (_, refl))

    tracking_result_total :
        (b : PixelBbox Float) (conf : Float) → Returns (tracking_result R b img_w img_h conf)
    unfolding tracking_result
    tracking_result_total b conf =
        Returns-bind (normalize_bbox_xywh R b img_w img_h) _ (normalize_bbox_xywh_total b)
          (λ n. (_, refl))

    to_norm_center_total : (b : PixelBbox Float) → Returns (to_norm_center R b img_w img_h)
    unfolding to_norm_center
    to_norm_center_total b = with_sides_total _ (λ w h. (_, refl))

    module _ (desired_cx desired_cy : Float) where
      score_box_total :
          (b : PixelBbox Float) → Returns (score_box R img_w img_h desired_cx desired_cy b)
      unfolding score_box
      score_box_total b =
          Returns-bind (to_norm_center R b img_w img_h) _ (to_norm_center_total b) (λ center.
            Returns-bind (or_overflow (of_int (img_w *ℤ img_h))) _
              (or_overflow_total (img_w *ℤ img_h) size.area size.of_area) (λ area. (_, refl)))

      min_by_score_total :
          (best : Detection Float) (key : Float) (items : List (Detection Float))
          → Returns (min_by_score R img_w img_h desired_cx desired_cy best key items)
      unfolding min_by_score
      min_by_score_total best key [] = (best, refl)
      min_by_score_total best key (item ∷ items) =
          Returns-bind (score_box R img_w img_h desired_cx desired_cy item.bbox) _
            (score_box_total item.bbox)
            (λ k.
              min_by_score_total (if R.lt k key then item else best) (if R.lt k key then k else key)
                items)

      pick_best_box_total :
          (items : List (Detection Float))
          → Returns (pick_best_box R img_w img_h desired_cx desired_cy items)
      unfolding pick_best_box
      pick_best_box_total [] = (none, refl)
      pick_best_box_total (item ∷ items) =
          Returns-bind (score_box R img_w img_h desired_cx desired_cy item.bbox) _
            (score_box_total item.bbox)
            (λ k.
              Returns-bind (min_by_score R img_w img_h desired_cx desired_cy item k items) _
                (min_by_score_total item k items) (λ d. (some d, refl)))

    module _ (tl : TrackerLike Float) (cfg : Config Float) where
      open tl use {Frame, Tracker}

      -- a locked result with the state beside it
      with_state_total :
          (b : PixelBbox Float) (conf : Float) (s : Pipeline Float Tracker)
          → Returns {A = TrackerResult Float × Pipeline Float Tracker}
              (do r ← tracking_result R b img_w img_h conf; ok (r, s))
      with_state_total b conf s =
          Returns-bind (tracking_result R b img_w img_h conf) _ (tracking_result_total b conf)
            (λ r. ((r, s), refl))

      -- the errors of the tracker on a frame
      pub data TrackerRaises (t : Tracker) (frame : Frame) (e : Error) : Type 0 where
        on_initialize :
            (b : PixelBbox Float) → tl.initialize t frame b ≡ raise e → TrackerRaises t frame e
        on_update : tl.update t frame ≡ raise e → TrackerRaises t frame e

      abbrev Only : {A : Type 0} → Tracker → Frame → Result A → Type 0
      Only t frame m = OnlyRaises (TrackerRaises t frame) m

      of_total :
          {A : Type 0} (t : Tracker) (frame : Frame) (m : Result A) → Returns m → Only t frame m
      of_total t frame m (a, e) = record { at = λ err p. cc }

      initialize-Only :
          (t : Tracker) (frame : Frame) (b : PixelBbox Float)
          → Only t frame (tl.initialize t frame b)
      initialize-Only t frame b = record { at = λ e p. on_initialize b p }

      update-Only : (t : Tracker) (frame : Frame) → Only t frame (tl.update t frame)
      update-Only t frame = record { at = λ e p. on_update p }

      lock_on-Only :
          (t : Tracker) (s : Pipeline Float Tracker) (frame : Frame) (d : Detection Float)
          (started : Bool × Tracker)
          → Only t frame (lock_on R tl cfg s img_w img_h d started)
      lock_on-Only t s frame d (active, t') =
          of_total t frame _ (with_state_total d.bbox (clamp01 R d.confidence) _)

      correct_from-Only :
          (t : Tracker) (s : Pipeline Float Tracker) (frame : Frame) (d : Detection Float)
          (started : Bool × Tracker)
          → Only t frame (correct_from R tl cfg s img_w img_h d started)
      correct_from-Only t s frame d (active, t') =
          of_total t frame _ (with_state_total d.bbox (clamp01 R d.confidence) _)

      update_target_detected-Only :
          (s : Pipeline Float Tracker) (frame : Frame) (o : Option (Detection Float))
          → Only s.tracker frame (update_target_detected R tl cfg s frame img_w img_h o)
      unfolding update_target_detected miss hold
      update_target_detected-Only s frame none =
          OnlyRaises-if _ _ _ (OnlyRaises-ok _) (OnlyRaises-ok _)
      update_target_detected-Only s frame (some d) =
          let held = record s {
            target_detected_miss_streak = 0;
            detected_box = some d;
            detected_hold_counter = s.detected_hold_counter + 1;
          } in
          OnlyRaises-if _ _ _
            (OnlyRaises-bind (tl.initialize s.tracker frame d.bbox) _
              (initialize-Only s.tracker frame d.bbox) (lock_on-Only s.tracker held frame d))
            (OnlyRaises-ok _)

      after_update-Only :
          (t : Tracker) (frame : Frame) (s : Pipeline Float Tracker)
          (said : Bool × Option (PixelBbox Float) × Tracker)
          → Only t frame (after_update R tl cfg s img_w img_h said)
      unfolding coast lose
      after_update-Only t frame s (true, none, t') = OnlyRaises-ok _
      after_update-Only t frame s (true, some b, t') =
          of_total t frame _ (with_state_total b (decayed_conf R tl cfg s.last_tracking_conf) _)
      after_update-Only t frame s (false, bbox, t') = OnlyRaises-ok _

      reinit-Only :
          (s : Pipeline Float Tracker) (frame : Frame) (b : PixelBbox Float)
          → Only s.tracker frame (reinit R tl cfg s frame b)
      reinit-Only s frame b =
          OnlyRaises-if (should_reinit R tl cfg s b) _ _ (initialize-Only s.tracker frame b)
            (OnlyRaises-ok _)

      update_tracking-Only :
          (s : Pipeline Float Tracker) (frame : Frame) (o : Option (Detection Float))
          → Only s.tracker frame (update_tracking R tl cfg s frame img_w img_h o)
      unfolding update_tracking lose correct
      update_tracking-Only s frame none =
          OnlyRaises-if s.tracker_active _ _
            (OnlyRaises-bind (tl.update s.tracker frame) _ (update-Only s.tracker frame)
              (after_update-Only s.tracker frame s))
            (OnlyRaises-ok _)
      update_tracking-Only s frame (some d) =
          OnlyRaises-bind (reinit R tl cfg s frame d.bbox) _ (reinit-Only s frame d.bbox)
            (correct_from-Only s.tracker s frame d)

      dispatch-Only :
          (v : VisState) (s : Pipeline Float Tracker) (frame : Frame) (frame_id : ℤ)
          (o : Option (Detection Float))
          → Only s.tracker frame (dispatch R tl cfg v s frame frame_id img_w img_h o)
      unfolding dispatch update_no_target update_searching
      dispatch-Only no_target s frame frame_id none = OnlyRaises-ok _
      dispatch-Only no_target s frame frame_id (some d) = OnlyRaises-ok _
      dispatch-Only target_detected s frame frame_id o =
          update_target_detected-Only s frame (current_of R tl cfg s frame_id o)
      dispatch-Only tracking s frame frame_id o = update_tracking-Only s frame o
      dispatch-Only searching s frame frame_id none =
          OnlyRaises-if _ _ _ (OnlyRaises-ok _) (OnlyRaises-ok _)
      dispatch-Only searching s frame frame_id (some d) = OnlyRaises-ok _

      detect_best_total :
          (s : Pipeline Float Tracker) (frame_id : ℤ) (detections : List (Detection Float))
          → Returns (detect_best R tl cfg s frame_id img_w img_h detections)
      unfolding detect_best
      detect_best_total s frame_id detections =
          Returns-if (not (should_detect R tl cfg frame_id)) _ _ (_, refl)
            (Returns-bind (pick_best_box R img_w img_h cfg.desired_cx cfg.desired_cy detections) _
              (pick_best_box_total cfg.desired_cx cfg.desired_cy detections) (λ best. (_, refl)))

      same_tracker :
          (s : Pipeline Float Tracker) (frame_id : ℤ) (detections : List (Detection Float))
          {d : Option (Detection Float)} {s' : Pipeline Float Tracker}
          → detect_best R tl cfg s frame_id img_w img_h detections ≡ ok (d, s')
          → s'.tracker ≡ s.tracker
      unfolding detect_best
      same_tracker s frame_id detections p = ground arith

      -- a frame with a result and a state, or with an error that the tracker raised on it
      abbrev pub Ends :
          Tracker → Frame → Result (TrackerResult Float × Pipeline Float Tracker) → Type 0
      Ends t frame m =
          ((out : TrackerResult Float × Pipeline Float Tracker) × (m ≡ ok out))
          ⊎ ((e : Error) × (m ≡ raise e) × TrackerRaises t frame e)

      -- For a frame with positive sides, whose sides and area are in the range of floats,
      -- `process_frame` returns a result and a state, whatever the state and the detections are,
      -- or raises an error that `initialize` or `update` of its tracker raised on that frame.
      pub process_frame_total :
          (s : Pipeline Float Tracker) (frame : Frame) (frame_id : ℤ)
          (detections : List (Detection Float))
          → Ends s.tracker frame (process_frame R tl cfg s frame frame_id img_w img_h detections)
      unfolding process_frame
      process_frame_total s frame frame_id detections =
          let (seen, found) = detect_best_total s frame_id detections in
          let only =
            subst
              (λ t.
                Only t frame (dispatch R tl cfg s.state seen.1 frame frame_id img_w img_h seen.0))
              (same_tracker s frame_id detections found)
              (dispatch-Only s.state seen.1 frame frame_id seen.0) in
          rw found
            (elim (Result-cases
              (dispatch R tl cfg s.state seen.1 frame frame_id img_w img_h seen.0)) [
                | inl (out, e) ↦ inl (out, e)
                | inr (err, e) ↦ inr (err, e, only.at err e)
              ])
