-- ===== src/Vision/SimpleTracker.antt =====
-- `SimpleTracker` (src/vision/tracker.py): a state machine over the first detection of each frame.
pub mod States
use aot_drone.Common.{
  ℕ, ◌+◌, Bool, true, false, ◌&&◌, if◌then◌else◌, List, [], ◌∷◌, Result, ok, raise, value_error,
  guard, not, ◌>>=◌, ◌>>◌,
}
use aot_drone.Common.Exec.{Exec}
use aot_drone.Common.Int.{ℤ, pos, leb_ℤ, ltb_ℤ, to_ℕ}
use aot_drone.Runtime.{Runtime, zero_f}
use aot_drone.Vision.Types.{
  VisState, no_target, target_detected, tracking, searching, NormalizedBbox, Detection, zero_bbox,
  clamp01, normalize_bbox_xywh,
}
use aot_drone.Vision.Pipeline.Defs.{TrackerResult, zero_result}

pub record SimpleTracker (F : Type 0) : Type 0 where
  pub detect_hold_n : ℤ
  pub search_n : ℤ
  pub state : VisState
  pub detect_streak : ℕ
  pub missing_streak : ℕ
  pub last_bbox : NormalizedBbox F
  pub last_conf : F
  pub last_track_id : ℤ

abbrev pub is_tracking : VisState → Bool
is_tracking tracking = true
is_tracking _ = false

-- `state in (TRACKING, SEARCHING)`
abbrev pub was_tracking : VisState → Bool
was_tracking tracking = true
was_tracking searching = true
was_tracking _ = false

module _ (R : Runtime) where
  open R use {Float}

  -- `__init__`
  unfoldable pub new_tracker : ℤ → ℤ → Result (SimpleTracker Float)
  new_tracker detect_hold_n search_n = do
    guard (not (ltb_ℤ detect_hold_n (pos 0))) value_error
    guard (not (ltb_ℤ search_n (pos 0))) value_error
    ok (record {
      detect_hold_n = detect_hold_n;
      search_n = search_n;
      state = no_target;
      detect_streak = 0;
      missing_streak = 0;
      last_bbox = zero_bbox R;
      last_conf = zero_f R;
      last_track_id = pos 0;
    })

  unfoldable pub reset_tracker : SimpleTracker Float → SimpleTracker Float
  reset_tracker t = record t {
    state = no_target;
    detect_streak = 0;
    missing_streak = 0;
    last_bbox = zero_bbox R;
    last_conf = zero_f R;
    last_track_id = pos 0;
  }

  -- the state and the streak of a frame with a detection
  unfoldable pub see : SimpleTracker Float → SimpleTracker Float
  see t =
      let t' = record t { missing_streak = 0 } in
      let streak = t'.detect_streak + 1 in
      if is_tracking t'.state then t' else record t' {
        detect_streak = streak;
        state = if leb_ℤ (pos streak) t'.detect_hold_n then target_detected else tracking;
      }

  -- `max(0, int(track_id))`
  abbrev track_id_of : ℤ → ℤ
  track_id_of n = if ltb_ℤ (pos 0) n then n else pos 0

  -- the box of the detection, or the error of its normalization, after which the new state stays
  abbrev pub on_box :
      Detection Float
      → Result (NormalizedBbox Float)
      → Exec (SimpleTracker Float) (TrackerResult Float)
  on_box d (raise e) t = (raise e, t)
  on_box d (ok bbox) t =
      let conf = clamp01 R d.confidence in
      let track_id = track_id_of d.track_id in
      (
        ok (record { state = t.state; bbox = bbox; conf = conf; track_id = track_id }),
        record t { last_bbox = bbox; last_conf = conf; last_track_id = track_id },
      )

  -- `_update_with_detection`
  unfoldable pub update_with_detection :
      Detection Float → ℤ → ℤ → Exec (SimpleTracker Float) (TrackerResult Float)
  unfolding see
  update_with_detection d img_w img_h t =
      on_box d (normalize_bbox_xywh R d.bbox img_w img_h) (see t)

  -- the end of `_update_without_detection`
  abbrev pub give_up : SimpleTracker Float → TrackerResult Float × SimpleTracker Float
  give_up t = (
    zero_result R no_target,
    record t {
      state = no_target;
      missing_streak = 0;
      last_bbox = zero_bbox R;
      last_conf = zero_f R;
      last_track_id = pos 0;
    },
  )

  -- `_update_without_detection`
  unfoldable pub update_without_detection :
      SimpleTracker Float → TrackerResult Float × SimpleTracker Float
  update_without_detection t =
      let t0 = record t { detect_streak = 0 } in
      let t1 = record t0 { missing_streak = t0.missing_streak + 1 } in
      if was_tracking t0.state && ltb_ℤ (pos 0) t0.search_n
      then if leb_ℤ (pos t1.missing_streak) t1.search_n
        then (zero_result R searching, record t1 { state = searching })
        else give_up t1
      else give_up t0

  -- `update`
  unfoldable pub update_simple :
      List (Detection Float) → ℤ → ℤ → Exec (SimpleTracker Float) (TrackerResult Float)
  unfolding update_with_detection update_without_detection
  update_simple [] img_w img_h t = let (r, t') = update_without_detection t in (ok r, t')
  update_simple (d ∷ ds) img_w img_h t = update_with_detection d img_w img_h t
