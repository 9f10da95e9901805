-- ===== src/Vision/RunLoop.antt =====
-- One turn of `run_loop` of src/vision/main.py, from a frame to the messages that are sent. The
-- result of the pipeline or of the pattern is an argument, and so is what the network answers.
pub mod Pace
use aot_drone.Common.Int.{pos}
use aot_drone.Json.{Fields}
use aot_drone.Vision.Payload.{build_vis_payload}
use aot_drone.Vision.Pipeline.Defs.{TrackerResult}
use aot_drone.Runtime.{one_f, zero_f, Runtime}
use aot_drone.Common.{
  true, List, false, ℕ, ◌∷◌, ◌&&◌, some, Bool, not, leb, ◌||◌, none, ◌+◌, Option, if◌then◌else◌, [],
}

-- the variables of the loop; `published` is the times of the messages that the publisher got and
-- `vis_sent` the payloads that `vis_sender_impl.send` got, the last one first
pub record RunLoop (F : Type 0) : Type 0 where
  pub next_vis_emit_ts : F
  pub next_frame_push_ts : F
  pub frame_id : ℕ
  pub emitted_count : ℕ
  pub vis_seq : ℕ
  pub consecutive_black_frames : ℕ
  pub black_frame_warn_emitted : Bool
  pub pushes : List F
  pub published : List F
  pub vis_sent : List (Fields F)

-- `config.vis_hz` and `config.frame_fps`, and whether there is a sender and a pusher
pub record LoopConfig (F : Type 0) : Type 0 where
  pub vis_hz : F
  pub frame_fps : F
  pub has_sender : Bool
  pub has_pusher : Bool
  pub max_frames : Option ℕ

module _ (R : Runtime) (cfg : LoopConfig R.Float) where
  open R use {Float, lt, le, add, div}

  -- `(1.0 / hz) if hz > 0 else 0.0`
  abbrev pub interval_of : Float → Float
  interval_of hz = if lt (zero_f R) hz then div (one_f R) hz else zero_f R

  abbrev pub is_zero : Float → Bool
  is_zero x = le x (zero_f R) && le (zero_f R) x

  -- `interval_s == 0.0 or now_s >= next_ts`
  abbrev pub is_due : Float → Float → Float → Bool
  is_due interval_s now_s next_ts = is_zero interval_s || le next_ts now_s

  abbrev pub next_after : Float → Float → Float → Float
  next_after interval_s now_s next_ts =
      if lt (zero_f R) interval_s then add now_s interval_s else next_ts

  -- before the first frame
  abbrev pub new_loop : RunLoop Float
  new_loop = record {
    next_vis_emit_ts = zero_f R;
    next_frame_push_ts = zero_f R;
    frame_id = 0;
    emitted_count = 0;
    vis_seq = 1;
    consecutive_black_frames = 0;
    black_frame_warn_emitted = false;
    pushes = [];
    published = [];
    vis_sent = [];
  }

  -- the frames of little variance in a row; a NaN is not below the threshold. Tells whether the
  -- warning is printed.
  unfoldable pub watch_variance : Float → RunLoop Float → Bool × RunLoop Float
  watch_variance frame_variance s =
      let black = s.consecutive_black_frames + 1 in
      let warns = leb 30 black && not s.black_frame_warn_emitted in
      if le frame_variance frame_variance && lt frame_variance (one_f R)
      then (
        warns,
        record s {
          consecutive_black_frames = black;
          black_frame_warn_emitted = s.black_frame_warn_emitted || warns;
        },
      )
      else (false, record s { consecutive_black_frames = 0; black_frame_warn_emitted = false })

  unfoldable pub push_if_due : Float → RunLoop Float → RunLoop Float
  push_if_due now_s s =
      let interval_s = interval_of cfg.frame_fps in
      if cfg.has_pusher && is_due interval_s now_s s.next_frame_push_ts
      then record s {
        pushes = now_s ∷ s.pushes;
        next_frame_push_ts = next_after interval_s now_s s.next_frame_push_ts;
      }
      else s

  -- with a sender, or without one
  abbrev pub send_result : Bool → Float → TrackerResult Float → RunLoop Float → RunLoop Float
  send_result false now_s r s = s
  send_result true now_s r s = record s {
    vis_sent = build_vis_payload R (pos s.vis_seq) now_s r.state r.bbox r.conf ∷ s.vis_sent;
    vis_seq = s.vis_seq + 1;
  }

  -- sending leaves `next_vis_emit_ts` alone, so it is set with the rest
  unfoldable pub emit_if_due : Float → TrackerResult Float → RunLoop Float → RunLoop Float
  unfolding build_vis_payload
  emit_if_due now_s r s =
      let interval_s = interval_of cfg.vis_hz in
      if is_due interval_s now_s s.next_vis_emit_ts
      then send_result cfg.has_sender now_s r (record s {
        published = now_s ∷ s.published;
        emitted_count = s.emitted_count + 1;
        next_vis_emit_ts = next_after interval_s now_s s.next_vis_emit_ts;
      })
      else s

  abbrev is_last : Option ℕ → ℕ → Bool
  is_last none frame_id = false
  is_last (some max_frames) frame_id = leb max_frames frame_id

  -- a turn with a frame; tells whether the loop goes on
  unfoldable pub turn : Float → Float → TrackerResult Float → RunLoop Float → Bool × RunLoop Float
  unfolding watch_variance push_if_due emit_if_due
  turn frame_variance now_s r s =
      let s1 = (watch_variance frame_variance (record s { frame_id = s.frame_id + 1 })).1 in
      let s2 = emit_if_due now_s r (push_if_due now_s s1) in
      (not (is_last cfg.max_frames s2.frame_id), s2)
