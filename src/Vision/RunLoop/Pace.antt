-- ===== src/Vision/RunLoop/Pace.antt =====
-- The loop keeps its pace and numbers its messages (src/vision/main.py).
use aot_drone.Vision.Payload.Valid.{build_vis_payload_accepted}
use aot_drone.Vision.Payload.{vis_payload_fields, build_vis_payload}
use aot_drone.Vision.Types.{
  NormalizedBbox, VisState, searching, target_detected, no_target, tracking,
}
use aot_drone.Vision.Pipeline.Defs.{TrackerResult}
use aot_drone.Common.Int.{pos}
use aot_drone.Backend.VisSchema.{validate_vis_message}
use aot_drone.Json.{object, Fields, int, get}
use aot_drone.Runtime.{one_f, Laws, Runtime, zero_f}
use aot_drone.Vision.RunLoop.{
  send_result, turn, emit_if_due, push_if_due, new_loop, watch_variance, is_due, RunLoop,
  next_after, LoopConfig, interval_of,
}
use aot_drone.Common.{
  ℕ, ◌∙◌, ap, false, ◌+◌, arith, length, true, ok, inl, ◌∷◌, latest, Bool-cases, inr, some, ◌≡◌,
  subst, refl, Spaced, List, All, IsAfter, ◌||◌, not, Bool, ◌&&◌, suc, [],
}

module _ {F : Type 0} where
  -- the numbers of the payloads, the last one first, end with 1
  abbrev pub Numbered : List (Fields F) → Type 0
  Numbered [] = Unit
  Numbered (d ∷ ds) = (get "seq" d ≡ some (int (pos (suc (length ds))))) × Numbered ds

module _ (R : Runtime) (cfg : LoopConfig R.Float) where
  open R use {Float, lt, le, add}

  -- at least the interval after the one before, when there is an interval
  abbrev pub paced : Float → Float → Float → Bool
  paced interval_s t u = not (lt (zero_f R) interval_s) || le (add u interval_s) t

  -- the times of what is done once an interval, and when it is next due
  pub record IsPaced (interval_s next_ts : Float) (ts : List Float) : Type 0 where
    pub spaced : Spaced (paced interval_s) ts
    pub next :
        (u : Float)
        → lt (zero_f R) interval_s ≡ true
        → latest ts ≡ some u
        → next_ts ≡ add u interval_s

  -- the payloads are numbered from 1, and the backend accepts each
  pub record IsSeries (vis_seq : ℕ) (vis_sent : List (Fields Float)) : Type 0 where
    pub seq_next : vis_seq ≡ suc (length vis_sent)
    pub numbered : Numbered vis_sent
    pub accepted : All (λ d. validate_vis_message R (object d) ≡ ok d) vis_sent

  pub record LoopInv (s : RunLoop Float) : Type 0 where
    pub vis : IsPaced (interval_of R cfg cfg.vis_hz) s.next_vis_emit_ts s.published
    pub frames : IsPaced (interval_of R cfg cfg.frame_fps) s.next_frame_push_ts s.pushes
    pub emitted : s.emitted_count ≡ length s.published
    pub series : IsSeries s.vis_seq s.vis_sent

  module _ (laws : Laws R) where
    open laws use {not_lt_of_le}

    due_paced :
        (interval_s now_s next_ts : Float) (ts : List Float)
        → is_due R cfg interval_s now_s next_ts ≡ true
        → ((u : Float)
            → lt (zero_f R) interval_s ≡ true
            → latest ts ≡ some u
            → next_ts ≡ add u interval_s)
        → IsAfter (paced interval_s) now_s (latest ts)
    due_paced interval_s now_s next_ts [] due next = tt
    due_paced interval_s now_s next_ts (u ∷ us) due next =
        elim (Bool-cases (lt (zero_f R) interval_s)) [
          | inr none_set ↦ rw none_set refl
          | inl set ↦
              let at : next_ts ≡ add u interval_s = next u set refl in
              let due' : is_due R cfg interval_s now_s (add u interval_s) ≡ true =
                subst (λ n. is_due R cfg interval_s now_s n ≡ true) at due in
              rw set (ground (arith, due', set, not_lt_of_le interval_s (zero_f R)))
        ]

    next_after-next :
        (interval_s now_s next_ts u : Float) (ts : List Float)
        → lt (zero_f R) interval_s ≡ true
        → latest (now_s ∷ ts) ≡ some u
        → next_after R cfg interval_s now_s next_ts ≡ add u interval_s
    next_after-next interval_s now_s next_ts u ts set last =
        let same : now_s ≡ u = cc in rw (set, same) refl

    due-IsPaced :
        (interval_s now_s next_ts : Float) (ts : List Float)
        → is_due R cfg interval_s now_s next_ts ≡ true
        → IsPaced interval_s next_ts ts
        → IsPaced interval_s (next_after R cfg interval_s now_s next_ts) (now_s ∷ ts)
    due-IsPaced interval_s now_s next_ts ts due h = record {
      spaced = (due_paced interval_s now_s next_ts ts due h.next, h.spaced);
      next = λ u set last. next_after-next interval_s now_s next_ts u ts set last;
    }

    build_vis_payload-seq :
        (n : ℕ) (now_s : Float) (state : VisState) (bbox : NormalizedBbox Float) (conf : Float)
        → get "seq" (build_vis_payload R (pos n) now_s state bbox conf) ≡ some (int (pos n))
    unfolding build_vis_payload vis_payload_fields get
    build_vis_payload-seq n now_s tracking bbox conf = refl
    build_vis_payload-seq n now_s no_target bbox conf = refl
    build_vis_payload-seq n now_s target_detected bbox conf = refl
    build_vis_payload-seq n now_s searching bbox conf = refl

    send-IsSeries :
        (now_s : Float) (r : TrackerResult Float) (vis_seq : ℕ) (vis_sent : List (Fields Float))
        → IsSeries vis_seq vis_sent
        → IsSeries
            (vis_seq + 1)
            (build_vis_payload R (pos vis_seq) now_s r.state r.bbox r.conf ∷ vis_sent)
    send-IsSeries now_s r vis_seq vis_sent h = record {
      seq_next = omega (arith, h.seq_next);
      numbered = (
        build_vis_payload-seq vis_seq now_s r.state r.bbox r.conf
            ∙ ap (λ n. some (int (pos n))) h.seq_next,
        h.numbered,
      );
      accepted =
          (build_vis_payload_accepted R laws (pos vis_seq) now_s r.state r.bbox r.conf, h.accepted);
    }

    watch_variance-LoopInv :
        (variance : Float) (s : RunLoop Float)
        → LoopInv s
        → LoopInv (watch_variance R cfg variance s).1
    unfolding watch_variance
    watch_variance-LoopInv variance s h =
        elim (Bool-cases (le variance variance && lt variance (one_f R))) [
          | inl black ↦
              rw black
                (record { vis = h.vis; frames = h.frames; emitted = h.emitted; series = h.series })
          | inr bright ↦
              rw bright
                (record { vis = h.vis; frames = h.frames; emitted = h.emitted; series = h.series })
        ]

    and_right : (a b : Bool) → a && b ≡ true → b ≡ true
    and_right true b h = h
    and_right false b h = cc

    push_if_due-LoopInv :
        (now_s : Float) (s : RunLoop Float) → LoopInv s → LoopInv (push_if_due R cfg now_s s)
    unfolding push_if_due
    push_if_due-LoopInv now_s s h =
        let interval_s = interval_of R cfg cfg.frame_fps in
        let now_due = is_due R cfg interval_s now_s s.next_frame_push_ts in
        elim (Bool-cases (cfg.has_pusher && now_due)) [
          | inr early ↦ rw early h
          | inl due ↦ rw due (record {
            vis = h.vis;
            frames =
                due-IsPaced interval_s now_s s.next_frame_push_ts s.pushes
                  (and_right cfg.has_pusher now_due due) h.frames;
            emitted = h.emitted;
            series = h.series;
          })
        ]

    send_result-LoopInv :
        (sends : Bool) (now_s : Float) (r : TrackerResult Float) (s : RunLoop Float)
        → LoopInv s
        → LoopInv (send_result R cfg sends now_s r s)
    send_result-LoopInv false now_s r s h = h
    send_result-LoopInv true now_s r s h = record {
      vis = h.vis;
      frames = h.frames;
      emitted = h.emitted;
      series = send-IsSeries now_s r s.vis_seq s.vis_sent h.series;
    }

    emit_if_due-LoopInv :
        (now_s : Float) (r : TrackerResult Float) (s : RunLoop Float)
        → LoopInv s
        → LoopInv (emit_if_due R cfg now_s r s)
    unfolding emit_if_due
    emit_if_due-LoopInv now_s r s h =
        let interval_s = interval_of R cfg cfg.vis_hz in
        elim (Bool-cases (is_due R cfg interval_s now_s s.next_vis_emit_ts)) [
          | inr early ↦ rw early h
          | inl due ↦ rw due (
              send_result-LoopInv cfg.has_sender now_s r _ (record {
                vis = due-IsPaced interval_s now_s s.next_vis_emit_ts s.published due h.vis;
                frames = h.frames;
                emitted = omega (arith, h.emitted);
                series = h.series;
              }))
        ]

    -- When the laws of floats hold, a turn of the loop keeps its invariant: messages and frames
    -- are each at least their interval apart when there is one, the emitted messages are counted,
    -- and the payloads that were sent are numbered from 1 without a gap and each is accepted by
    -- the validator of the backend.
    pub turn-LoopInv :
        (frame_variance now_s : Float) (r : TrackerResult Float) (s : RunLoop Float)
        → LoopInv s
        → LoopInv (turn R cfg frame_variance now_s r s).1
    unfolding turn
    turn-LoopInv frame_variance now_s r s h = emit_if_due-LoopInv now_s r _ (
        push_if_due-LoopInv now_s _ (
          watch_variance-LoopInv frame_variance _
            (record { vis = h.vis; frames = h.frames; emitted = h.emitted; series = h.series })))

    pub new_loop-LoopInv : LoopInv (new_loop R cfg)
    new_loop-LoopInv = record {
      vis = record { spaced = tt; next = λ u set last. cc };
      frames = record { spaced = tt; next = λ u set last. cc };
      emitted = refl;
      series = record { seq_next = refl; numbered = tt; accepted = tt };
    }
