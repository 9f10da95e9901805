-- ===== src/Vision/Pipeline/Blind/Coast.antt =====
-- The published confidence while only the tracker sees the target
-- (src/vision/vision_pipeline.py).
use aot_drone.Common.{◌≡◌, sym, ap, ◌∙◌, ◌⊎◌, inl, inr, true, none, List, [], ◌∷◌, ok, All, arith}
use aot_drone.Common.Int.{ℤ}
use aot_drone.Runtime.{Runtime, Laws, zero_f, one_f}
use aot_drone.Vision.Types.{VisState, no_target, searching, tracking}
use aot_drone.Vision.Pipeline.Config.{Config}
use aot_drone.Vision.Pipeline.Config.Valid.{IsValid}
use aot_drone.Vision.Pipeline.Defs.{TrackerLike, TrackerResult, Pipeline}
use aot_drone.Vision.Pipeline.Frame.{dispatch, decayed_conf}
use aot_drone.Vision.Pipeline.Runs.{FrameInput, on_input, run, run-cons}
use aot_drone.Vision.Pipeline.Blind.{IsBlind, unseen, on_input-blind}

module _ (R : Runtime) (tl : TrackerLike R.Float) (cfg : Config R.Float) where
  open R use {Float, le, mul, lt}
  open tl use {Frame, Tracker}

  -- no target is held and none is being confirmed
  abbrev IsOut : VisState → Type 0
  IsOut v = (v ≡ no_target) ⊎ (v ≡ searching)

  dispatch-IsOut :
      (v : VisState) (u : Pipeline Float Tracker) (i : FrameInput Float Frame)
      {r : TrackerResult Float} {m : Pipeline Float Tracker}
      → IsOut v
      → u.state ≡ v
      → dispatch R tl cfg v u i.frame i.frame_id i.img_w i.img_h none ≡ ok (r, m)
      → IsOut m.state
  unfolding dispatch
  dispatch-IsOut no_target u i o e p = ground arith
  dispatch-IsOut searching u i o e p = ground arith
  dispatch-IsOut _ u i o e p = ground arith

  dispatch_coast :
      (u : Pipeline Float Tracker) (i : FrameInput Float Frame) {r : TrackerResult Float}
      {m : Pipeline Float Tracker}
      → u.state ≡ tracking
      → dispatch R tl cfg tracking u i.frame i.frame_id i.img_w i.img_h none ≡ ok (r, m)
      → ((m.state ≡ tracking) × (m.last_tracking_conf ≡ decayed_conf R tl cfg u.last_tracking_conf))
        ⊎ IsOut m.state
  unfolding dispatch
  dispatch_coast u i e p = ground arith

  unseen_same :
      (s : Pipeline Float Tracker) (frame_id : ℤ)
      → ((unseen R tl cfg s frame_id).state ≡ s.state)
        × ((unseen R tl cfg s frame_id).last_tracking_conf ≡ s.last_tracking_conf)
  unfolding unseen
  unseen_same s frame_id = ground arith

  not_tracking : {v : VisState} → IsOut v → v ≡ tracking → ⊥
  not_tracking o e = ground arith

  -- A blind frame leaves a state that is out where it is.
  on_input-IsOut :
      (s : Pipeline Float Tracker) (i : FrameInput Float Frame) {r : TrackerResult Float}
      {m : Pipeline Float Tracker}
      → IsBlind i
      → IsOut s.state
      → on_input R tl cfg s i ≡ ok (r, m)
      → IsOut m.state
  on_input-IsOut s i b o p =
      dispatch-IsOut s.state (unseen R tl cfg s i.frame_id) i o (unseen_same s i.frame_id).0
        (sym (on_input-blind R tl cfg s i b) ∙ p)

  run-IsOut :
      (s : Pipeline Float Tracker) (is : List (FrameInput Float Frame))
      {s' : Pipeline Float Tracker}
      → All IsBlind is
      → IsOut s.state
      → run R tl cfg s is ≡ ok s'
      → IsOut s'.state
  unfolding run
  run-IsOut s [] b o p = ground arith
  run-IsOut s (i ∷ is) (b, bs) o p =
      let (r, m, first, rest) = run-cons R tl cfg s i is p in
      run-IsOut m is bs (on_input-IsOut s i b o first) rest

  on_input_coast :
      (s : Pipeline Float Tracker) (i : FrameInput Float Frame) {r : TrackerResult Float}
      {m : Pipeline Float Tracker}
      → IsBlind i
      → s.state ≡ tracking
      → on_input R tl cfg s i ≡ ok (r, m)
      → ((m.state ≡ tracking) × (m.last_tracking_conf ≡ decayed_conf R tl cfg s.last_tracking_conf))
        ⊎ IsOut m.state
  on_input_coast s i b e p =
      let u = unseen R tl cfg s i.frame_id in
      let (still, same) = unseen_same s i.frame_id in
      rw same at (
        dispatch_coast u i (still ∙ e) (
          sym (
            on_input-blind R tl cfg s i b
            ∙ ap (λ v. dispatch R tl cfg v u i.frame i.frame_id i.img_w i.img_h none) e)
          ∙ p))

  -- the confidence `c` came from `from` by decay alone
  pub record IsDecayOf (from c : Float) : Type 0 where
    pub nonneg : le (zero_f R) c ≡ true
    pub fell : le c from ≡ true
    pub kept_floor :
        le cfg.tracker_only_conf_floor from ≡ true → le cfg.tracker_only_conf_floor c ≡ true

  module _ (laws : Laws R) (valid : IsValid R cfg) where
    open laws use {le_of_lt, le_trans, mul_shrinks, refl_of_le, le_of_not_lt}

    decayed_conf-IsDecayOf :
        (c : Float) → le (zero_f R) c ≡ true → IsDecayOf c (decayed_conf R tl cfg c)
    unfolding decayed_conf
    decayed_conf-IsDecayOf c h =
        let floor = cfg.tracker_only_conf_floor in
        let decayed = mul c cfg.tracker_only_conf_decay in
        let small =
          mul_shrinks c cfg.tracker_only_conf_decay h valid.decay_pos valid.decay_le_one in
        ground (
          arith,
          valid,
          small,
          refl_of_le floor (one_f R),
          refl_of_le (zero_f R) decayed,
          le_of_not_lt decayed floor,
        )

    IsDecayOf-trans : {a b c : Float} → IsDecayOf a b → IsDecayOf b c → IsDecayOf a c
    IsDecayOf-trans {a} {b} {c} p q = record {
      nonneg = q.nonneg;
      fell = le_trans c b a q.fell p.fell;
      kept_floor = λ h. q.kept_floor (p.kept_floor h);
    }

    -- When the laws of floats hold, the configuration is valid, and frames without detections
    -- lead from TRACKING with a confidence of at least 0 to TRACKING again, the confidence at the
    -- end is between 0 and the one at the start, and has not fallen below the floor if it started
    -- at or above it.
    pub coasting_decays :
        (s : Pipeline Float Tracker) (is : List (FrameInput Float Frame))
        {s' : Pipeline Float Tracker}
        → All IsBlind is
        → le (zero_f R) s.last_tracking_conf ≡ true
        → s.state ≡ tracking
        → run R tl cfg s is ≡ ok s'
        → s'.state ≡ tracking
        → IsDecayOf s.last_tracking_conf s'.last_tracking_conf
    unfolding run
    coasting_decays s [] b h e p e' = record {
      nonneg = ground arith;
      fell = ground (arith, refl_of_le (zero_f R) s.last_tracking_conf h);
      kept_floor = ground arith;
    }
    coasting_decays s (i ∷ is) (b, bs) h e p e' =
        let (r, m, first, rest) = run-cons R tl cfg s i is p in
        elim (on_input_coast s i b e first) [
          | inl (still, conf) ↦
              let one = rw (← conf) at (decayed_conf-IsDecayOf s.last_tracking_conf h) in
              IsDecayOf-trans one (coasting_decays m is bs one.nonneg still rest e')
          | inr out ↦ absurd (not_tracking (run-IsOut m is bs out rest) e')
        ]
