-- ===== src/Vision/Pipeline/Blind/GiveUp.antt =====
-- The end of a search that finds nothing (src/vision/vision_pipeline.py).
use aot_drone.Common.{
  ◌≡◌, refl, ap, ◌∙◌, inl, inr, Bool-cases, ◌+◌, true, false, none, List, [], ◌∷◌, ok, length, All,
  arith,
}
use aot_drone.Common.Int.{ℤ, pos, leb_ℤ}
use aot_drone.Runtime.{Runtime}
use aot_drone.Vision.Types.{no_target, searching}
use aot_drone.Vision.Pipeline.Config.{Config}
use aot_drone.Vision.Pipeline.Defs.{
  TrackerLike, TrackerResult, Pipeline, zero_result, transition_no_target,
}
use aot_drone.Vision.Pipeline.Frame.{dispatch}
use aot_drone.Vision.Pipeline.Runs.{FrameInput, on_input, run}
use aot_drone.Vision.Pipeline.Blind.{IsBlind, unseen, on_input-blind}

module _ (R : Runtime) (tl : TrackerLike R.Float) (cfg : Config R.Float) where
  open R use {Float}
  open tl use {Frame, Tracker}

  abbrev Idle : Pipeline Float Tracker → FrameInput Float Frame → Type 0
  Idle s i =
      (r : TrackerResult Float) × (m : Pipeline Float Tracker) × (on_input R tl cfg s i ≡ ok (r, m))
      × (m.state ≡ no_target)

  Idle-step :
      (s : Pipeline Float Tracker) (i : FrameInput Float Frame)
      → IsBlind i
      → s.state ≡ no_target
      → Idle s i
  unfolding dispatch unseen
  Idle-step s i b e =
      let step = on_input-blind R tl cfg s i b in
      (zero_result R no_target, unseen R tl cfg s i.frame_id, rw (step, e) refl, ground arith)

  stays_idle :
      (s : Pipeline Float Tracker) (is : List (FrameInput Float Frame))
      → All IsBlind is
      → s.state ≡ no_target
      → (s' : Pipeline Float Tracker) × (run R tl cfg s is ≡ ok s') × (s'.state ≡ no_target)
  unfolding run
  stays_idle s [] b e = (s, refl, e)
  stays_idle s (i ∷ is) (b, bs) e =
      let (r, m, first, e') = Idle-step s i b e in
      let (s', rest, done) = stays_idle m is bs e' in (s', rw first rest, done)

  -- one more frame of a search either ends it or is counted
  data Searched (s : Pipeline Float Tracker) (i : FrameInput Float Frame) : Type 0 where
    ended :
        (r : TrackerResult Float) (m : Pipeline Float Tracker)
        → on_input R tl cfg s i ≡ ok (r, m)
        → m.state ≡ no_target
        → Searched s i
    counted :
        (r : TrackerResult Float) (m : Pipeline Float Tracker)
        → on_input R tl cfg s i ≡ ok (r, m)
        → m.state ≡ searching
        → m.search_counter ≡ s.search_counter + 1
        → leb_ℤ cfg.search_n (pos (s.search_counter + 1)) ≡ false
        → Searched s i

  abbrev tried : Pipeline Float Tracker → Pipeline Float Tracker
  tried u = record u { search_counter = u.search_counter + 1 }

  -- `dispatch` in SEARCHING, without a detection
  over_lem :
      (u : Pipeline Float Tracker) (i : FrameInput Float Frame)
      → leb_ℤ cfg.search_n (pos (u.search_counter + 1)) ≡ true
      → dispatch R tl cfg searching u i.frame i.frame_id i.img_w i.img_h none
        ≡ ok (zero_result R no_target, transition_no_target R tl (tried u))
  unfolding dispatch
  over_lem u i over = rw over

  more_lem :
      (u : Pipeline Float Tracker) (i : FrameInput Float Frame)
      → leb_ℤ cfg.search_n (pos (u.search_counter + 1)) ≡ false
      → dispatch R tl cfg searching u i.frame i.frame_id i.img_w i.img_h none
        ≡ ok (zero_result R searching, tried u)
  unfolding dispatch
  more_lem u i more = rw more

  unseen_same :
      (s : Pipeline Float Tracker) (frame_id : ℤ)
      → ((unseen R tl cfg s frame_id).state ≡ s.state)
        × ((unseen R tl cfg s frame_id).search_counter ≡ s.search_counter)
  unfolding unseen
  unseen_same s frame_id = ground arith

  transition_no_target_lem :
      (s : Pipeline Float Tracker) → (transition_no_target R tl s).state ≡ no_target
  unfolding transition_no_target
  transition_no_target_lem s = refl

  search_step :
      (s : Pipeline Float Tracker) (i : FrameInput Float Frame)
      → IsBlind i
      → s.state ≡ searching
      → Searched s i
  search_step s i b e =
      let u = unseen R tl cfg s i.frame_id in
      let (still, same) = unseen_same s i.frame_id in
      let step =
        on_input-blind R tl cfg s i b
        ∙ ap (λ v. dispatch R tl cfg v u i.frame i.frame_id i.img_w i.img_h none) e in
      elim (Bool-cases (leb_ℤ cfg.search_n (pos (u.search_counter + 1)))) [
        | inl over ↦
            ended (zero_result R no_target) (transition_no_target R tl (tried u))
              (step ∙ over_lem u i over) (transition_no_target_lem (tried u))
        | inr more ↦
            counted (zero_result R searching) (tried u) (step ∙ more_lem u i more) (still ∙ e)
              (ap (λ n. n + 1) same) (rw same at more)
      ]

  -- the frames after the first
  abbrev GivesUp : Pipeline Float Tracker → List (FrameInput Float Frame) → Type 0
  GivesUp s is =
      (s' : Pipeline Float Tracker) × (run R tl cfg s is ≡ ok s') × (s'.state ≡ no_target)

  run-ok :
      (s m : Pipeline Float Tracker) (r : TrackerResult Float) (i : FrameInput Float Frame)
      (is : List (FrameInput Float Frame))
      → on_input R tl cfg s i ≡ ok (r, m)
      → GivesUp m is
      → GivesUp s (i ∷ is)
  unfolding run
  run-ok s m r i is first (s', rest, done) = (s', rw first rest, done)

  -- From SEARCHING, a run of one or more frames without detections that brings the search counter
  -- to at least `search_n` has no error and ends in NO_TARGET.
  pub searching_gives_up :
      (s : Pipeline Float Tracker) (i : FrameInput Float Frame) (is : List (FrameInput Float Frame))
      → All IsBlind (i ∷ is)
      → s.state ≡ searching
      → leb_ℤ cfg.search_n (pos (s.search_counter + length (i ∷ is))) ≡ true
      → (s' : Pipeline Float Tracker) × (run R tl cfg s (i ∷ is) ≡ ok s') × (s'.state ≡ no_target)
  searching_gives_up s i [] (b, bs) e enough = elim (search_step s i b e) [
    | ended r m first done ↦ run-ok s m r i [] first (stays_idle m [] bs done)
    | counted r m first e' n more ↦ absurd (ground arith)
  ]
  searching_gives_up s i (j ∷ is) (b, bs) e enough = elim (search_step s i b e) [
    | ended r m first done ↦ run-ok s m r i (j ∷ is) first (stays_idle m (j ∷ is) bs done)
    | counted r m first e' n more ↦
        run-ok s m r i (j ∷ is) first (searching_gives_up m j is bs e' (rw n (ground arith)))
  ]
