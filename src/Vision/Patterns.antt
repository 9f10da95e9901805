-- ===== src/Vision/Patterns.antt =====
-- `PatternGenerator` (src/vision/patterns.py): results without a camera. `sin` is `math.sin`.
pub mod Wellformed
pub mod Repeats
use aot_drone.Vision.Pipeline.Defs.{zero_result, TrackerResult}
use aot_drone.Runtime.{Runtime, zero_f}
use aot_drone.Common.{
  ◌-◌, ◌%◌, Bool, ltb, guard, none, ◌∷◌, ◌||◌, List, String, Result, false, some, value_error, ℕ,
  ok, str_eq, Option, if◌then◌else◌, ◌>>=◌, ◌>>◌, [],
}
use aot_drone.Common.Int.{to_ℕ, pos, ℤ}
use aot_drone.Vision.Types.{
  VisState, NormalizedBbox, no_target, target_detected, searching, tracking, zero_bbox, clamp01,
}

abbrev pub pattern_choices : List String
pattern_choices = "none" ∷ "sweep" ∷ "lose" ∷ "reacquire" ∷ []

abbrev is_choice : String → List String → Bool
is_choice mode [] = false
is_choice mode (choice ∷ choices) = str_eq choice mode || is_choice mode choices

-- `__post_init__`
unfoldable pub new_pattern : String → Result String
new_pattern mode = do guard (is_choice mode pattern_choices) value_error; ok mode

-- `(max(1, frame_id) - 1) % period`
unfoldable pub index_in : ℕ → ℤ → ℕ
index_in period frame_id = (to_ℕ frame_id - 1) % period

module _ (R : Runtime) (sin : R.Float → R.Float) (pi : R.Float) where
  open R use {Float, decimal, of_int, add, mul, div}

  abbrev pub or_zero : Option Float → Float
  or_zero none = zero_f R
  or_zero (some x) = x

  -- `_sweep_bbox`; a number below 120 is a float
  unfoldable pub sweep_bbox : ℤ → NormalizedBbox Float
  unfolding index_in clamp01
  sweep_bbox frame_id =
      let phase = div (or_zero (of_int (pos (index_in 120 frame_id)))) (decimal (pos 119) 0) in
      let turn = mul (mul (decimal (pos 2) 0) pi) phase in
      record {
        cx = clamp01 R (add (decimal (pos 15) 2) (mul (decimal (pos 70) 2) phase));
        cy = clamp01 R (add (decimal (pos 5) 1) (mul (decimal (pos 18) 2) (sin turn)));
        w = decimal (pos 24) 2;
        h = decimal (pos 3) 1;
      }

  -- `_tracking` and `_detected`
  unfoldable pub swept : VisState → ℤ → Float → TrackerResult Float
  unfolding sweep_bbox
  swept state frame_id confidence = record {
    state = state;
    bbox = sweep_bbox frame_id;
    conf = clamp01 R confidence;
    track_id = pos 1;
  }

  -- `_lose`
  unfoldable pub lose : ℤ → TrackerResult Float
  unfolding swept
  lose frame_id =
      let idx = index_in 160 frame_id in
      if ltb idx 70
      then swept tracking frame_id (decimal (pos 9) 1)
      else if ltb idx 100
      then zero_result R searching
      else if ltb idx 130
      then zero_result R no_target
      else swept target_detected frame_id (decimal (pos 7) 1)

  -- `_reacquire`
  unfoldable pub reacquire : ℤ → TrackerResult Float
  unfolding swept
  reacquire frame_id =
      let idx = index_in 180 frame_id in
      if ltb idx 50
      then zero_result R no_target
      else if ltb idx 80
      then swept target_detected frame_id (decimal (pos 65) 2)
      else if ltb idx 140
      then swept tracking frame_id (decimal (pos 93) 2)
      else if ltb idx 165
      then zero_result R searching
      else swept target_detected frame_id (decimal (pos 72) 2)

  -- `update`
  unfoldable pub update_pattern : String → ℤ → TrackerResult Float
  unfolding lose reacquire
  update_pattern mode frame_id =
      if str_eq mode "sweep"
      then swept tracking frame_id (decimal (pos 92) 2)
      else if str_eq mode "lose"
      then lose frame_id
      else if str_eq mode "reacquire"
      then reacquire frame_id
      else zero_result R no_target
