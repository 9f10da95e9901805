-- ===== src/Examples/Wire.antt =====
-- Numbers, bytes and boxes on fixed inputs: src/backend/cmd_schema.py, src/backend/state.py,
-- src/backend/tel_ingest.py, src/vision/types.py and src/vision/box_select.py.
use aot_drone.Common.{
  ℕ, suc, ◌+◌, ◌%◌, ◌≤◌, ◌≡◌, ◌≢◌, ◌↔◌, refl, true, none, some, List, [], ◌∷◌, ok, arith,
}
use aot_drone.Common.Int.{pos}
use aot_drone.Runtime.Micros.{decimal_num, lt_num, num_of_int, Num, nan, num, micros, micros-Laws}
use aot_drone.Backend.CmdSchema.{frame_cmd_payload}
use aot_drone.Backend.CmdSchema.Framing.{unframe, unframe-frame_cmd_payload}
use aot_drone.Backend.CmdSeq.{cmd_seq_mod, cmd_seq_half, seq_advances, seq_after, reserve}
use aot_drone.Backend.CmdSeq.Order.{seq_advances_iff, seq_advances-seq_after}
use aot_drone.Backend.CmdSeq.Reserve.{reserve_times, reserve_times_distinct}
use aot_drone.Vision.Types.{PixelBbox, NormalizedBbox, clamp01, normalize_bbox_xywh}
use aot_drone.Vision.Types.Clamp.{InUnit, clamp01-InUnit}

abbrev hello : List ℕ
hello = 123 ∷ 125 ∷ []

hello_framed : frame_cmd_payload hello 4096 ≡ ok (0 ∷ 0 ∷ 0 ∷ 2 ∷ 123 ∷ 125 ∷ [])
unfolding frame_cmd_payload
hello_framed = refl

unframe-frame_cmd_payload_example :
    (unframe (0 ∷ 0 ∷ 0 ∷ 2 ∷ 123 ∷ 125 ∷ 7 ∷ []) ≡ some (hello, 7 ∷ [])) × (6 ≤ 4100)
unframe-frame_cmd_payload_example = unframe-frame_cmd_payload hello 4096 (7 ∷ []) hello_framed

-- the last number before the wrap
abbrev last_seq : ℕ
last_seq = 2147483647

seq_advances_iff_example :
    (seq_advances last_seq 0 ≡ true)
    ↔ ((d : ℕ) × (1 ≤ d) × (d ≤ cmd_seq_half) × (0 ≡ (last_seq + d) % cmd_seq_mod))
seq_advances_iff_example = seq_advances_iff last_seq 0 (omega arith) (omega arith)

seq_advances-seq_after_example : seq_advances last_seq (seq_after last_seq) ≡ true
seq_advances-seq_after_example = seq_advances-seq_after last_seq (omega arith)

reserve_times_distinct_example :
    (reserve (reserve_times 1 last_seq) none).0
    ≢ (reserve (reserve_times (1 + suc 4) last_seq) none).0
reserve_times_distinct_example = reserve_times_distinct 1 4 last_seq (omega arith) (omega arith)

clamp01-InUnit_example : InUnit micros (clamp01 micros nan)
clamp01-InUnit_example = clamp01-InUnit micros micros-Laws nan

abbrev box : PixelBbox Num
box = record {
  x = num (pos 100000000);
  y = num (pos 50000000);
  w = num (pos 40000000);
  h = num (pos 80000000);
}

box_normalized :
    (n : NormalizedBbox Num) × (normalize_bbox_xywh micros box (pos 640) (pos 480) ≡ ok n)
unfolding normalize_bbox_xywh num_of_int
box_normalized = (_, refl)

-- what is no number is clamped to 1.0
nan_is_full : clamp01 micros nan ≡ decimal_num (pos 1) 0
unfolding clamp01 lt_num decimal_num
nan_is_full = refl
