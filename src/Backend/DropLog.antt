-- ===== src/Backend/DropLog.antt =====
-- The rate-limited log of drops: `_DropReasonLogger` of src/backend/tel_ingest.py, which
-- src/backend/vis_ingest.py and src/backend/cmd_bridge.py (`_BridgeReasonLogger`) repeat.
pub mod Counts
use aot_drone.Common.{
  ℕ, ◌+◌, ◌==◌, Bool, ◌||◌, String, str_eq, if◌then◌else◌, Option, none, some, List, [], ◌∷◌,
}
use aot_drone.Runtime.{Runtime, zero_f}

pub record Bucket (F : Type 0) : Type 0 where
  pub seen : ℕ
  pub suppressed : ℕ
  pub last_log_monotonic_s : F

-- `_buckets`
abbrev pub Buckets : Type 0 → Type 0
Buckets F = List (String × Bucket F)

module _ (R : Runtime) where
  open R use {Float, le, sub}

  abbrev pub new_bucket : Bucket Float
  new_bucket = record { seen = 0; suppressed = 0; last_log_monotonic_s = zero_f R }

  -- one event: a warning with the number of events that it stands for beside its own, or none
  unfoldable pub log_in : Float → Float → Bucket Float → Option ℕ × Bucket Float
  log_in min_interval_s now_s b =
      let b' = record b { seen = b.seen + 1 } in
      if b'.seen == 1
        || (le min_interval_s (zero_f R) || le min_interval_s (sub now_s b.last_log_monotonic_s))
      then (some b.suppressed, record b' { suppressed = 0; last_log_monotonic_s = now_s })
      else (none, record b' { suppressed = b.suppressed + 1 })

  -- `setdefault`, and the event in the bucket of its reason
  unfoldable pub log : Float → String → Float → Buckets Float → Option ℕ × Buckets Float
  unfolding log_in
  log min_interval_s reason now_s [] =
      let (out, b) = log_in min_interval_s now_s new_bucket in (out, (reason, b) ∷ [])
  log min_interval_s reason now_s ((k, b) ∷ rest) =
      let (here, b') = log_in min_interval_s now_s b in
      let (there, rest') = log min_interval_s reason now_s rest in
      if str_eq k reason then (here, (k, b') ∷ rest) else (there, (k, b) ∷ rest')
