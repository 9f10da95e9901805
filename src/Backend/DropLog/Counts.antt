-- ===== src/Backend/DropLog/Counts.antt =====
-- No event of the drop log is lost (src/backend/tel_ingest.py).
use aot_drone.Common.{
  ℕ, suc, ◌+◌, ◌≤◌, ◌≡◌, refl, ap, Option, none, some, List, [], ◌∷◌, length, arith,
}
use aot_drone.Runtime.{Runtime}
use aot_drone.Backend.DropLog.{Bucket, new_bucket, log_in}

module _ (R : Runtime) where
  open R use {Float}

  -- the events that a warning tells of, its own and those of its suffix
  abbrev told : Option ℕ → ℕ
  told none = 0
  told (some suppressed) = suc suppressed

  -- the events of one reason, at these times: how many of them the warnings tell of, and the bucket
  pub log_all : Float → List Float → Bucket Float → ℕ × Bucket Float
  log_all min_interval_s [] b = (0, b)
  log_all min_interval_s (now_s ∷ times) b =
      let (out, b') = log_in R min_interval_s now_s b in
      let (n, b'') = log_all min_interval_s times b' in (told out + n, b'')

  log_in-counts :
      (i now_s : Float) (b : Bucket Float)
      → let (out, b') = log_in R i now_s b in
        (told out + b'.suppressed ≡ b.suppressed + 1) × (b'.seen ≡ b.seen + 1)
  unfolding log_in
  log_in-counts i now_s b = ground arith

  log_all-counts :
      (i : Float) (times : List Float) (b : Bucket Float)
      → let (n, b') = log_all i times b in
        (n + b'.suppressed ≡ b.suppressed + length times) × (b'.seen ≡ b.seen + length times)
  unfolding log_all
  log_all-counts i [] b = omega arith
  log_all-counts i (now_s ∷ times) b =
      let (out, b') = log_in R i now_s b in
      omega (arith, log_in-counts i now_s b, log_all-counts i times b')

  first_told : (i now_s : Float) → (log_in R i now_s (new_bucket R)).0 ≡ some 0
  unfolding log_in
  first_told i now_s = refl

  -- Of the events of one reason, one or more, each is told of by a warning or waits in
  -- `suppressed`, `seen` is their number, and at least one is told of.
  pub log_all_accounts :
      (i now_s : Float) (times : List Float)
      → let (n, b) = log_all i (now_s ∷ times) (new_bucket R) in
        (n + b.suppressed ≡ length (now_s ∷ times)) × (b.seen ≡ length (now_s ∷ times)) × (1 ≤ n)
  unfolding log_all
  log_all_accounts i now_s times =
      let (out, b') = log_in R i now_s (new_bucket R) in
      omega (
        arith,
        log_in-counts i now_s (new_bucket R),
        log_all-counts i times b',
        ap told (first_told i now_s),
      )
