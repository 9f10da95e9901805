-- ===== src/Backend/RateLimit.antt =====
-- src/backend/rate_limit.py: a token bucket for each address.
pub mod Bound
use aot_drone.Common.{Bool, true, false, String, str_eq, if◌then◌else◌, List, [], ◌∷◌}
use aot_drone.Runtime.{Runtime, zero_f, one_f, max_f, min_f}

-- `TokenBucket`
pub record TokenBucket (F : Type 0) : Type 0 where
  pub capacity : F
  pub refill_per_s : F
  pub tokens : F
  pub last_refill_s : F

-- `IpRateLimiter`; its dict keeps the order of insertion
pub record IpRateLimiter (F : Type 0) : Type 0 where
  pub capacity : F
  pub refill_per_s : F
  pub buckets : List (String × TokenBucket F)

module _ (R : Runtime) where
  open R use {Float, le, add, sub, mul}

  -- `TokenBucket.__init__` at the time `now_s`
  abbrev pub new_token_bucket : Float → Float → Float → TokenBucket Float
  new_token_bucket capacity refill_per_s now_s = record {
    capacity = capacity;
    refill_per_s = refill_per_s;
    tokens = capacity;
    last_refill_s = now_s;
  }

  -- the tokens that are there at `now`
  unfoldable pub refilled : Float → TokenBucket Float → Float
  unfolding min_f max_f
  refilled now b =
      let elapsed = max_f R (zero_f R) (sub now b.last_refill_s) in
      min_f R b.capacity (add b.tokens (mul elapsed b.refill_per_s))

  -- `TokenBucket.allow`
  unfoldable pub allow : Float → TokenBucket Float → Bool × TokenBucket Float
  unfolding refilled
  allow now b =
      let tokens = refilled now b in
      if le (one_f R) tokens
      then (true, record b { tokens = sub tokens (one_f R); last_refill_s = now })
      else (false, record b { tokens = tokens; last_refill_s = now })

  -- the bucket of the address, made when there is none, and its answer
  unfoldable pub allow_in :
      Float
      → Float
      → Float
      → String
      → List (String × TokenBucket Float)
      → Bool × List (String × TokenBucket Float)
  unfolding allow
  allow_in capacity refill_per_s now ip [] =
      let (ok, b) = allow now (new_token_bucket capacity refill_per_s now) in (ok, (ip, b) ∷ [])
  allow_in capacity refill_per_s now ip ((k, b) ∷ rest) =
      let (here, b') = allow now b in
      let (there, rest') = allow_in capacity refill_per_s now ip rest in
      if str_eq k ip then (here, (k, b') ∷ rest) else (there, (k, b) ∷ rest')

  -- `IpRateLimiter.allow`, with one reading of the clock for the two of a new bucket
  unfoldable pub allow_ip : Float → String → IpRateLimiter Float → Bool × IpRateLimiter Float
  unfolding allow_in
  allow_ip now ip l =
      let (answer, buckets) = allow_in l.capacity l.refill_per_s now ip l.buckets in
      (answer, record l { buckets = buckets })
