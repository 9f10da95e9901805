-- ===== src/Backend/RateLimit/Bound.antt =====
-- A bucket holds between 0 and `capacity` tokens, and an address spends only its own
-- (src/backend/rate_limit.py).
use aot_drone.Common.{
  ◌≡◌, refl, true, false, Bool-cases, inl, inr, String, str_eq, if◌then◌else◌, Option, none, some,
  List, [], ◌∷◌, arith, eq_iff, eq_refl,
}
use aot_drone.Runtime.{Runtime, Laws, zero_f, one_f, max_f, min_f}
use aot_drone.Backend.RateLimit.{
  TokenBucket, IpRateLimiter, new_token_bucket, refilled, allow, allow_in, allow_ip,
}

module _ (R : Runtime) where
  open R use {Float, lt, le, add, sub, mul, is_finite}

  -- what IEEE 754 says of the arithmetic of tokens
  pub record TokenLaws : Type 0 where
    pub zero_finite : is_finite (zero_f R) ≡ true
    pub spend_one :
        (x : Float)
        → le (one_f R) x ≡ true
        → (le (zero_f R) (sub x (one_f R)) ≡ true) × (le (sub x (one_f R)) x ≡ true)
    pub refill_nonneg :
        (t e r : Float)
        → le (zero_f R) t ≡ true
        → le (zero_f R) e ≡ true
        → le (zero_f R) r ≡ true
        → is_finite e ≡ true
        → is_finite r ≡ true
        → le (zero_f R) (add t (mul e r)) ≡ true

  pub record IsFilled (b : TokenBucket Float) : Type 0 where
    pub nonneg : le (zero_f R) b.tokens ≡ true
    pub within : le b.tokens b.capacity ≡ true

  -- a rate that a bucket can be refilled at
  pub record IsRate (r : Float) : Type 0 where
    pub rate_nonneg : le (zero_f R) r ≡ true
    pub rate_finite : is_finite r ≡ true

  module _ (laws : Laws R) (token_laws : TokenLaws) where
    open laws use {le_of_lt, le_trans, refl_of_le}
    open token_laws use {zero_finite, spend_one, refill_nonneg}

    min_bounds :
        (x c : Float)
        → le (zero_f R) x ≡ true
        → le (zero_f R) c ≡ true
        → le c c ≡ true
        → (le (zero_f R) (min_f R c x) ≡ true) × (le (min_f R c x) c ≡ true)
    unfolding min_f
    min_bounds x c low low' own = ground (arith, le_of_lt x c)

    refilled-bounds :
        (now : Float) (b : TokenBucket Float)
        → IsRate b.refill_per_s
        → is_finite (sub now b.last_refill_s) ≡ true
        → IsFilled b
        → (le (zero_f R) (refilled R now b) ≡ true) × (le (refilled R now b) b.capacity ≡ true)
    unfolding refilled max_f min_f
    refilled-bounds now b rate finite h =
        let elapsed = max_f R (zero_f R) (sub now b.last_refill_s) in
        let capacity_nonneg = le_trans (zero_f R) b.tokens b.capacity h.nonneg h.within in
        let elapsed_nonneg : le (zero_f R) elapsed ≡ true = ground (
          arith,
          le_of_lt (zero_f R) (sub now b.last_refill_s),
          refl_of_le (zero_f R) b.tokens h.nonneg,
        ) in
        let elapsed_finite : is_finite elapsed ≡ true = ground (arith, finite, zero_finite) in
        let sum_nonneg =
          refill_nonneg b.tokens elapsed b.refill_per_s h.nonneg elapsed_nonneg rate.rate_nonneg
            elapsed_finite rate.rate_finite in
        min_bounds (add b.tokens (mul elapsed b.refill_per_s)) b.capacity sum_nonneg capacity_nonneg
          (refl_of_le b.tokens b.capacity h.within).1

    -- When the laws of floats hold, the rate is finite and not below 0, and the time since the
    -- last call is finite, a bucket with 0 to `capacity` tokens has so after `allow` too, which
    -- answers yes exactly when there is a whole token after the refill.
    pub allow-IsFilled :
        (now : Float) (b : TokenBucket Float)
        → IsRate b.refill_per_s
        → is_finite (sub now b.last_refill_s) ≡ true
        → IsFilled b
        → IsFilled (allow R now b).1 × ((allow R now b).0 ≡ le (one_f R) (refilled R now b))
    unfolding allow
    allow-IsFilled now b rate finite h =
        let (low, high) = refilled-bounds now b rate finite h in
        elim (Bool-cases (le (one_f R) (refilled R now b))) [
          | inl enough ↦
              let (spent_low, spent_high) = spend_one (refilled R now b) enough in
              rw enough
                (record { nonneg = spent_low; within = le_trans _ _ _ spent_high high }, refl)
          | inr few ↦ rw few (record { nonneg = low; within = high }, refl)
        ]

  -- the bucket of an address
  pub bucket_of : String → List (String × TokenBucket Float) → Option (TokenBucket Float)
  bucket_of ip [] = none
  bucket_of ip ((k, b) ∷ rest) = if str_eq k ip then some b else bucket_of ip rest

  -- the bucket that is there, or a new one
  abbrev pub or_new : Float → Float → Float → Option (TokenBucket Float) → TokenBucket Float
  or_new capacity refill_per_s now none = new_token_bucket R capacity refill_per_s now
  or_new capacity refill_per_s now (some b) = b

  allow_in-bucket_of :
      (capacity refill_per_s now : Float) (ip : String) (bs : List (String × TokenBucket Float))
      → let (answer, bs') = allow_in R capacity refill_per_s now ip bs in
        let own = allow R now (or_new capacity refill_per_s now (bucket_of ip bs)) in
        (answer ≡ own.0)
        × (bucket_of ip bs' ≡ some own.1)
        × ((other : String) → str_eq ip other ≡ false → bucket_of other bs' ≡ bucket_of other bs)
  unfolding allow_in bucket_of
  allow_in-bucket_of capacity refill_per_s now ip [] =
      (refl, rw (eq_refl ip) refl, λ other apart. rw apart refl)
  allow_in-bucket_of capacity refill_per_s now ip ((k, b) ∷ rest) =
      let (answered, stored, kept) = allow_in-bucket_of capacity refill_per_s now ip rest in
      elim (Bool-cases (str_eq k ip)) [
        | inl same ↦
            let at_ip : k ≡ ip = (eq_iff k ip).0 same in
            (
              rw same refl,
              rw (same, same) refl,
              λ other apart.
                  let apart' : str_eq k other ≡ false = rw at_ip apart in rw (same, apart') refl,
            )
        | inr away ↦ (
          rw away answered,
          rw (away, away) stored,
          λ other apart. rw (away, kept other apart) refl,
        )
      ]

  -- A call for an address is answered by its own bucket, or by a new one if it has none, stores
  -- that bucket, and leaves the bucket of every other address as it was.
  pub allow_ip-bucket_of :
      (now : Float) (ip : String) (l : IpRateLimiter Float)
      → let (answer, l') = allow_ip R now ip l in
        let own = allow R now (or_new l.capacity l.refill_per_s now (bucket_of ip l.buckets)) in
        (answer ≡ own.0)
        × (bucket_of ip l'.buckets ≡ some own.1)
        × ((other : String)
            → str_eq ip other ≡ false
            → bucket_of other l'.buckets ≡ bucket_of other l.buckets)
  unfolding allow_ip
  allow_ip-bucket_of now ip l = allow_in-bucket_of l.capacity l.refill_per_s now ip l.buckets
