-- ===== src/Vision/Senders.antt =====
-- What the vision process sends: `VisUdpSender` (src/vision/udp_vis_sender.py) and `FramePusher`
-- (src/vision/frame_pusher.py), with `clamp_quality` of src/vision/jpeg.py. What the network
-- answers is an argument.
pub mod Counted
use aot_drone.Common.Dicts.{find, assign}
use aot_drone.Common.Int.{ltb_ℤ, ◌-ℤ◌, leb_ℤ, pos, eqb_ℤ, ℤ}
use aot_drone.Runtime.{Runtime, zero_f}
use aot_drone.Common.{
  true, Bool, ltb, none, ◌∷◌, ◌||◌, List, String, false, some, length, ℕ, leb, ◌+◌, ◌&&◌, Option,
  str_eq, if◌then◌else◌, [],
}
use Prim.Native.String.{◌++◌ as join}

-- `_LogBucket`, of both files
pub record LogBucket (F : Type 0) : Type 0 where
  pub last_log_s : F
  pub suppressed : ℕ

-- `sent_ok`, `sent_fail` and `dropped_oversize`, or `push_ok`, `push_fail` and `dropped_oversize`
pub record Counters : Type 0 where
  pub ok_count : ℕ
  pub fail_count : ℕ
  pub dropped_oversize : ℕ

abbrev pub count_ok : Counters → Counters
count_ok c = record c { ok_count = c.ok_count + 1 }

abbrev pub count_fail : Counters → Counters
count_fail c = record c { fail_count = c.fail_count + 1 }

abbrev pub count_oversize : Counters → Counters
count_oversize c = record c { dropped_oversize = c.dropped_oversize + 1 }

-- `sent` is the payloads that the socket took, the last one first.
pub record VisUdpSender (F : Type 0) : Type 0 where
  pub max_payload_bytes : ℕ
  pub log_interval_s : F
  pub counters : Counters
  pub log_buckets : List (String × LogBucket F)
  pub sent : List (List ℕ)

-- a call of `self._client.post`
pub record Post : Type 0 where
  pub headers : List (String × String)
  pub content : List ℕ

-- `posted` is the calls so far, the last one first.
pub record FramePusher (F : Type 0) : Type 0 where
  pub max_jpeg_bytes : ℕ
  pub retry_quality_step : ℤ
  pub log_interval_s : F
  pub api_token : Option String
  pub counters : Counters
  pub log_buckets : List (String × LogBucket F)
  pub posted : List Post

-- `max(1, n)` and `min(100, n)`
abbrev at_least_one : ℤ → ℤ
at_least_one n = if ltb_ℤ (pos 1) n then n else pos 1

abbrev at_most_hundred : ℤ → ℤ
at_most_hundred n = if ltb_ℤ n (pos 100) then n else pos 100

unfoldable pub clamp_quality : ℤ → ℤ
clamp_quality quality = at_least_one (at_most_hundred quality)

module _ (R : Runtime) where
  open R use {Float, le, sub}

  abbrev new_log_bucket : LogBucket Float
  new_log_bucket = record { last_log_s = zero_f R; suppressed = 0 }

  -- whether the event is written to the log, and the bucket after it
  unfoldable pub log_in_bucket : Float → Float → LogBucket Float → Bool × LogBucket Float
  log_in_bucket log_interval_s now_s bucket =
      if (le bucket.last_log_s (zero_f R) && le (zero_f R) bucket.last_log_s)
        || (le log_interval_s (zero_f R) || le log_interval_s (sub now_s bucket.last_log_s))
      then (true, record { last_log_s = now_s; suppressed = 0 })
      else (false, record bucket { suppressed = bucket.suppressed + 1 })

  abbrev or_new_bucket : Option (LogBucket Float) → LogBucket Float
  or_new_bucket none = new_log_bucket
  or_new_bucket (some bucket) = bucket

  -- `_log_rate_limited`
  unfoldable pub log_rate_limited :
      Float → String → Float → List (String × LogBucket Float) → List (String × LogBucket Float)
  unfolding log_in_bucket
  log_rate_limited log_interval_s key now_s buckets =
      assign key (log_in_bucket log_interval_s now_s (or_new_bucket (find key buckets))).1 buckets

  abbrev note_vis : String → Float → VisUdpSender Float → VisUdpSender Float
  note_vis key now_s s = record s {
    log_buckets = log_rate_limited s.log_interval_s key now_s s.log_buckets;
  }

  -- `VisUdpSender.send`, for the bytes of `_encode_compact_json`; `sends` tells whether `sendto`
  -- returns or raises OSError
  unfoldable pub send_vis : List ℕ → Bool → Float → VisUdpSender Float → VisUdpSender Float
  unfolding log_rate_limited
  send_vis payload sends now_s s =
      if ltb s.max_payload_bytes (length payload)
      then note_vis "oversize" now_s (record s { counters = count_oversize s.counters })
      else if sends
      then record s { counters = count_ok s.counters; sent = payload ∷ s.sent }
      else note_vis "send" now_s (record s { counters = count_fail s.counters })

  abbrev note_push : String → Float → FramePusher Float → FramePusher Float
  note_push key now_s p = record p {
    log_buckets = log_rate_limited p.log_interval_s key now_s p.log_buckets;
  }

  abbrev fail_push : String → Float → FramePusher Float → Bool × FramePusher Float
  fail_push key now_s p =
      (false, note_push key now_s (record p { counters = count_fail p.counters }))

  -- an empty token counts as none
  abbrev authorization_of : Option String → List (String × String)
  authorization_of none = []
  authorization_of (some token) =
      if str_eq token "" then [] else ("Authorization", join "Bearer " token) ∷ []

  abbrev pub headers_of : Option String → List (String × String)
  headers_of api_token = ("Content-Type", "image/jpeg") ∷ authorization_of api_token

  -- `post` raised, or it gave a status
  abbrev pub on_posted : Option ℤ → Float → FramePusher Float → Bool × FramePusher Float
  on_posted none now_s p = fail_push "push_exception" now_s p
  on_posted (some status_code) now_s p =
      if leb_ℤ (pos 200) status_code && ltb_ℤ status_code (pos 300)
      then (true, record p { counters = count_ok p.counters })
      else fail_push "push_non_2xx" now_s p

  -- `FramePusher.push`
  unfoldable pub push_jpeg :
      List ℕ → Option ℤ → Float → FramePusher Float → Bool × FramePusher Float
  unfolding log_rate_limited
  push_jpeg jpeg_bytes posts now_s p =
      if ltb p.max_jpeg_bytes (length jpeg_bytes)
      then (false, note_push "oversize" now_s (record p { counters = count_oversize p.counters }))
      else on_posted posts now_s (record p {
        posted = record { headers = headers_of p.api_token; content = jpeg_bytes } ∷ p.posted;
      })

  abbrev pub on_retried :
      Option (List ℕ) → Option ℤ → Float → FramePusher Float → Bool × FramePusher Float
  on_retried none posts now_s p = fail_push "encode_retry" now_s p
  on_retried (some encoded_retry) posts now_s p = push_jpeg encoded_retry posts now_s p

  abbrev pub on_encoded :
      (ℤ → Option (List ℕ))
      → ℤ
      → Option (List ℕ)
      → Option ℤ
      → Float
      → FramePusher Float
      → Bool × FramePusher Float
  on_encoded encoder quality none posts now_s p = fail_push "encode_primary" now_s p
  on_encoded encoder quality (some encoded) posts now_s p =
      let retry_quality = clamp_quality (quality -ℤ p.retry_quality_step) in
      if leb (length encoded) p.max_jpeg_bytes || eqb_ℤ retry_quality quality
      then push_jpeg encoded posts now_s p
      else on_retried (encoder retry_quality) posts now_s p

  -- `FramePusher.push_frame`; `encoder` gives the bytes of the frame at a quality, or raises
  unfoldable pub push_frame :
      (ℤ → Option (List ℕ)) → ℤ → Option ℤ → Float → FramePusher Float → Bool × FramePusher Float
  unfolding push_jpeg clamp_quality
  push_frame encoder quality posts now_s p =
      let quality_primary = clamp_quality quality in
      on_encoded encoder quality_primary (encoder quality_primary) posts now_s p
