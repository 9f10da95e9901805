-- ===== src/Vision/Camera.antt =====
-- `parse_source` and `CameraSource` (src/vision/camera.py). What OpenCV answers is an argument: a
-- frame, or none where it reads False or no frame.
pub mod Backoff
use aot_drone.Runtime.{min_f, Runtime, StrMethods, zero_f, max_f}
use aot_drone.Common.Texts.{has_text, partition, str_of_ℤ}
use aot_drone.Common.Int.{to_ℕ, ℤ, pos}
use aot_drone.Common.{
  Bool, false, some, List, ℕ, value_error, ◌∷◌, str_eq, String, Result, raise, Option, ok, ◌-◌,
  true, ltb, not, none, if◌then◌else◌, [],
}

pub record SourceSpec : Type 0 where
  pub kind : String
  pub value : String

-- `parse_source`
module _ (R : Runtime) (str : StrMethods) where
  open R use {int_of_text}
  open str use {lower, strip}

  abbrev webcam_of : Option ℤ → Result SourceSpec
  webcam_of none = raise value_error
  webcam_of (some index) = ok (record { kind = "webcam"; value = str_of_ℤ index })

  unfoldable pub spec_of : String → String → Result SourceSpec
  unfolding str_of_ℤ
  spec_of kind value =
      if str_eq kind "webcam"
      then if str_eq value "" then raise value_error else webcam_of (int_of_text value)
      else if str_eq kind "file"
      then if str_eq value ""
        then raise value_error
        else ok (record { kind = "file"; value = value })
      else raise value_error

  unfoldable pub parse_source : String → Result SourceSpec
  unfolding spec_of partition
  parse_source source =
      let raw = strip source in
      let (kind, value) = partition raw ":" in
      if str_eq raw ""
      then raise value_error
      else if not (has_text raw ":")
      then ok (record { kind = "file"; value = raw })
      else spec_of (lower (strip kind)) (strip value)

-- `dead` tells whether `_capture` is the sentinel `_DEAD_CAPTURE`; `slept` is the waits so far, the
-- last one first.
pub record CameraSource (F : Type 0) : Type 0 where
  pub spec : SourceSpec
  pub reconnect_initial_s : F
  pub reconnect_max_s : F
  pub black_frames_after_open : ℕ
  pub dead : Bool
  pub post_open_grace_remaining : ℕ
  pub next_backoff_s : F
  pub slept : List F

abbrev pub is_live : SourceSpec → Bool
is_live spec = str_eq spec.kind "webcam"

module _ (R : Runtime) where
  open R use {Float, decimal, lt, mul}

  -- `__init__`; `opens` tells whether `_open_capture` returns or raises RuntimeError
  unfoldable pub new_camera : SourceSpec → Float → Float → ℤ → Bool → Option (CameraSource Float)
  unfolding max_f
  new_camera spec reconnect_initial_s reconnect_max_s black_frames_after_open opens =
      let initial_s = max_f R (zero_f R) reconnect_initial_s in
      if opens
      then some (record {
        spec = spec;
        reconnect_initial_s = initial_s;
        reconnect_max_s = max_f R initial_s reconnect_max_s;
        black_frames_after_open = to_ℕ black_frames_after_open;
        dead = false;
        post_open_grace_remaining = to_ℕ black_frames_after_open;
        next_backoff_s = initial_s;
        slept = [];
      })
      else none

  -- the backoff after a wait of `backoff_s` that was in vain
  unfoldable pub doubled : Float → CameraSource Float → Float
  unfolding min_f max_f
  doubled backoff_s c =
      min_f R c.reconnect_max_s (max_f R (mul backoff_s (decimal (pos 2) 0)) (decimal (pos 5) 2))

  module _ {A : Type 0} where
    -- the first read of a capture that was opened again
    abbrev pub on_reopened : Float → Option A → CameraSource Float → Option A × CameraSource Float
    on_reopened backoff_s (some frame) c =
        (some frame, record c { next_backoff_s = c.reconnect_initial_s })
    on_reopened backoff_s none c = (
      none,
      record c {
        post_open_grace_remaining = c.post_open_grace_remaining - 1;
        next_backoff_s = doubled backoff_s c;
      },
    )

    -- `_attempt_one_reconnect`; `reopens` and `first` are what the open and the read after it give
    unfoldable pub attempt_one_reconnect :
        Bool → Option A → CameraSource Float → Option A × CameraSource Float
    unfolding doubled
    attempt_one_reconnect reopens first c =
        let backoff_s = c.next_backoff_s in
        let waited = record c {
          dead = true;
          slept = if lt (zero_f R) backoff_s then backoff_s ∷ c.slept else c.slept;
        } in
        if reopens
        then on_reopened backoff_s first
            (record waited { dead = false; post_open_grace_remaining = c.black_frames_after_open })
        else (none, record waited { next_backoff_s = doubled backoff_s c })

    -- `self._capture.read()`, for what a capture that is open would give
    abbrev pub grabbed : Option A → CameraSource Float → Option A
    grabbed grab c = if c.dead then none else grab

    abbrev pub on_grabbed :
        Option A → Bool → Option A → CameraSource Float → Option A × CameraSource Float
    on_grabbed (some frame) reopens first c = (
      some frame,
      record c {
        post_open_grace_remaining = c.black_frames_after_open;
        next_backoff_s = c.reconnect_initial_s;
      },
    )
    on_grabbed none reopens first c =
        if not (is_live c.spec)
        then (none, c)
        else if ltb 0 c.post_open_grace_remaining
        then (none, record c { post_open_grace_remaining = c.post_open_grace_remaining - 1 })
        else attempt_one_reconnect reopens first c

    -- `read`
    unfoldable pub read :
        Option A → Bool → Option A → CameraSource Float → Option A × CameraSource Float
    unfolding attempt_one_reconnect
    read grab reopens first c = on_grabbed (grabbed grab c) reopens first c
