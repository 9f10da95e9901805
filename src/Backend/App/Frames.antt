-- ===== src/Backend/App/Frames.antt =====
-- `post_frame` of src/backend/app.py: a JPEG frame from the vision process.
pub mod Stores
pub mod Counts
pub mod Shapes
use aot_drone.Runtime.{StrMethods, Runtime}
use aot_drone.Common.Dicts.{find}
use aot_drone.Backend.VideoHub.{set_jpeg, VideoFrameHub, record_bad_frame}
use aot_drone.Common.Texts.{has_text, split}
use aot_drone.Backend.App.{
  ◌>>=◌, ◌>>◌, refuse_if, refuses, or_refuses, header_or_empty, Request, Reply, fails, replies,
}
use aot_drone.Common.Int.{pos, ltb_ℤ}
use aot_drone.Common.{
  some, List, ◌&&◌, ◌∷◌, false, true, ◌+◌, ◌||◌, length, Option, leb, String, not, ℕ, ltb, str_eq,
  ◌==◌, none, ◌++◌, Bool, if◌then◌else◌, [],
}

-- `_runtime_video_*`, and `can_decode_jpeg`, which asks Pillow
pub record FrameSettings : Type 0 where
  pub video_enabled : Bool
  pub max_jpeg_bytes : ℕ
  pub validate_decode : Bool
  pub can_decode_jpeg : List ℕ → Bool

abbrev is_empty : {A : Type 0} → List A → Bool
is_empty [] = true
is_empty (x ∷ xs) = false

-- `payload.endswith(b"\xff\xd9")`
unfoldable pub ends_image : List ℕ → Bool
ends_image [] = false
ends_image (a ∷ []) = false
ends_image (a ∷ b ∷ []) = a == 255 && b == 217
ends_image (a ∷ b ∷ c ∷ bs) = ends_image (b ∷ c ∷ bs)

-- `payload.startswith(b"\xff\xd8")`
unfoldable pub starts_image : List ℕ → Bool
starts_image (a ∷ b ∷ bs) = a == 255 && b == 216
starts_image _ = false

-- `_looks_like_jpeg`
unfoldable pub looks_like_jpeg : List ℕ → Bool
unfolding ends_image starts_image
looks_like_jpeg payload = leb 4 (length payload) && (starts_image payload && ends_image payload)

-- the loop over the chunks; none when the next one would make the payload too long
unfoldable pub read_body : ℕ → List (List ℕ) → List ℕ → Option (List ℕ)
read_body max_bytes [] payload = some payload
read_body max_bytes (chunk ∷ chunks) payload =
    let rest = read_body max_bytes chunks (if is_empty chunk then payload else payload ++ chunk) in
    if not (is_empty chunk) && ltb max_bytes (length payload + length chunk) then none else rest

module _ (str : StrMethods) where
  open str use {lower, strip}

  -- `"chunked" in {token.strip().lower() for token in transfer_encoding.split(",") ...}`
  unfoldable pub names_chunked : List String → Bool
  names_chunked [] = false
  names_chunked (token ∷ tokens) = str_eq (lower (strip token)) "chunked" || names_chunked tokens

  unfoldable pub is_chunked : Request → Bool
  unfolding names_chunked split
  is_chunked req = names_chunked (split (header_or_empty "transfer-encoding" req) ",")

module _ (R : Runtime) (str : StrMethods) (cfg : FrameSettings) where
  open R use {Float, int_of_text}
  open str use {lower, strip}

  unfoldable pub check_length : String → Reply (Unit {0})
  check_length content_length_header = do
    let content_length_text = strip content_length_header
    refuse_if (str_eq content_length_text "") 400
    content_length ← or_refuses 400 (int_of_text content_length_text)
    refuse_if (ltb_ℤ content_length (pos 0)) 400
    refuse_if (ltb_ℤ (pos cfg.max_jpeg_bytes) content_length) 400

  -- what a request must have before its body is read
  unfoldable pub check_headers : Request → Reply (Unit {0})
  unfolding is_chunked check_length
  check_headers req = do
    refuse_if (not (has_text (lower (header_or_empty "content-type" req)) "image/jpeg")) 400
    refuse_if (is_chunked str req) 400
    content_length_header ← or_refuses 411 (find "content-length" req.headers)
    check_length content_length_header

  unfoldable pub check_payload : List ℕ → Reply (Unit {0})
  unfolding looks_like_jpeg
  check_payload payload = do
    refuse_if (length payload == 0) 400
    refuse_if (not (looks_like_jpeg payload)) 400
    refuse_if (cfg.validate_decode && not (cfg.can_decode_jpeg payload)) 400

  -- the frame of a request, or the refusal; before each refusal the frame is counted as bad
  unfoldable pub read_frame : Request → Reply (List ℕ)
  unfolding check_headers read_body check_payload
  read_frame req = do
    check_headers req
    payload ← or_refuses 400 (read_body cfg.max_jpeg_bytes req.stream [])
    check_payload payload
    replies payload

  unfoldable pub store_frame :
      Float → Reply (List ℕ) → VideoFrameHub Float → Reply ℕ × VideoFrameHub Float
  unfolding set_jpeg record_bad_frame
  store_frame now_s (replies payload) h = (replies (length payload), set_jpeg R payload now_s h)
  store_frame now_s (refuses status) h = (refuses status, record_bad_frame R h)
  store_frame now_s (fails e) h = (fails e, h)

  -- the route, after its dependencies; its reply tells the number of bytes
  unfoldable pub post_frame :
      Float → Request → Option (VideoFrameHub Float) → Reply ℕ × Option (VideoFrameHub Float)
  unfolding read_frame store_frame
  post_frame now_s req none = (refuses 503, none)
  post_frame now_s req (some h) =
      let (reply, h') = store_frame now_s (read_frame req) h in
      if not cfg.video_enabled then (refuses 503, some h) else (reply, some h')
