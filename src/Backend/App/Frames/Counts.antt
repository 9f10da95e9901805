-- ===== src/Backend/App/Frames/Counts.antt =====
-- Every request of `post_frame` is stored or counted as bad (src/backend/app.py,
-- src/backend/video_hub.py).
use aot_drone.Runtime.{StrMethods, Runtime}
use aot_drone.Backend.App.Replies.{Ends}
use aot_drone.Backend.App.Frames.Shapes.{read_body_complete, looks_like_jpeg-IsJpeg, concat}
use aot_drone.Backend.VideoHub.{VideoFrameHub, set_jpeg, record_bad_frame}
use aot_drone.Backend.App.Frames.{
  store_frame, check_headers, check_length, read_frame, post_frame, FrameSettings, check_payload,
}
use aot_drone.Backend.App.Frames.Stores.{IsFrameOf, read_frame-Ends, IsReadable, IsBadRequest}
use aot_drone.Common.{
  arith, not, ◌∙◌, sym, if_false, some, false, inr, inl, length, ℕ, ap, ◌⊎◌, true, ◌≡◌, Option,
  subst, ◌+◌, ◌==◌, refl, List, [],
}
use aot_drone.Backend.App.{Request, refuses, Reply, fails, replies}

module _ (R : Runtime) (str : StrMethods) (cfg : FrameSettings) where
  open R use {Float}

  -- the request sends a frame that may be stored
  abbrev pub IsGood : Request → Type 0
  IsGood req = IsReadable R str cfg req × IsFrameOf R str cfg req (concat req.stream)

  check_headers_complete :
      (req : Request) → IsReadable R str cfg req → check_headers R str cfg req ≡ replies tt
  unfolding check_headers check_length
  check_headers_complete req ready =
      let a = ready.announced in
      rw (ready.typed, ready.unchunked, a.given, a.filled, a.read, a.nonneg, a.small) refl

  check_payload_complete :
      (req : Request) (payload : List ℕ)
      → IsFrameOf R str cfg req payload
      → check_payload R str cfg payload ≡ replies tt
  unfolding check_payload
  check_payload_complete req payload good =
      let looks = (looks_like_jpeg-IsJpeg payload).1 good.shaped in
      let filled : length payload == 0 ≡ false = rw good.shaped.1 (ground arith) in
      rw (filled, looks, good.decodes) refl

  read_frame_complete :
      (req : Request) → IsGood req → read_frame R str cfg req ≡ replies (concat req.stream)
  unfolding read_frame
  read_frame_complete req (ready, good) =
      rw
        (
          check_headers_complete req ready,
          read_body_complete cfg.max_jpeg_bytes req.stream [] good.within,
          check_payload_complete req (concat req.stream) good,
        )
        refl

  abbrev with_frame : Float → List ℕ → VideoFrameHub Float → VideoFrameHub Float
  with_frame now_s payload h = record h {
    latest_jpeg = some payload;
    last_rx_monotonic_s = some now_s;
    frames_rx_ok = h.frames_rx_ok + 1;
  }

  abbrev pub FrameHandled :
      Float → Request → VideoFrameHub Float → Reply ℕ → Option (VideoFrameHub Float) → Type 0
  FrameHandled now_s req h reply h' =
      (IsGood req
        × (reply ≡ replies (length (concat req.stream)))
        × (h' ≡ some (with_frame now_s (concat req.stream) h)))
      ⊎ ((IsGood req → ⊥)
          × ((status : ℕ) × IsBadRequest R str cfg status × (reply ≡ refuses status))
          × (h' ≡ some (record h { frames_rx_bad = h.frames_rx_bad + 1 })))

  store_frame-FrameHandled :
      (now_s : Float) (req : Request) (h : VideoFrameHub Float) (read : Reply (List ℕ))
      → read_frame R str cfg req ≡ read
      → Ends
          (λ payload. IsReadable R str cfg req × IsFrameOf R str cfg req payload)
          (IsBadRequest R str cfg)
          read
      → FrameHandled now_s req h
          (store_frame R str cfg now_s read h).0
          (some (store_frame R str cfg now_s read h).1)
  unfolding store_frame set_jpeg record_bad_frame
  store_frame-FrameHandled now_s req h (replies payload) done (ready, good) =
      let whole : payload ≡ concat req.stream = good.body in
      inl (
        (ready, subst (IsFrameOf R str cfg req) whole good),
        ap (λ p. replies (length p)) whole,
        ap (λ p. some (with_frame now_s p h)) whole,
      )
  store_frame-FrameHandled now_s req h (refuses status) done bad = inr (
    (λ good. let clash = sym done ∙ read_frame_complete req good in cc),
    (status, bad, refl),
    refl,
  )
  store_frame-FrameHandled now_s req h (fails e) done ends = elim ends [ ]

  -- When the video is enabled, a request to `post_frame` is stored and answered with its size, or
  -- it is counted as bad and refused with status 400 or 411 and the last frame stays. It is
  -- stored exactly when its content type names image/jpeg, it is not chunked, it announces a
  -- length from 0 to the limit, its chunks are one JPEG within the limit, and the frame decodes
  -- if that is asked for.
  pub post_frame-FrameHandled :
      (now_s : Float) (req : Request) (h : VideoFrameHub Float)
      → cfg.video_enabled ≡ true
      → let (reply, h') = post_frame R str cfg now_s req (some h) in
        FrameHandled now_s req h reply h'
  unfolding post_frame
  post_frame-FrameHandled now_s req h enabled =
      let stores = store_frame R str cfg now_s (read_frame R str cfg req) h in
      let goes_on =
        if_false {A = Reply ℕ × Option (VideoFrameHub Float)} (not cfg.video_enabled)
          (refuses 503, some h) (stores.0, some stores.1) (ap not enabled) in
      subst (λ out. FrameHandled now_s req h out.0 out.1) (sym goes_on)
        (store_frame-FrameHandled now_s req h (read_frame R str cfg req) refl
          (read_frame-Ends R str cfg req))
