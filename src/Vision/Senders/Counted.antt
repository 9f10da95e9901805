-- ===== src/Vision/Senders/Counted.antt =====
-- Every message and every frame is counted once, and none that is too large is sent
-- (src/vision/udp_vis_sender.py, src/vision/frame_pusher.py).
use aot_drone.Runtime.{Runtime}
use aot_drone.Common.Int.{eqb_ℤ, ◌-ℤ◌, ℤ, pos, leb_ℤ, ltb_ℤ}
use aot_drone.Common.{
  leb, ◌⊎◌, ◌||◌, Option-cases, ◌∷◌, ◌≤◌, List, some, ◌≡◌, length, true, inl, ◌&&◌, refl, arith,
  ◌+◌, none, ltb, All, Bool-cases, inr, ℕ, Option, Bool, if◌then◌else◌,
}
use aot_drone.Vision.Senders.{
  clamp_quality, push_jpeg, VisUdpSender, Counters, on_posted, FramePusher, send_vis, push_frame,
  headers_of,
}

-- what was counted so far
abbrev pub total : Counters → ℕ
total c = c.ok_count + c.fail_count + c.dropped_oversize

module _ (R : Runtime) where
  open R use {Float}

  -- what the socket took is small enough, and there is one count for each
  pub record SenderInv (s : VisUdpSender Float) : Type 0 where
    pub small : All (λ payload. length payload ≤ s.max_payload_bytes) s.sent
    pub sent_count : length s.sent ≡ s.counters.ok_count

  -- A call of `send` is counted once, the payloads that the socket took are within the limit, and
  -- there are as many of them as were counted as sent.
  pub send_vis-SenderInv :
      (payload : List ℕ) (sends : Bool) (now_s : Float) (s : VisUdpSender Float)
      → SenderInv s
      → SenderInv (send_vis R payload sends now_s s)
        × (total (send_vis R payload sends now_s s).counters ≡ total s.counters + 1)
  unfolding send_vis
  send_vis-SenderInv payload sends now_s s h =
      elim (Bool-cases (ltb s.max_payload_bytes (length payload))) [
        | inl large ↦ rw large (record { small = h.small; sent_count = h.sent_count }, omega arith)
        | inr fits ↦
            let within : length payload ≤ s.max_payload_bytes = ground (arith, fits) in
            elim (Bool-cases sends) [
              | inl sent ↦
                  rw (fits, sent)
                    (
                      record {
                        small = (within, h.small);
                        sent_count = omega (arith, h.sent_count);
                      },
                      omega arith,
                    )
              | inr failed ↦
                  rw (fits, failed)
                    (record { small = h.small; sent_count = h.sent_count }, omega arith)
            ]
      ]

  -- a post carries a JPEG of at most the size, by its quality
  pub record PusherInv (p : FramePusher Float) : Type 0 where
    pub small : All (λ post. length post.content ≤ p.max_jpeg_bytes) p.posted
    pub headed : All (λ post. post.headers ≡ headers_of R p.api_token) p.posted

  -- a call counts once, and says True for a success
  abbrev pub IsCounted : FramePusher Float → Bool × FramePusher Float → Type 0
  IsCounted p (success, p') =
      PusherInv p'
      × (total p'.counters ≡ total p.counters + 1)
      × (p'.counters.ok_count ≡ (if success then p.counters.ok_count + 1 else p.counters.ok_count))

  on_posted-IsCounted :
      (posts : Option ℤ) (now_s : Float) (p : FramePusher Float)
      → PusherInv p
      → IsCounted p (on_posted R posts now_s p)
  on_posted-IsCounted none now_s p h =
      (record { small = h.small; headed = h.headed }, omega arith, refl)
  on_posted-IsCounted (some status) now_s p h =
      elim (Bool-cases (leb_ℤ (pos 200) status && ltb_ℤ status (pos 300))) [
        | inl good ↦ rw good (record { small = h.small; headed = h.headed }, omega arith, refl)
        | inr bad ↦ rw bad (record { small = h.small; headed = h.headed }, omega arith, refl)
      ]

  push_jpeg-IsCounted :
      (jpeg_bytes : List ℕ) (posts : Option ℤ) (now_s : Float) (p : FramePusher Float)
      → PusherInv p
      → IsCounted p (push_jpeg R jpeg_bytes posts now_s p)
  unfolding push_jpeg
  push_jpeg-IsCounted jpeg_bytes posts now_s p h =
      elim (Bool-cases (ltb p.max_jpeg_bytes (length jpeg_bytes))) [
        | inl large ↦ rw large (record { small = h.small; headed = h.headed }, omega arith, refl)
        | inr fits ↦
            let within : length jpeg_bytes ≤ p.max_jpeg_bytes = ground (arith, fits) in
            rw fits (
              on_posted-IsCounted posts now_s _
                (record { small = (within, h.small); headed = (refl, h.headed) }))
      ]

  -- nothing is posted, or one post with what the encoder gave at a quality of 1 to 100
  abbrev pub IsPostedFrom : (ℤ → Option (List ℕ)) → FramePusher Float → FramePusher Float → Type 0
  IsPostedFrom encoder p p' =
      (p'.posted ≡ p.posted)
      ⊎ ((quality : ℤ) × (content : List ℕ) × (encoder quality ≡ some content)
          × (leb_ℤ (pos 1) quality ≡ true)
          × (leb_ℤ quality (pos 100) ≡ true)
          × (p'.posted
              ≡ record { headers = headers_of R p.api_token; content = content } ∷ p.posted))

  on_posted-posted :
      (posts : Option ℤ) (now_s : Float) (p : FramePusher Float)
      → (on_posted R posts now_s p).1.posted ≡ p.posted
  on_posted-posted none now_s p = refl
  on_posted-posted (some status) now_s p =
      elim (Bool-cases (leb_ℤ (pos 200) status && ltb_ℤ status (pos 300))) [
        | inl good ↦ rw good refl
        | inr bad ↦ rw bad refl
      ]

  push_jpeg-IsPostedFrom :
      (encoder : ℤ → Option (List ℕ)) (quality : ℤ) (content : List ℕ) (posts : Option ℤ)
      (now_s : Float) (p : FramePusher Float)
      → encoder quality ≡ some content
      → leb_ℤ (pos 1) quality ≡ true
      → leb_ℤ quality (pos 100) ≡ true
      → IsPostedFrom encoder p (push_jpeg R content posts now_s p).1
  unfolding push_jpeg
  push_jpeg-IsPostedFrom encoder quality content posts now_s p encoded low high =
      elim (Bool-cases (ltb p.max_jpeg_bytes (length content))) [
        | inl large ↦ rw large (inl refl)
        | inr fits ↦
            rw fits (inr (quality, content, encoded, low, high, on_posted-posted posts now_s _))
      ]

  clamp_quality-range :
      (quality : ℤ)
      → (leb_ℤ (pos 1) (clamp_quality quality) ≡ true)
        × (leb_ℤ (clamp_quality quality) (pos 100) ≡ true)
  unfolding clamp_quality
  clamp_quality-range quality = (ground arith, ground arith)

  -- A call of `push_frame` is counted once, as a success exactly when it answers True, and posts
  -- nothing or once: what the encoder gave at a quality of 1 to 100, within the limit and under
  -- the headers for the token.
  pub push_frame-IsCounted :
      (encoder : ℤ → Option (List ℕ)) (quality : ℤ) (posts : Option ℤ) (now_s : Float)
      (p : FramePusher Float)
      → PusherInv p
      → IsCounted p (push_frame R encoder quality posts now_s p)
        × IsPostedFrom encoder p (push_frame R encoder quality posts now_s p).1
  unfolding push_frame
  push_frame-IsCounted encoder quality posts now_s p h =
      let q = clamp_quality quality in
      let retry = clamp_quality (q -ℤ p.retry_quality_step) in
      let (low, high) = clamp_quality-range quality in
      let (retry_low, retry_high) = clamp_quality-range (q -ℤ p.retry_quality_step) in
      elim (Option-cases (encoder q)) [
        | inl raised ↦
            rw raised ((record { small = h.small; headed = h.headed }, omega arith, refl), inl refl)
        | inr (content, encoded) ↦
            elim (Bool-cases (leb (length content) p.max_jpeg_bytes || eqb_ℤ retry q)) [
              | inl keeps ↦
                  rw (encoded, keeps)
                    (
                      push_jpeg-IsCounted content posts now_s p h,
                      push_jpeg-IsPostedFrom encoder q content posts now_s p encoded low high,
                    )
              | inr retries ↦ elim (Option-cases (encoder retry)) [
                | inl raised ↦
                    rw (encoded, retries, raised)
                      ((record { small = h.small; headed = h.headed }, omega arith, refl), inl refl)
                | inr (smaller, encoded') ↦
                    rw (encoded, retries, encoded')
                      (
                        push_jpeg-IsCounted smaller posts now_s p h,
                        push_jpeg-IsPostedFrom encoder retry smaller posts now_s p encoded'
                            retry_low retry_high,
                      )
              ]
            ]
      ]
