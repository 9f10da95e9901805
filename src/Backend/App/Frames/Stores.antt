-- ===== src/Backend/App/Frames/Stores.antt =====
-- What `post_frame` stores, and how it counts (src/backend/app.py, src/backend/video_hub.py).
use aot_drone.Common.Dicts.{find}
use aot_drone.Runtime.{StrMethods, Runtime}
use aot_drone.Common.Int.{ltb_ℤ, ℤ, pos}
use aot_drone.Backend.App.{Request, header_or_empty}
use aot_drone.Backend.App.Frames.Shapes.{read_body-concat, looks_like_jpeg-IsJpeg, concat, IsJpeg}
use aot_drone.Backend.App.Replies.{Ends-map, Ends-bind, Ends}
use aot_drone.Common.Texts.{has_text}
use aot_drone.Common.{
  arith, [], Option-cases, ◌==◌, Bool-cases, inr, ◌⊎◌, ◌≡◌, length, List, refl, ◌&&◌, ◌≤◌, true,
  false, str_eq, String, some, ℕ, not, inl,
}
use aot_drone.Backend.App.Frames.{
  read_body, check_headers, looks_like_jpeg, check_payload, read_frame, FrameSettings, is_chunked,
  check_length,
}

module _ (R : Runtime) (str : StrMethods) (cfg : FrameSettings) where
  open R use {Float, int_of_text}
  open str use {lower, strip}

  -- the length that a request announces
  pub record IsAnnounced (req : Request) : Type 0 where
    pub header : String
    pub number : ℤ
    pub given : find "content-length" req.headers ≡ some header
    pub filled : str_eq (strip header) "" ≡ false
    pub read : int_of_text (strip header) ≡ some number
    pub nonneg : ltb_ℤ number (pos 0) ≡ false
    pub small : ltb_ℤ (pos cfg.max_jpeg_bytes) number ≡ false

  -- the request may be read
  pub record IsReadable (req : Request) : Type 0 where
    pub typed : has_text (lower (header_or_empty "content-type" req)) "image/jpeg" ≡ true
    pub unchunked : is_chunked str req ≡ false
    pub announced : IsAnnounced req

  -- the payload is what the request sends, and it is an image that is small enough
  pub record IsFrameOf (req : Request) (payload : List ℕ) : Type 0 where
    pub body : payload ≡ concat req.stream
    pub within : length payload ≤ cfg.max_jpeg_bytes
    pub shaped : IsJpeg payload
    pub decodes : cfg.validate_decode && not (cfg.can_decode_jpeg payload) ≡ false

  -- a status for a request that is at fault
  abbrev pub IsBadRequest : ℕ → Type 0
  IsBadRequest status = (status ≡ 400) ⊎ (status ≡ 411)

  check_length-Ends :
      (req : Request) (header : String)
      → find "content-length" req.headers ≡ some header
      → Ends (λ done. IsAnnounced req) IsBadRequest (check_length R str cfg header)
  unfolding check_length
  check_length-Ends req header given = elim (Bool-cases (str_eq (strip header) "")) [
    | inl blank ↦ rw blank (inl refl)
    | inr filled ↦ rw filled (elim (Option-cases (int_of_text (strip header))) [
      | inl unread ↦ rw unread (inl refl)
      | inr (number, read) ↦ rw read (elim (Bool-cases (ltb_ℤ number (pos 0))) [
        | inl negative ↦ rw negative (inl refl)
        | inr nonneg ↦ rw nonneg (elim (Bool-cases (ltb_ℤ (pos cfg.max_jpeg_bytes) number)) [
          | inl large ↦ rw large (inl refl)
          | inr small ↦ rw small (record {
            header = header;
            number = number;
            given = given;
            filled = filled;
            read = read;
            nonneg = nonneg;
            small = small;
          })
        ])
      ])
    ])
  ]

  check_headers-Ends :
      (req : Request) → Ends (λ done. IsReadable req) IsBadRequest (check_headers R str cfg req)
  unfolding check_headers
  check_headers-Ends req =
      elim (Bool-cases (has_text (lower (header_or_empty "content-type" req)) "image/jpeg")) [
        | inr untyped ↦ rw untyped (inl refl)
        | inl typed ↦ rw typed (elim (Bool-cases (is_chunked str req)) [
          | inl chunked ↦ rw chunked (inl refl)
          | inr unchunked ↦ rw unchunked (elim (Option-cases (find "content-length" req.headers)) [
            | inl missing ↦ rw missing (inr refl)
            | inr (header, given) ↦ rw given (
                Ends-map (λ done. IsAnnounced req) (λ done. IsReadable req) IsBadRequest
                  (check_length R str cfg header)
                  (λ done announced. record {
                    typed = typed;
                    unchunked = unchunked;
                    announced = announced;
                  })
                  (check_length-Ends req header given))
          ])
        ])
      ]

  check_payload-Ends :
      (payload : List ℕ)
      → Ends
          (λ done.
            IsJpeg payload × (cfg.validate_decode && not (cfg.can_decode_jpeg payload) ≡ false))
          IsBadRequest
          (check_payload R str cfg payload)
  unfolding check_payload
  check_payload-Ends payload = elim (Bool-cases (length payload == 0)) [
    | inl blank ↦ rw blank (inl refl)
    | inr filled ↦ rw filled (elim (Bool-cases (looks_like_jpeg payload)) [
      | inr odd ↦ rw odd (inl refl)
      | inl shaped ↦
          rw shaped (elim (Bool-cases (cfg.validate_decode && not (cfg.can_decode_jpeg payload))) [
            | inl broken ↦ rw broken (inl refl)
            | inr decodes ↦ rw decodes ((looks_like_jpeg-IsJpeg payload).0 shaped, refl)
          ])
    ])
  ]

  pub read_frame-Ends :
      (req : Request)
      → Ends
          (λ payload. IsReadable req × IsFrameOf req payload)
          IsBadRequest
          (read_frame R str cfg req)
  unfolding read_frame
  read_frame-Ends req =
      Ends-bind (λ done. IsReadable req) (λ payload. IsReadable req × IsFrameOf req payload)
        IsBadRequest (check_headers R str cfg req) _ (check_headers-Ends req)
        (λ done readable. elim (Option-cases (read_body cfg.max_jpeg_bytes req.stream [])) [
          | inl long ↦ rw long (inl refl)
          | inr (payload, read) ↦ rw read (
              Ends-bind
                (λ checked.
                  IsJpeg payload
                  × (cfg.validate_decode && not (cfg.can_decode_jpeg payload) ≡ false))
                (λ p. IsReadable req × IsFrameOf req p) IsBadRequest
                (check_payload R str cfg payload) _ (check_payload-Ends payload)
                (λ checked (shaped, decodes). (
                  readable,
                  record {
                    body = (read_body-concat cfg.max_jpeg_bytes req.stream [] read (omega arith)).0;
                    within =
                        (read_body-concat cfg.max_jpeg_bytes req.stream [] read (omega arith)).1;
                    shaped = shaped;
                    decodes = decodes;
                  },
                )))
        ])
