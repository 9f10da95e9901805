-- ===== src/Backend/App/Video/Clients.antt =====
-- A stream counts its client while it lasts, and each part that it sends (src/backend/app.py,
-- src/backend/video_hub.py).
use aot_drone.Runtime.{Runtime}
use aot_drone.Common.{
  ◌∙◌, ◌≡◌, Option, ◌+◌, Bool-cases, inl, refl, All, inr, List, length, ◌≤◌, ◌∷◌, suc, false, arith,
  none, some, ℕ, [],
}
use aot_drone.Backend.VideoHub.{
  unregister_client, record_frame_served, register_client, VideoFrameHub,
}
use aot_drone.Backend.App.Video.{reaches, stream_generator, VideoSettings, serve_parts, serve_part}

module _ (R : Runtime) (cfg : VideoSettings R.Float) where
  open R use {Float}

  -- the other threads store frames and count bad ones, but serve nothing and no clients
  abbrev pub IsApart : Float × (VideoFrameHub Float → VideoFrameHub Float) → Type 0
  IsApart (now_s, others) =
      (h : VideoFrameHub Float)
      → ((others h).video_clients ≡ h.video_clients)
        × ((others h).frames_served_total ≡ h.frames_served_total)

  -- the parts that may be sent, at most as many as there are times
  abbrev pub Fits : Option ℕ → ℕ → ℕ → Type 0
  Fits none emitted_parts n = Unit
  Fits (some max_parts) emitted_parts n = emitted_parts + n ≤ max_parts

  -- what a loop leaves
  pub record IsServed (max_parts : Option ℕ) (emitted_parts : ℕ) (times : ℕ)
      (h : VideoFrameHub Float) (parts : List (List ℕ)) (h' : VideoFrameHub Float) : Type 0 where
    pub clients : h'.video_clients ≡ h.video_clients
    pub counted : h'.frames_served_total ≡ h.frames_served_total + length parts
    pub within : Fits max_parts emitted_parts (length parts)
    pub timely : length parts ≤ times

  Fits-zero :
      (max_parts : Option ℕ) (emitted_parts : ℕ)
      → reaches R cfg emitted_parts max_parts ≡ false
      → Fits max_parts emitted_parts 0
  Fits-zero none emitted_parts more = tt
  Fits-zero (some max_parts) emitted_parts more = ground (arith, more)

  Fits-suc :
      (max_parts : Option ℕ) (emitted_parts n : ℕ)
      → Fits max_parts (suc emitted_parts) n
      → Fits max_parts emitted_parts (suc n)
  Fits-suc none emitted_parts n fits = tt
  Fits-suc (some max_parts) emitted_parts n fits = omega (arith, fits)

  Fits-one :
      (max_parts : Option ℕ) (emitted_parts : ℕ)
      → reaches R cfg emitted_parts max_parts ≡ false
      → Fits max_parts emitted_parts 1
  Fits-one none emitted_parts more = tt
  Fits-one (some max_parts) emitted_parts more = ground (arith, more)

  serve_parts-IsServed :
      (max_parts : Option ℕ) (emitted_parts : ℕ)
      (nows : List (Float × (VideoFrameHub Float → VideoFrameHub Float))) (h : VideoFrameHub Float)
      → reaches R cfg emitted_parts max_parts ≡ false
      → All IsApart nows
      → IsServed max_parts emitted_parts
          (length nows)
          h
          (serve_parts R cfg max_parts emitted_parts nows h).0
          (serve_parts R cfg max_parts emitted_parts nows h).1
  unfolding serve_parts serve_part record_frame_served
  serve_parts-IsServed max_parts emitted_parts [] h more apart = record {
    clients = refl;
    counted = omega arith;
    within = Fits-zero max_parts emitted_parts more;
    timely = omega arith;
  }
  serve_parts-IsServed max_parts emitted_parts ((now_s, others) ∷ nows) h more (apart, all_apart) =
      let h1 = (serve_part R cfg now_s (others h)).1 in
      let (same_clients, same_total) = apart h in
      elim (Bool-cases (reaches R cfg (suc emitted_parts) max_parts)) [
        | inl last ↦ rw last (record {
          clients = same_clients;
          counted = omega (arith, same_total);
          within = Fits-one max_parts emitted_parts more;
          timely = omega arith;
        })
        | inr again ↦
            let rest = serve_parts-IsServed max_parts (suc emitted_parts) nows h1 again all_apart in
            rw again (record {
              clients = rest.clients ∙ same_clients;
              counted = omega (arith, rest.counted, same_total);
              within = Fits-suc max_parts emitted_parts _ rest.within;
              timely = omega (arith, rest.timely);
            })
      ]

  -- While other threads neither serve frames nor register clients, a stream that may send a part
  -- leaves the number of clients as it was and raises the count of served frames by the number of
  -- its parts, which are at most as many as `max_parts`, when it is given, and as the times at
  -- which it was asked.
  pub stream_generator-IsServed :
      (max_parts : Option ℕ) (nows : List (Float × (VideoFrameHub Float → VideoFrameHub Float)))
      (h : VideoFrameHub Float)
      → reaches R cfg 0 max_parts ≡ false
      → All IsApart nows
      → IsServed max_parts 0
          (length nows)
          h
          (stream_generator R cfg max_parts nows h).0
          (stream_generator R cfg max_parts nows h).1
  unfolding stream_generator register_client unregister_client
  stream_generator-IsServed max_parts nows h more apart =
      let served = serve_parts-IsServed max_parts 0 nows (register_client R h) more apart in
      record {
        clients = omega (arith, served.clients);
        counted = served.counted;
        within = served.within;
        timely = served.timely;
      }
