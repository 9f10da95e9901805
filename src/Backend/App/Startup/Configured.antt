-- ===== src/Backend/App/Startup/Configured.antt =====
-- What holds once the gateway has started (src/backend/app.py).
use aot_drone.Backend.State.{SharedState, new_state}
use aot_drone.Backend.WsManager.{WsManager, new_manager}
use aot_drone.Backend.Broadcast.Throttle.{here, BroadcasterInv}
use aot_drone.Backend.Broadcast.Runs.{Run-BroadcasterInv}
use aot_drone.Json.{Fields}
use aot_drone.Backend.Broadcast.{Broadcaster, BroadcastSettings, new_broadcaster}
use aot_drone.Backend.WsManager.Queues.{new_manager-ManagerInv}
use aot_drone.Backend.RateLimit.{IpRateLimiter}
use aot_drone.Backend.App.Auth.{is_http_token}
use aot_drone.Common.Int.{ℤ, pos}
use aot_drone.Backend.App.Startup.{
  made_if, startup, build_tel_ingestor_from_env, build_cmd_bridge_from_env, read_broadcast_settings,
  Gateway, build_vis_ingestor_from_env, read_settings, new_limiter, GatewaySettings, at_least_one,
}
use aot_drone.Runtime.{StrMethods, one_f, max_f, Runtime, zero_f, Laws}
use aot_drone.Common.{
  List, false, Yields-bind, Yields, Yields-ok, str_eq, none, ◌≤◌, refl, ℕ, true, arith, ok, ◌≡◌,
  some, inl, Option, Bool-cases, inr, String, [],
}
use aot_drone.Backend.App.Env.{
  token_or_none, read_env_bool, read_env_int, read_env_token, token_of_env, Env, read_env_float,
}

module _ (R : Runtime) (str : StrMethods) (env : Env) where
  open R use {Float, decimal, lt, le}

  -- a limiter lets at least one request through, and fills its buckets by a rate above 0
  abbrev pub IsLimiter : Option (IpRateLimiter Float) → Type 0
  IsLimiter none = Unit
  IsLimiter (some l) =
      (le (one_f R) l.capacity ≡ true) × (lt (zero_f R) l.refill_per_s ≡ true) × (l.buckets ≡ [])

  -- a token that the header of a socket can carry
  abbrev pub IsToken : Option String → Type 0
  IsToken none = Unit
  IsToken (some token) = is_http_token token ≡ true

  pub record IsConfigured (s : GatewaySettings Float) : Type 0 where
    pub tel_fresh_low : le (decimal (pos 1) 3) s.tel_fresh_s ≡ true
    pub video_fps_low : le (decimal (pos 5) 1) s.video_fps ≡ true
    pub frame_fresh_low : le (zero_f R) s.frame_fresh_s ≡ true
    pub some_bytes : 1 ≤ s.max_jpeg_bytes
    pub frames_limited : IsLimiter s.frame_limiter
    pub intents_limited : IsLimiter s.intent_limiter
    pub token : IsToken s.api_token

  -- what the broadcaster was made with: rates and times above 0, and two times that are not below it
  pub record IsPaced (cfg : BroadcastSettings Float) : Type 0 where
    pub tel_hz_pos : le cfg.tel_hz (zero_f R) ≡ false
    pub vis_hz_pos : le cfg.vis_hz (zero_f R) ≡ false
    pub link_hz_pos : le cfg.link_hz (zero_f R) ≡ false
    pub vis_fresh_low : lt cfg.vis_fresh_s (zero_f R) ≡ false
    pub tel_fresh_pos : le cfg.tel_fresh_s (zero_f R) ≡ false
    pub cmd_timeout_pos : le cfg.cmd_timeout_s (zero_f R) ≡ false
    pub warnings_low : lt cfg.warning_min_interval_s (zero_f R) ≡ false

  -- the settings are sound, and the broadcaster was made with the ones that were read beside them, and
  -- has its invariant
  pub record IsStarted (video_status : Float → Fields Float) (g : Gateway Float) : Type 0 where
    pub configured : IsConfigured g.settings
    pub broadcast : BroadcastSettings Float
    pub read : read_broadcast_settings R str env g.settings video_status ≡ ok broadcast
    pub paced : IsPaced broadcast
    pub invariant : BroadcasterInv R broadcast g.broadcaster

  new_broadcaster-IsPaced :
      (cfg : BroadcastSettings Float) (shared : SharedState Float) (m : WsManager Float)
      {b : Broadcaster Float}
      → new_broadcaster R cfg shared m ≡ ok b
      → IsPaced cfg
  unfolding new_broadcaster
  new_broadcaster-IsPaced cfg shared m made = record {
    tel_hz_pos = ground arith;
    vis_hz_pos = ground arith;
    link_hz_pos = ground arith;
    vis_fresh_low = ground arith;
    tel_fresh_pos = ground arith;
    cmd_timeout_pos = ground arith;
    warnings_low = ground arith;
  }

  module _ (laws : Laws R) where
    open laws use {le_of_lt, decimal_mono}

    le_max : (m : ℤ) (k : ℕ) (x : Float) → le (decimal m k) (max_f R (decimal m k) x) ≡ true
    unfolding max_f
    le_max m k x =
        let own : le (decimal m k) (decimal m k) ≡ true = decimal_mono m m k (ground arith) in
        ground (arith, le_of_lt (decimal m k) x, own)

    new_limiter-IsLimiter : (rate_hz : Float) → IsLimiter (new_limiter R str env rate_hz)
    unfolding new_limiter
    new_limiter-IsLimiter rate_hz = elim (Bool-cases (lt (zero_f R) rate_hz)) [
      | inl some_rate ↦ rw some_rate (le_max (pos 1) 0 rate_hz, some_rate, refl)
      | inr no_rate ↦ rw no_rate tt
    ]

    at_least_one-low : (n : ℤ) → 1 ≤ at_least_one n
    at_least_one-low n = ground arith

    token_of_env-IsToken : (raw : String) → Yields IsToken (token_of_env R str env raw)
    unfolding token_of_env
    token_of_env-IsToken raw = elim (Bool-cases (str_eq (str.strip raw) "")) [
      | inl blank ↦ rw blank tt
      | inr filled ↦ elim (Bool-cases (is_http_token (str.strip raw))) [
        | inl plain ↦ rw (filled, plain) plain
        | inr odd ↦ rw (filled, odd) tt
      ]
    ]

    token_or_none-IsToken : (raw : Option String) → Yields IsToken (token_or_none R str env raw)
    token_or_none-IsToken none = tt
    token_or_none-IsToken (some raw) = token_of_env-IsToken raw

    read_env_token-IsToken : (name : String) → Yields IsToken (read_env_token R str env name)
    unfolding read_env_token
    read_env_token-IsToken name = token_or_none-IsToken (env name)

    read_settings-IsConfigured : Yields IsConfigured (read_settings R str env)
    unfolding read_settings
    read_settings-IsConfigured =
        Yields-bind IsConfigured (read_env_float R str env "BACKEND_CMD_HZ" (decimal (pos 50) 0)) _
          (λ cmd_hz _.
            Yields-bind IsConfigured
              (read_env_float R str env "BACKEND_TEL_HZ_NOMINAL" (decimal (pos 50) 0)) _
              (λ tel_hz _.
                Yields-bind IsConfigured
                  (read_env_float R str env "BACKEND_VIS_FRESH_S" (decimal (pos 25) 2)) _
                  (λ vis_fresh_s _.
                    Yields-bind IsConfigured
                      (read_env_float R str env "BACKEND_TEL_FRESH_S" (decimal (pos 5) 1)) _
                      (λ tel_fresh_s _.
                        Yields-bind IsConfigured
                          (read_env_bool R str env "BACKEND_VIDEO_ENABLED" true) _
                          (λ video_enabled _.
                            Yields-bind IsConfigured
                              (read_env_float R str env "BACKEND_VIDEO_FPS" (decimal (pos 10) 0)) _
                              (λ video_fps _.
                                Yields-bind IsConfigured
                                  (read_env_int R str env "BACKEND_VIDEO_MAX_JPEG_BYTES"
                                    (pos 200000))
                                  _
                                  (λ max_jpeg_bytes _.
                                    Yields-bind IsConfigured
                                      (read_env_float R str env "BACKEND_VIDEO_FRAME_FRESH_S"
                                        (decimal (pos 1) 0))
                                      _
                                      (λ frame_fresh_s _.
                                        Yields-bind IsConfigured
                                          (read_env_bool R str env "BACKEND_VIDEO_VALIDATE_DECODE"
                                            false)
                                          _
                                          (λ validate_decode _.
                                            Yields-bind IsConfigured
                                              (read_env_float R str env
                                                "BACKEND_FRAME_RATE_LIMIT_HZ" (decimal (pos 30) 0))
                                              _
                                              (λ frame_rate_hz _.
                                                Yields-bind IsConfigured
                                                  (read_env_float R str env
                                                    "BACKEND_INTENT_RATE_LIMIT_HZ"
                                                    (decimal (pos 5) 0))
                                                  _
                                                  (λ intent_rate_hz _.
                                                    Yields-bind IsConfigured
                                                      (read_env_token R str env "BACKEND_API_TOKEN")
                                                      _
                                                      (λ api_token read. record {
                                                        tel_fresh_low =
                                                            le_max (pos 1) 3 tel_fresh_s;
                                                        video_fps_low = le_max (pos 5) 1 video_fps;
                                                        frame_fresh_low =
                                                            le_max (pos 0) 0 frame_fresh_s;
                                                        some_bytes =
                                                            at_least_one-low max_jpeg_bytes;
                                                        frames_limited =
                                                            new_limiter-IsLimiter
                                                            (max_f R (zero_f R) frame_rate_hz);
                                                        intents_limited =
                                                            new_limiter-IsLimiter
                                                            (max_f R (zero_f R) intent_rate_hz);
                                                        token =
                                                            Yields-ok IsToken
                                                            (read_env_token R str env
                                                            "BACKEND_API_TOKEN")
                                                            (read_env_token-IsToken
                                                            "BACKEND_API_TOKEN")
                                                            read;
                                                      }))))))))))))

    startup-Yields :
        (seq : ℕ) (dumps : Fields Float → List ℕ) (video_status : Float → Fields Float)
        → Yields (IsStarted video_status) (startup R str env seq dumps video_status)
    unfolding startup
    startup-Yields seq dumps video_status =
        let shared = new_state R seq in
        Yields-bind (IsStarted video_status) (read_settings R str env) _ (λ settings configured.
          Yields-bind (IsStarted video_status)
            (read_env_int R str env "BACKEND_WS_CLIENT_QUEUE_MAX" (pos 10)) _
            (λ queue_max _.
              Yields-bind (IsStarted video_status) (new_manager queue_max) _ (λ manager made.
                Yields-bind (IsStarted video_status)
                  (read_broadcast_settings R str env settings video_status) _
                  (λ cfg read.
                    Yields-bind (IsStarted video_status) (new_broadcaster R cfg shared manager) _
                      (λ broadcaster built.
                        Yields-bind (IsStarted video_status)
                          (read_env_bool R str env "BACKEND_TEL_INGEST_ENABLED" true) _
                          (λ tel_enabled _.
                            Yields-bind (IsStarted video_status)
                              (made_if R str env tel_enabled
                                (build_tel_ingestor_from_env R str env))
                              _
                              (λ tel_ingestor _.
                                Yields-bind (IsStarted video_status)
                                  (read_env_bool R str env "BACKEND_VIS_INGEST_ENABLED" true) _
                                  (λ vis_enabled _.
                                    Yields-bind (IsStarted video_status)
                                      (made_if R str env vis_enabled
                                        (build_vis_ingestor_from_env R str env))
                                      _
                                      (λ vis_ingestor _.
                                        Yields-bind (IsStarted video_status)
                                          (read_env_bool R str env "BACKEND_CMD_BRIDGE_ENABLED"
                                            true)
                                          _
                                          (λ bridge_enabled _.
                                            Yields-bind (IsStarted video_status)
                                              (made_if R str env bridge_enabled (
                                                build_cmd_bridge_from_env R str env dumps
                                                  settings.cmd_hz settings.vis_fresh_s shared))
                                              _
                                              (λ bridge _. record {
                                                configured =
                                                    Yields-ok IsConfigured (read_settings R str env)
                                                      read_settings-IsConfigured configured;
                                                broadcast = cfg;
                                                read = read;
                                                paced =
                                                    new_broadcaster-IsPaced cfg shared manager
                                                      built;
                                                invariant =
                                                    Run-BroadcasterInv R cfg shared manager
                                                      (new_manager-ManagerInv queue_max made) built
                                                      here;
                                              })))))))))))

    -- When the laws of floats hold and the gateway starts, the freshness of telemetry is at least
    -- 0.001, the frame rate at least 0.5, the freshness of frames at least 0 and the size of
    -- frames at least 1, a limiter has room for one request and a rate above 0, the token is none
    -- or a token of HTTP, and the broadcast settings that are read beside them have no rate,
    -- freshness of telemetry or command timeout that is at most 0 and no freshness of vision or
    -- warning interval below 0, and with them the broadcaster has its invariant.
    pub startup-IsStarted :
        (seq : ℕ) (dumps : Fields Float → List ℕ) (video_status : Float → Fields Float)
        {g : Gateway Float}
        → startup R str env seq dumps video_status ≡ ok g
        → IsStarted video_status g
    startup-IsStarted seq dumps video_status started =
        Yields-ok (IsStarted video_status) (startup R str env seq dumps video_status)
          (startup-Yields seq dumps video_status) started
