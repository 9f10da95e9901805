-- ===== src/Backend/App/Startup.antt =====
-- `_startup` of src/backend/app.py: the settings that it reads, and the objects that it makes.
pub mod Configured
use aot_drone.Backend.CmdBridge.{Bridge, new_bridge}
use aot_drone.Backend.Broadcast.{BroadcastSettings, Broadcaster, new_broadcaster}
use aot_drone.Backend.State.{SharedState, new_state}
use aot_drone.Backend.RateLimit.{IpRateLimiter}
use aot_drone.Json.{Fields}
use aot_drone.Runtime.{StrMethods, zero_f, Runtime, max_f, one_f}
use aot_drone.Backend.WsManager.{new_manager}
use aot_drone.Common.Int.{pos, to_ℕ, ℤ, ltb_ℤ}
use aot_drone.Backend.App.Env.{read_env_int, Env, read_env_token, read_env_float, read_env_bool}
use aot_drone.Common.{
  ok, false, ℕ, none, ◌>>=◌, Result, Bool, List, String, true, some, Option, if◌then◌else◌, ◌>>◌,
  [],
}
use aot_drone.Backend.VideoHub.{new_hub, VideoFrameHub}

-- `_runtime_*` and the limiters
pub record GatewaySettings (F : Type 0) : Type 0 where
  pub cmd_hz : F
  pub tel_hz : F
  pub vis_fresh_s : F
  pub tel_fresh_s : F
  pub video_enabled : Bool
  pub video_fps : F
  pub max_jpeg_bytes : ℕ
  pub frame_fresh_s : F
  pub validate_decode : Bool
  pub frame_limiter : Option (IpRateLimiter F)
  pub intent_limiter : Option (IpRateLimiter F)
  pub api_token : Option String

-- what the constructor of an ingestor is given, but for the host
pub record IngestorConfig (F : Type 0) : Type 0 where
  pub port : ℤ
  pub max_bytes : ℤ
  pub recv_timeout_s : F
  pub log_interval_s : F

pub record Gateway (F : Type 0) : Type 0 where
  pub settings : GatewaySettings F
  pub hub : VideoFrameHub F
  pub broadcaster : Broadcaster F
  pub tel_ingestor : Option (IngestorConfig F)
  pub vis_ingestor : Option (IngestorConfig F)
  pub bridge : Option (Bridge F)

-- `max(1, n)`
abbrev pub at_least_one : ℤ → ℕ
at_least_one n = if ltb_ℤ (pos 1) n then to_ℕ n else 1

module _ (R : Runtime) (str : StrMethods) (env : Env) where
  open R use {Float, decimal, lt}

  abbrev env_float : String → Float → Result Float
  env_float = read_env_float R str env

  abbrev env_int : String → ℤ → Result ℤ
  env_int = read_env_int R str env

  abbrev env_bool : String → Bool → Result Bool
  env_bool = read_env_bool R str env

  -- a limiter that lets at least one request through
  unfoldable pub new_limiter : Float → Option (IpRateLimiter Float)
  unfolding max_f
  new_limiter rate_hz =
      if lt (zero_f R) rate_hz
      then some
          (record { capacity = max_f R (one_f R) rate_hz; refill_per_s = rate_hz; buckets = [] })
      else none

  unfoldable pub read_settings : Result (GatewaySettings Float)
  unfolding read_env_float read_env_int read_env_bool read_env_token new_limiter max_f
  read_settings = do
    cmd_hz ← env_float "BACKEND_CMD_HZ" (decimal (pos 50) 0)
    tel_hz ← env_float "BACKEND_TEL_HZ_NOMINAL" (decimal (pos 50) 0)
    vis_fresh_s ← env_float "BACKEND_VIS_FRESH_S" (decimal (pos 25) 2)
    tel_fresh_s ← env_float "BACKEND_TEL_FRESH_S" (decimal (pos 5) 1)
    video_enabled ← env_bool "BACKEND_VIDEO_ENABLED" true
    video_fps ← env_float "BACKEND_VIDEO_FPS" (decimal (pos 10) 0)
    max_jpeg_bytes ← env_int "BACKEND_VIDEO_MAX_JPEG_BYTES" (pos 200000)
    frame_fresh_s ← env_float "BACKEND_VIDEO_FRAME_FRESH_S" (decimal (pos 1) 0)
    validate_decode ← env_bool "BACKEND_VIDEO_VALIDATE_DECODE" false
    frame_rate_hz ← env_float "BACKEND_FRAME_RATE_LIMIT_HZ" (decimal (pos 30) 0)
    intent_rate_hz ← env_float "BACKEND_INTENT_RATE_LIMIT_HZ" (decimal (pos 5) 0)
    api_token ← read_env_token R str env "BACKEND_API_TOKEN"
    ok (record {
      cmd_hz = cmd_hz;
      tel_hz = tel_hz;
      vis_fresh_s = vis_fresh_s;
      tel_fresh_s = max_f R (decimal (pos 1) 3) tel_fresh_s;
      video_enabled = video_enabled;
      video_fps = max_f R (decimal (pos 5) 1) video_fps;
      max_jpeg_bytes = at_least_one max_jpeg_bytes;
      frame_fresh_s = max_f R (zero_f R) frame_fresh_s;
      validate_decode = validate_decode;
      frame_limiter = new_limiter (max_f R (zero_f R) frame_rate_hz);
      intent_limiter = new_limiter (max_f R (zero_f R) intent_rate_hz);
      api_token = api_token;
    })

  -- `link_status_extra_provider` is `_build_video_status`, which reads the hub of the moment
  unfoldable pub read_broadcast_settings :
      GatewaySettings Float → (Float → Fields Float) → Result (BroadcastSettings Float)
  unfolding read_env_float
  read_broadcast_settings s video_status = do
    tel_hz ← env_float "BACKEND_WS_TEL_HZ" (decimal (pos 20) 0)
    vis_hz ← env_float "BACKEND_WS_VIS_HZ" (decimal (pos 20) 0)
    link_hz ← env_float "BACKEND_WS_LINK_HZ" (decimal (pos 2) 0)
    warning_min_interval_s ← env_float "BACKEND_WS_WARNING_INTERVAL_S" (decimal (pos 2) 0)
    ok (record {
      tel_hz = tel_hz;
      vis_hz = vis_hz;
      link_hz = link_hz;
      vis_fresh_s = s.vis_fresh_s;
      tel_fresh_s = s.tel_fresh_s;
      cmd_timeout_s = decimal (pos 5) 1;
      cmd_hz_nominal = s.cmd_hz;
      tel_hz_nominal = s.tel_hz;
      warning_min_interval_s = warning_min_interval_s;
      link_status_extra_provider = some video_status;
    })

  -- `_build_cmd_bridge_from_env`; the host and the port go to the socket
  unfoldable pub build_cmd_bridge_from_env :
      (Fields Float → List ℕ) → Float → Float → SharedState Float → Result (Bridge Float)
  unfolding read_env_float read_env_int new_bridge
  build_cmd_bridge_from_env dumps cmd_hz vis_fresh_s shared = do
    fc_port ← env_int "BACKEND_FC_PORT" (pos 9002)
    max_payload_bytes ← env_int "BACKEND_CMD_MAX_PAYLOAD_BYTES" (pos 4096)
    connect_timeout_s ← env_float "BACKEND_CMD_CONNECT_TIMEOUT_S" (decimal (pos 1) 0)
    backoff_initial_s ← env_float "BACKEND_CMD_BACKOFF_INITIAL_S" (decimal (pos 1) 0)
    backoff_max_s ← env_float "BACKEND_CMD_BACKOFF_MAX_S" (decimal (pos 5) 0)
    log_interval_s ← env_float "BACKEND_CMD_LOG_INTERVAL_S" (decimal (pos 5) 0)
    new_bridge R
        (record {
          tick_hz = cmd_hz;
          vis_fresh_s = vis_fresh_s;
          max_payload_bytes = max_payload_bytes;
          connect_timeout_s = connect_timeout_s;
          connect_backoff_initial_s = backoff_initial_s;
          connect_backoff_max_s = backoff_max_s;
          log_interval_s = log_interval_s;
          dumps = dumps;
        })
        none shared

  -- `_build_tel_ingestor_from_env`
  unfoldable pub build_tel_ingestor_from_env : Result (IngestorConfig Float)
  unfolding read_env_float read_env_int
  build_tel_ingestor_from_env = do
    port ← env_int "BACKEND_TEL_PORT" (pos 9001)
    max_bytes ← env_int "BACKEND_TEL_MAX_BYTES" (pos 1024)
    recv_timeout_s ← env_float "BACKEND_TEL_RECV_TIMEOUT_S" (decimal (pos 1) 1)
    log_interval_s ← env_float "BACKEND_TEL_LOG_INTERVAL_S" (decimal (pos 5) 0)
    ok (record {
      port = port;
      max_bytes = max_bytes;
      recv_timeout_s = recv_timeout_s;
      log_interval_s = log_interval_s;
    })

  -- `_build_vis_ingestor_from_env`
  unfoldable pub build_vis_ingestor_from_env : Result (IngestorConfig Float)
  unfolding read_env_float read_env_int
  build_vis_ingestor_from_env = do
    port ← env_int "BACKEND_VIS_PORT" (pos 9003)
    max_bytes ← env_int "BACKEND_VIS_MAX_BYTES" (pos 512)
    recv_timeout_s ← env_float "BACKEND_VIS_RECV_TIMEOUT_S" (decimal (pos 1) 1)
    log_interval_s ← env_float "BACKEND_VIS_LOG_INTERVAL_S" (decimal (pos 5) 0)
    ok (record {
      port = port;
      max_bytes = max_bytes;
      recv_timeout_s = recv_timeout_s;
      log_interval_s = log_interval_s;
    })

  -- what is made only when its switch is on
  abbrev pub made_if : {A : Type 0} → Bool → Result A → Result (Option A)
  made_if false made = ok none
  made_if true made = made >>= λ a. ok (some a)

  -- `_startup`, without its threads; `seq` is the first number of the commands, from the clock
  unfoldable pub startup :
      ℕ → (Fields Float → List ℕ) → (Float → Fields Float) → Result (Gateway Float)
  unfolding read_settings read_broadcast_settings build_cmd_bridge_from_env
      build_tel_ingestor_from_env build_vis_ingestor_from_env new_manager new_broadcaster
  startup seq dumps video_status = do
    let shared = new_state R seq
    settings ← read_settings
    queue_max ← env_int "BACKEND_WS_CLIENT_QUEUE_MAX" (pos 10)
    manager ← new_manager queue_max
    cfg ← read_broadcast_settings settings video_status
    broadcaster ← new_broadcaster R cfg shared manager
    tel_enabled ← env_bool "BACKEND_TEL_INGEST_ENABLED" true
    tel_ingestor ← made_if tel_enabled build_tel_ingestor_from_env
    vis_enabled ← env_bool "BACKEND_VIS_INGEST_ENABLED" true
    vis_ingestor ← made_if vis_enabled build_vis_ingestor_from_env
    bridge_enabled ← env_bool "BACKEND_CMD_BRIDGE_ENABLED" true
    bridge ←
        made_if bridge_enabled
          (build_cmd_bridge_from_env dumps settings.cmd_hz settings.vis_fresh_s shared)
    ok (record {
      settings = settings;
      hub = new_hub R;
      broadcaster = broadcaster;
      tel_ingestor = tel_ingestor;
      vis_ingestor = vis_ingestor;
      bridge = bridge;
    })
