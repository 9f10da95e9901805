-- ===== src/Examples/Routes.antt =====
-- The routes of the gateway and its start on fixed inputs (src/backend/app.py).
use aot_drone.Backend.App.Auth.{select_ws_subprotocol}
use aot_drone.Backend.RateLimit.{IpRateLimiter}
use aot_drone.Common.Dicts.{find}
use aot_drone.Backend.App.Auth.Tokens.{select_ws_subprotocol-IsSelection, IsSelection}
use aot_drone.Backend.WsManager.{new_manager}
use aot_drone.Backend.App.Routes.Guarded.{guard_route-IsGuarded, IsGuarded}
use aot_drone.Common.Texts.{split_from, partition, split}
use aot_drone.Backend.App.Startup.Configured.{startup-IsStarted, IsStarted}
use aot_drone.Json.{end}
use aot_drone.Backend.App.Frames.Counts.{FrameHandled, post_frame-FrameHandled}
use aot_drone.Backend.Broadcast.{new_broadcaster}
use aot_drone.Backend.VideoHub.{new_hub, VideoFrameHub}
use aot_drone.Backend.App.Video.Clients.{IsServed, stream_generator-IsServed}
use aot_drone.Runtime.Micros.{micros, Num, le_num, decimal_num, num, lt_num, micros-Laws, scale}
use aot_drone.Backend.App.{replies, Request}
use aot_drone.Backend.CmdBridge.{new_bridge}
use aot_drone.Backend.App.Env.{read_env_int, read_env_token, read_env_float, Env, read_env_bool}
use aot_drone.Backend.App.Startup.{
  startup, Gateway, build_tel_ingestor_from_env, build_cmd_bridge_from_env,
  build_vis_ingestor_from_env, read_settings, new_limiter, read_broadcast_settings,
}
use aot_drone.Backend.App.Routes.{guard_route}
use aot_drone.Runtime.{StrMethods, max_f, Runtime}
use aot_drone.Common.{none, some, ◌∷◌, false, ok, str_eq, List, true, ◌≡◌, refl, if◌then◌else◌, []}
use aot_drone.Common.Int.{◌*ℤ◌, pos}
use aot_drone.Backend.App.Frames.{
  check_payload, read_frame, FrameSettings, starts_image, read_body, post_frame, looks_like_jpeg,
  check_headers, names_chunked, ends_image, store_frame, check_length, is_chunked,
}
use aot_drone.Backend.App.Video.{stream_generator, VideoSettings}

-- texts that are in lower case and without blanks
abbrev plain_str : StrMethods
plain_str = record { lower = λ s. s; strip = λ s. s }

-- the runtime reads one number
abbrev reads_six : Runtime
reads_six = record micros { int_of_text = λ s. if str_eq s "6" then some (pos 6) else none }

abbrev small_frames : FrameSettings
small_frames = record {
  video_enabled = true;
  max_jpeg_bytes = 8;
  validate_decode = false;
  can_decode_jpeg = λ payload. false;
}

abbrev frame_request : Request
frame_request = record {
  headers =
      ("content-type", "image/jpeg")
      ∷ ("content-length", "6")
      ∷ ("authorization", "bearer secret")
      ∷ [];
  client = some "10.0.0.7";
  stream = (255 ∷ 216 ∷ 1 ∷ []) ∷ [] ∷ (2 ∷ 255 ∷ 217 ∷ []) ∷ [];
}

abbrev empty_hub : VideoFrameHub Num
empty_hub = new_hub micros

-- the frame in two chunks is stored
frame_stored :
    (post_frame reads_six plain_str small_frames (num (pos 5)) frame_request (some empty_hub)).0
    ≡ replies 6
unfolding post_frame read_frame check_headers check_length check_payload is_chunked names_chunked
    split_from split partition read_body looks_like_jpeg starts_image ends_image store_frame find
frame_stored = refl

post_frame-FrameHandled_example :
    let (reply, h') =
      post_frame reads_six plain_str small_frames (num (pos 5)) frame_request (some empty_hub) in
    FrameHandled reads_six plain_str small_frames (num (pos 5)) frame_request empty_hub reply h'
post_frame-FrameHandled_example =
    post_frame-FrameHandled reads_six plain_str small_frames (num (pos 5)) frame_request empty_hub
      refl

abbrev one_request : IpRateLimiter Num
one_request = record { capacity = num (pos 1000000); refill_per_s = num (pos 500000); buckets = [] }

guard_route-IsGuarded_example :
    IsGuarded micros plain_str "secret"
      (num (pos 5))
      frame_request
      (λ s. (replies tt, s))
      (some one_request)
      empty_hub
      (guard_route micros plain_str
        (some "secret")
        (num (pos 5))
        frame_request
        (λ s. (replies tt, s))
        (some one_request)
        empty_hub)
guard_route-IsGuarded_example =
    guard_route-IsGuarded micros plain_str "secret" (num (pos 5)) frame_request
      (λ s. (replies tt, s)) (some one_request) empty_hub refl

select_ws_subprotocol-IsSelection_example :
    IsSelection "secret"
      ("json" ∷ "aot.bearer.secret" ∷ [])
      (select_ws_subprotocol (some "secret") ("json" ∷ "aot.bearer.secret" ∷ []))
select_ws_subprotocol-IsSelection_example =
    select_ws_subprotocol-IsSelection "secret" ("json" ∷ "aot.bearer.secret" ∷ []) refl

abbrev no_env : Env
no_env name = none

started : (g : Gateway Num) × (startup micros plain_str no_env 1 (λ d. []) (λ now_s. end) ≡ ok g)
unfolding startup read_settings read_broadcast_settings build_cmd_bridge_from_env
    build_tel_ingestor_from_env build_vis_ingestor_from_env new_manager new_broadcaster new_bridge
    read_env_int read_env_float read_env_bool read_env_token new_limiter max_f le_num lt_num
    decimal_num scale ◌*ℤ◌
started = (_, refl)

startup-IsStarted_example : IsStarted micros plain_str no_env (λ now_s. end) started.0
startup-IsStarted_example =
    startup-IsStarted micros plain_str no_env micros-Laws 1 (λ d. []) (λ now_s. end) started.1

abbrev slow_video : VideoSettings Num
slow_video = record {
  video_enabled = true;
  video_fps = num (pos 500000);
  frame_fresh_s = num (pos 1000000);
  render_synthetic_frame = λ now_s. 255 ∷ 216 ∷ 255 ∷ 217 ∷ [];
}

abbrev two_times : List (Num × (VideoFrameHub Num → VideoFrameHub Num))
two_times = (num (pos 5), λ h. h) ∷ (num (pos 2000005), λ h. h) ∷ []

stream_generator-IsServed_example :
    IsServed micros slow_video
      (some 1)
      0
      2
      empty_hub
      (stream_generator micros slow_video (some 1) two_times empty_hub).0
      (stream_generator micros slow_video (some 1) two_times empty_hub).1
stream_generator-IsServed_example =
    stream_generator-IsServed micros slow_video (some 1) two_times empty_hub refl
      (λ h. (refl, refl), (λ h. (refl, refl), tt))
