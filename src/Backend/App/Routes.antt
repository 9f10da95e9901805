-- ===== src/Backend/App/Routes.antt =====
-- The routes that a token and a rate limit guard (src/backend/app.py).
pub mod Guarded
use aot_drone.Backend.App.Frames.{FrameSettings, post_frame}
use aot_drone.Backend.VideoHub.{VideoFrameHub}
use aot_drone.Backend.State.{SharedState}
use aot_drone.Backend.Intent.{intent_payload, IntentRequest}
use aot_drone.Backend.RateLimit.{IpRateLimiter}
use aot_drone.Backend.App.Auth.{require_api_token, rate_limit}
use aot_drone.Json.{Fields}
use aot_drone.Runtime.{StrMethods, Runtime, zero_f}
use aot_drone.Backend.State.Cmd.{update_intent}
use aot_drone.Backend.State.Views.{get_vis_status}
use aot_drone.Common.{ℕ, String, none, not, Option, some}
use aot_drone.Backend.App.{
  ◌>>=◌, ◌>>◌, fails, Request, replies, refuses, or_fails, refuse_if, Reply,
}

module _ {A S : Type 0} (R : Runtime) (str : StrMethods) where
  open R use {Float}

  abbrev pub on_limited :
      (S → Reply A × S)
      → S
      → Reply (Unit {0})
      → Option (IpRateLimiter Float)
      → Reply A × Option (IpRateLimiter Float) × S
  on_limited endpoint s (replies done) limiter =
      let (reply, s') = endpoint s in (reply, limiter, s')
  on_limited endpoint s (refuses status) limiter = (refuses status, limiter, s)
  on_limited endpoint s (fails e) limiter = (fails e, limiter, s)

  abbrev pub on_authorized :
      Float
      → Request
      → (S → Reply A × S)
      → Reply (Unit {0})
      → Option (IpRateLimiter Float)
      → S
      → Reply A × Option (IpRateLimiter Float) × S
  on_authorized now_s req endpoint (replies done) limiter s =
      let (limited, limiter') = rate_limit R now_s req limiter in
      on_limited endpoint s limited limiter'
  on_authorized now_s req endpoint (refuses status) limiter s = (refuses status, limiter, s)
  on_authorized now_s req endpoint (fails e) limiter s = (fails e, limiter, s)

  -- `dependencies=[Depends(_require_api_token), Depends(...)]`, in their order, and then the route
  unfoldable pub guard_route :
      Option String
      → Float
      → Request
      → (S → Reply A × S)
      → Option (IpRateLimiter Float)
      → S
      → Reply A × Option (IpRateLimiter Float) × S
  unfolding require_api_token rate_limit
  guard_route token now_s req endpoint limiter s =
      on_authorized now_s req endpoint (require_api_token str token req) limiter s

module _ (R : Runtime) where
  open R use {Float, le}

  abbrev on_payload :
      Option (Fields Float) → Float → SharedState Float → Reply (Fields Float) × SharedState Float
  on_payload none now_s shared = (refuses 422, shared)
  on_payload (some d) now_s shared = (replies d, update_intent R d now_s shared)

  -- `post_intent`; its reply tells the intent
  unfoldable pub post_intent :
      IntentRequest Float → Float → SharedState Float → Reply (Fields Float) × SharedState Float
  unfolding intent_payload update_intent
  post_intent intent_req now_s shared = on_payload (intent_payload intent_req) now_s shared

  -- `vis_status`: a negative threshold is refused before the call
  unfoldable pub vis_status : Float → Float → SharedState Float → Reply (Fields Float)
  unfolding get_vis_status
  vis_status connected_threshold_s now_s shared = do
    refuse_if (not (le (zero_f R) connected_threshold_s)) 422
    or_fails (get_vis_status R shared connected_threshold_s now_s)

-- the two guarded routes, for the time of the limiter and the time of the route
module _ (R : Runtime) (str : StrMethods) where
  open R use {Float}

  unfoldable pub frame_route :
      FrameSettings
      → Option String
      → Float
      → Float
      → Request
      → Option (IpRateLimiter Float)
      → Option (VideoFrameHub Float)
      → Reply ℕ × Option (IpRateLimiter Float) × Option (VideoFrameHub Float)
  unfolding guard_route post_frame
  frame_route cfg token limit_s now_s req limiter hub =
      guard_route R str token limit_s req (post_frame R str cfg now_s req) limiter hub

  unfoldable pub intent_route :
      Option String
      → Float
      → Float
      → Request
      → IntentRequest Float
      → Option (IpRateLimiter Float)
      → SharedState Float
      → Reply (Fields Float) × Option (IpRateLimiter Float) × SharedState Float
  unfolding guard_route post_intent
  intent_route token limit_s now_s req intent_req limiter shared =
      guard_route R str token limit_s req (post_intent R intent_req now_s) limiter shared
