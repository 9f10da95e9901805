-- ===== src/Examples/Links.antt =====
-- The command bridge, the queues of the browser, the rate limiter and the simple tracker on fixed
-- inputs (src/backend/cmd_bridge.py, src/backend/ws_manager.py, src/backend/rate_limit.py,
-- src/vision/tracker.py).
use aot_drone.Common.{◌≡◌, refl, true, false, none, some, inr, [], ◌∷◌, ok, arith}
use aot_drone.Common.Int.{pos, negsuc, ◌*ℤ◌, ◌-ℤ◌, ◌+ℤ◌}
use aot_drone.Runtime.Micros.{
  Num, nan, num, micros, micros-Laws, le_num, lt_num, decimal_num, scale, is_num, both, mul_num,
  mul_num_pos,
}
use aot_drone.Json.{Fields, end}
use aot_drone.Backend.State.{SharedState, new_state}
use aot_drone.Backend.State.Views.{LinkSettings, get_vis_status}
use aot_drone.Backend.State.Views.Agree.{Agrees, get_vis_status-Agrees}
use aot_drone.Vision.Types.{no_target, Detection}
use aot_drone.Backend.CmdBridge.{BridgeSettings, Bridge, new_bridge, round}
use aot_drone.Backend.CmdBridge.Waits.{BridgeInv}
use aot_drone.Backend.CmdBridge.Connection.{round-BridgeInv, new_bridge-BridgeInv}
use aot_drone.Backend.CmdBridge.Ticks.{round_total}
use aot_drone.Backend.WsManager.{WsManager, broadcast}
use aot_drone.Backend.WsManager.Queues.{ManagerInv, step-ManagerInv, broadcasts}
use aot_drone.Backend.RateLimit.{TokenBucket, IpRateLimiter, allow, refilled}
use aot_drone.Backend.RateLimit.Bound.{TokenLaws, IsFilled, IsRate, allow-IsFilled}
use aot_drone.Vision.SimpleTracker.{SimpleTracker, update_simple}
use aot_drone.Vision.SimpleTracker.States.{SimpleInv, update_simple-SimpleInv}

abbrev settings : BridgeSettings Num
settings = record {
  tick_hz = num (pos 50000000);
  vis_fresh_s = num (pos 250000);
  max_payload_bytes = pos 4096;
  connect_timeout_s = num (pos 1000000);
  connect_backoff_initial_s = num (pos 1000000);
  connect_backoff_max_s = num (pos 5000000);
  log_interval_s = num (pos 5000000);
  dumps = λ d. 123 ∷ 125 ∷ [];
}

initial_pos : lt_num (decimal_num (pos 0) 0) (num (pos 1000000)) ≡ true
unfolding lt_num decimal_num scale ◌*ℤ◌
initial_pos = refl

ordered : le_num (num (pos 1000000)) (num (pos 5000000)) ≡ true
unfolding le_num
ordered = refl

limit_nonneg : lt_num (num (pos 250000)) (decimal_num (pos 0) 0) ≡ false
unfolding lt_num decimal_num scale ◌*ℤ◌
limit_nonneg = refl

made : (s : Bridge Num) × (new_bridge micros settings none (new_state micros 1) ≡ ok s)
unfolding new_bridge le_num lt_num decimal_num scale ◌*ℤ◌
made = (_, refl)

round_total_example : (round micros settings (num (pos 7)) (num (pos 7)) true made.0).0 ≡ ok tt
unfolding made
round_total_example =
    round_total micros settings refl limit_nonneg (num (pos 7)) (num (pos 7)) true made.0 tt tt

connected_once : (round micros settings (num (pos 7)) (num (pos 7)) true made.0).0 ≡ ok tt
unfolding made
connected_once =
    round_total micros settings refl limit_nonneg (num (pos 7)) (num (pos 7)) true made.0 tt tt

round-BridgeInv_example :
    BridgeInv micros settings (round micros settings (num (pos 7)) (num (pos 7)) true made.0).1
round-BridgeInv_example =
    round-BridgeInv micros settings micros-Laws initial_pos ordered (num (pos 7)) (num (pos 7)) true
      made.0 (new_bridge-BridgeInv micros settings micros-Laws initial_pos ordered 1 made.1)
      connected_once

abbrev manager : WsManager Num
manager = record { queue_max = 2; clients = []; next_client_id = 1; next_event_seq = 1 }

manager-ManagerInv : ManagerInv manager
manager-ManagerInv = record { room = omega arith; all_clients = tt; unique = tt }

step-ManagerInv_example : ManagerInv (broadcast "TEL_UPDATE" end (num (pos 5)) manager).1
step-ManagerInv_example =
    step-ManagerInv manager (broadcasts "TEL_UPDATE" end (num (pos 5))) manager-ManagerInv

abbrev limiter : IpRateLimiter Num
limiter = record { capacity = num (pos 5000000); refill_per_s = num (pos 1000000); buckets = [] }

spend_num :
    (x : Num)
    → le_num (num (pos 1000000)) x ≡ true
    → (le_num (num (pos 0)) (both (λ a b. num (a -ℤ b)) x (num (pos 1000000))) ≡ true)
      × (le_num (both (λ a b. num (a -ℤ b)) x (num (pos 1000000))) x ≡ true)
unfolding le_num both ◌-ℤ◌
spend_num nan h = ground arith
spend_num (num (pos a)) h = ground arith
spend_num (num (negsuc a)) h = ground arith

refill_num :
    (t e r : Num)
    → le_num (num (pos 0)) t ≡ true
    → le_num (num (pos 0)) e ≡ true
    → le_num (num (pos 0)) r ≡ true
    → is_num e ≡ true
    → is_num r ≡ true
    → le_num (num (pos 0)) (both (λ a b. num (a +ℤ b)) t (mul_num e r)) ≡ true
unfolding le_num both is_num ◌+ℤ◌
refill_num (num (pos a)) (num (pos b)) (num (pos c)) h1 h2 h3 h4 h5 =
    rw (mul_num_pos b c) (ground arith)
refill_num nan e r h1 h2 h3 h4 h5 = ground arith
refill_num (num (negsuc a)) e r h1 h2 h3 h4 h5 = ground arith
refill_num (num (pos a)) nan r h1 h2 h3 h4 h5 = ground arith
refill_num (num (pos a)) (num (negsuc b)) r h1 h2 h3 h4 h5 = ground arith
refill_num (num (pos a)) (num (pos b)) nan h1 h2 h3 h4 h5 = ground arith
refill_num (num (pos a)) (num (pos b)) (num (negsuc c)) h1 h2 h3 h4 h5 = ground arith

micros-TokenLaws : TokenLaws micros
unfolding is_num decimal_num scale ◌*ℤ◌
micros-TokenLaws = record { zero_finite = refl; spend_one = spend_num; refill_nonneg = refill_num }

abbrev half_full : TokenBucket Num
half_full = record {
  capacity = num (pos 5000000);
  refill_per_s = num (pos 1000000);
  tokens = num (pos 2500000);
  last_refill_s = num (pos 7000000);
}

half_full-IsFilled : IsFilled micros half_full
unfolding le_num decimal_num scale ◌*ℤ◌
half_full-IsFilled = record { nonneg = refl; within = refl }

one_per_s-IsRate : IsRate micros (num (pos 1000000))
unfolding le_num is_num decimal_num scale ◌*ℤ◌
one_per_s-IsRate = record { rate_nonneg = refl; rate_finite = refl }

gap_finite : is_num (both (λ a b. num (a -ℤ b)) (num (pos 9000000)) (num (pos 7000000))) ≡ true
unfolding is_num both ◌-ℤ◌
gap_finite = refl

allow-IsFilled_example :
    IsFilled micros (allow micros (num (pos 9000000)) half_full).1
    × ((allow micros (num (pos 9000000)) half_full).0
        ≡ le_num (decimal_num (pos 1) 0) (refilled micros (num (pos 9000000)) half_full))
allow-IsFilled_example =
    allow-IsFilled micros micros-Laws micros-TokenLaws (num (pos 9000000)) half_full
      one_per_s-IsRate gap_finite half_full-IsFilled

abbrev idle : SimpleTracker Num
idle = record {
  detect_hold_n = pos 2;
  search_n = pos 3;
  state = no_target;
  detect_streak = 0;
  missing_streak = 0;
  last_bbox = record { cx = num (pos 0); cy = num (pos 0); w = num (pos 0); h = num (pos 0) };
  last_conf = num (pos 0);
  last_track_id = pos 0;
}

idle-SimpleInv : SimpleInv micros idle
unfolding le_num decimal_num scale ◌*ℤ◌
idle-SimpleInv = record {
  conf_in = (refl, refl);
  id_nonneg = refl;
  detecting = λ h. refl;
  missing = refl;
  seen = inr refl;
  blank = λ h. refl;
  limits = (refl, refl);
}

abbrev bird : Detection Num
bird = record {
  bbox = record {
    x = num (pos 300000000);
    y = num (pos 200000000);
    w = num (pos 40000000);
    h = num (pos 80000000);
  };
  confidence = num (pos 1200000);
  track_id = negsuc 0;
}

update_simple-SimpleInv_example :
    SimpleInv micros (update_simple micros (bird ∷ []) (pos 640) (pos 480) idle).1
update_simple-SimpleInv_example =
    update_simple-SimpleInv micros micros-Laws (bird ∷ []) (pos 640) (pos 480) idle idle-SimpleInv

abbrev rates : LinkSettings micros
rates = record {
  vis_fresh_s = num (pos 250000);
  tel_fresh_s = num (pos 250000);
  cmd_timeout_s = num (pos 500000);
  cmd_hz = num (pos 50000000);
  tel_hz = num (pos 50000000);
}

-- a message came at 2 microseconds
abbrev seen_state : SharedState Num
seen_state =
    let s = new_state micros 1 in
    record s { vis = record s.vis { last_rx_monotonic_s = some (num (pos 2)) } }

status :
    (d : Fields Num) × (get_vis_status micros seen_state (num (pos 1000000)) (num (pos 5)) ≡ ok d)
unfolding get_vis_status lt_num decimal_num scale ◌*ℤ◌
status = (_, refl)

get_vis_status-Agrees_example :
    Agrees micros seen_state (num (pos 1000000)) (num (pos 5)) rates status.0
get_vis_status-Agrees_example =
    get_vis_status-Agrees micros seen_state (num (pos 1000000)) (num (pos 5)) rates status.1
