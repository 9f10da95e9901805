-- ===== src/Examples/Sight.antt =====
-- The camera, the senders, the patterns and the loop of the vision process on fixed inputs
-- (src/vision/camera.py, src/vision/udp_vis_sender.py, src/vision/frame_pusher.py,
-- src/vision/patterns.py, src/vision/main.py).
use aot_drone.Vision.Pipeline.Defs.{TrackerResult}
use aot_drone.Vision.Patterns.{update_pattern}
use aot_drone.Vision.Patterns.Wellformed.{DecimalOne, update_pattern-IsWellformed, IsWellformed}
use aot_drone.Vision.RunLoop.Pace.{LoopInv, turn-LoopInv, new_loop-LoopInv}
use aot_drone.Vision.Types.{tracking}
use aot_drone.Vision.RunLoop.{
  emit_if_due, turn, RunLoop, watch_variance, new_loop, push_if_due, LoopConfig,
}
use aot_drone.Runtime.{max_f, min_f}
use aot_drone.Vision.Camera.Backoff.{DoubleLaw, CameraInv, read-CameraInv}
use aot_drone.Vision.Senders.{push_frame, VisUdpSender, send_vis, FramePusher, Counters}
use aot_drone.Vision.Senders.Counted.{
  send_vis-SenderInv, IsCounted, push_frame-IsCounted, total, SenderInv, IsPostedFrom,
}
use aot_drone.Runtime.Micros.{
  div_ints, quot, both, micros, Num, mul_num_pos, le_num, decimal_num, nan, num, lt_num,
  micros-Laws, mul_num, scale,
}
use aot_drone.Vision.Camera.{attempt_one_reconnect, CameraSource, read, doubled, SourceSpec}
use aot_drone.Common.{
  none, arith, ℕ, some, ◌∷◌, Option, false, List, true, inr, ◌≡◌, refl, if◌then◌else◌, [],
}
use aot_drone.Common.Int.{◌+ℤ◌, ◌*ℤ◌, ℤ, negsuc, ltb_ℤ, pos}

double_num : DoubleLaw micros
unfolding le_num decimal_num scale ◌*ℤ◌
double_num nan h = ground arith
double_num (num (negsuc a)) h = ground arith
double_num (num (pos a)) h = rw (mul_num_pos a 2000000) (ground arith)

abbrev webcam : SourceSpec
webcam = record { kind = "webcam"; value = "0" }

-- a camera that was opened, with one frame of grace
abbrev camera : CameraSource Num
camera = record {
  spec = webcam;
  reconnect_initial_s = num (pos 250000);
  reconnect_max_s = num (pos 5000000);
  black_frames_after_open = 1;
  dead = false;
  post_open_grace_remaining = 0;
  next_backoff_s = num (pos 250000);
  slept = [];
}

camera-CameraInv : CameraInv micros camera
unfolding le_num decimal_num scale ◌*ℤ◌
camera-CameraInv = record {
  initial_nonneg = refl;
  ordered = refl;
  backoff_low = refl;
  backoff_high = refl;
  grace = omega arith;
  waits = tt;
  opened_once = inr refl;
}

-- the read fails and so does the reopening: the next wait is twice as long
wait_doubled : (read micros {A = ℕ} none false none camera).1.next_backoff_s ≡ num (pos 500000)
unfolding read attempt_one_reconnect doubled min_f max_f le_num lt_num decimal_num scale ◌*ℤ◌
    mul_num both quot
wait_doubled = refl

read-CameraInv_example : CameraInv micros (read micros {A = ℕ} none false none camera).1
read-CameraInv_example =
    read-CameraInv micros micros-Laws double_num none false none camera camera-CameraInv

abbrev no_counts : Counters
no_counts = record { ok_count = 0; fail_count = 0; dropped_oversize = 0 }

abbrev sender : VisUdpSender Num
sender = record {
  max_payload_bytes = 4;
  log_interval_s = num (pos 60000000);
  counters = no_counts;
  log_buckets = [];
  sent = [];
}

send_vis-SenderInv_example :
    SenderInv micros (send_vis micros (123 ∷ 125 ∷ []) true (num (pos 7)) sender)
    × (total (send_vis micros (123 ∷ 125 ∷ []) true (num (pos 7)) sender).counters ≡ 1)
send_vis-SenderInv_example =
    send_vis-SenderInv micros (123 ∷ 125 ∷ []) true (num (pos 7)) sender
      (record { small = tt; sent_count = refl })

abbrev pusher : FramePusher Num
pusher = record {
  max_jpeg_bytes = 2;
  retry_quality_step = pos 20;
  log_interval_s = num (pos 60000000);
  api_token = some "secret";
  counters = no_counts;
  log_buckets = [];
  posted = [];
}

-- a frame that is small enough below a quality of 70
abbrev encoder : ℤ → Option (List ℕ)
encoder quality = if ltb_ℤ quality (pos 70) then some (1 ∷ 2 ∷ []) else some (1 ∷ 2 ∷ 3 ∷ [])

push_frame-IsCounted_example :
    IsCounted micros pusher
      (push_frame micros encoder (pos 80) (some (pos 200)) (num (pos 7)) pusher)
    × IsPostedFrom micros encoder pusher
        (push_frame micros encoder (pos 80) (some (pos 200)) (num (pos 7)) pusher).1
push_frame-IsCounted_example =
    push_frame-IsCounted micros encoder (pos 80) (some (pos 200)) (num (pos 7)) pusher
      (record { small = tt; headed = tt })

abbrev micros_pi : Num
micros_pi = num (pos 3141592)

-- a sine that is 0 everywhere
abbrev flat : Num → Num
flat x = num (pos 0)

micros-DecimalOne : DecimalOne micros
unfolding decimal_num scale ◌*ℤ◌
micros-DecimalOne = (refl, refl)

update_pattern-IsWellformed_example :
    IsWellformed micros (update_pattern micros flat micros_pi "lose" (pos 135))
update_pattern-IsWellformed_example =
    update_pattern-IsWellformed micros micros-Laws micros-DecimalOne flat micros_pi "lose" (pos 135)

abbrev ten_per_s : LoopConfig Num
ten_per_s = record {
  vis_hz = num (pos 10000000);
  frame_fps = num (pos 5000000);
  has_sender = true;
  has_pusher = true;
  max_frames = some 9;
}

abbrev followed : TrackerResult Num
followed = record {
  state = tracking;
  bbox = record {
    cx = num (pos 500000);
    cy = num (pos 500000);
    w = num (pos 250000);
    h = num (pos 500000);
  };
  conf = num (pos 900000);
  track_id = pos 1;
}

abbrev first_turn : RunLoop Num
first_turn =
    (turn micros ten_per_s (num (pos 50000000)) (num (pos 7000000)) followed
      (new_loop micros ten_per_s)).1

turn-LoopInv_example :
    LoopInv micros ten_per_s
      (turn micros ten_per_s
        (num (pos 50000000))
        (num (pos 7000000))
        followed
        (new_loop micros ten_per_s)).1
turn-LoopInv_example =
    turn-LoopInv micros ten_per_s micros-Laws (num (pos 50000000)) (num (pos 7000000)) followed
      (new_loop micros ten_per_s) (new_loop-LoopInv micros ten_per_s micros-Laws)

-- 20 ms after it the loop emits nothing
quiet_turn :
    let s =
      (turn micros ten_per_s (num (pos 50000000)) (num (pos 7020000)) followed first_turn).1 in
    (s.frame_id ≡ 2) × (s.emitted_count ≡ 1) × (s.vis_seq ≡ 2)
unfolding turn watch_variance push_if_due emit_if_due le_num lt_num decimal_num scale ◌*ℤ◌ both ◌+ℤ◌
    div_ints quot
quiet_turn = (refl, refl, refl)
