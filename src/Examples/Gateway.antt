-- ===== src/Examples/Gateway.antt =====
-- The command gate and the ingestors of the backend on fixed inputs
-- (src/backend/cmd_schema.py, src/backend/vis_ingest.py, src/backend/tel_ingest.py).
use aot_drone.Backend.Ingest.Vis.{process_datagram}
use aot_drone.Common.{
  decode_error, overflow_error, ◌^◌, false, String, ℕ, ◌≡◌, refl, inl, true, Option, none, some,
  is_some, List, [], ◌∷◌, Result, ok, raise,
}
use aot_drone.Common.Raises.{OnlyRaises}
use aot_drone.Common.Int.{◌*ℤ◌, pos}
use aot_drone.Runtime.Micros.{
  num_of_int, scale, Num, num, micros, micros-Laws, le_num, lt_num, decimal_num,
}
use aot_drone.Json.{
  Value, int, text, object, Fields, end, field, get, put, has_all, int_of, float_of, bool_of,
}
use aot_drone.Backend.State.{new_state}
use aot_drone.Backend.Intent.{IntentRequest, intent_payload, stored}
use aot_drone.Backend.VisSchema.{read_vis, validate_vis_message, VisFields, vis_dict}
use aot_drone.Backend.TelSchema.{validate_tel_message, TelFields, tel_dict}
use aot_drone.Backend.VisSchema.Accepts.{
  IsVis, validate_vis_message_sound, validate_vis_message-fixed, validate_vis_message-IsVisError,
  IsVisError,
}
use aot_drone.Backend.TelSchema.Accepts.{IsTel, validate_tel_message-fixed}
use aot_drone.Backend.CmdSchema.{
  mode_tracking, build_cmd_payload, read_intent, fresh_vis, gate_mode, with_tracking,
  build_tracking_object, base_payload,
}
use aot_drone.Backend.CmdSchema.Gate.{tracking_needs_vision, build_cmd_payload-IsCommand, IsCommand}
use aot_drone.Backend.CmdSchema.Total.{build_cmd_payload_total, read_intent-intent_payload}
use aot_drone.Backend.State.Vis.{record_vis_rx_total}
use aot_drone.Backend.Schema.{require_int, require_float}
use aot_drone.Backend.Ingest.{Ingestor, Settings}
use aot_drone.Backend.Ingest.Vis
use aot_drone.Backend.Ingest.Tel
use aot_drone.Backend.Ingest.Vis.Accounts.{
  IsVisAccounted, VisHandled, process_vis_datagram-VisHandled,
}
use aot_drone.Backend.Ingest.Tel.Accounts.{
  process_tel_datagram-TelHandled, IsTelAccounted, TelHandled,
}

abbrev track_request : IntentRequest Num
track_request = record { desired_mode = pos 1; arm = some true; setpoints = none }

abbrev track_intent : Fields Num
track_intent = field "desired_mode" (int (pos 1)) (field "arm" (Value.bool true) end)

track_intent_posted : intent_payload track_request ≡ some track_intent
unfolding intent_payload stored
track_intent_posted = refl

-- a target seen at the middle of the frame with confidence 0.9
abbrev pub seen : VisFields Num
seen = record {
  seq = pos 7;
  timestamp_s = num (pos 12000000);
  tracking_state = pos 3;
  loc_x = num (pos 0);
  loc_y = num (pos 0);
  bound_w = num (pos 250000);
  bound_h = num (pos 500000);
  confidence = num (pos 900000);
}

read_intent-intent_payload_example :
    read_intent micros (some track_intent)
    ≡ ok (record { desired_mode = pos 1; arm = some true; setpoints = none })
read_intent-intent_payload_example =
    read_intent-intent_payload micros track_request track_intent_posted

-- the frame that is sent for the request while the target was seen 0.1 s ago
tracking_sent :
    let out =
      build_cmd_payload micros
        (pos 1)
        (num (pos 12100000))
        (some track_intent)
        (some (vis_dict seen))
        (some (num (pos 100000)))
        (num (pos 250000)) in
    (p : Fields Num) × (out ≡ ok (p, none)) × (get "desired_mode" p ≡ some (int mode_tracking))
unfolding build_cmd_payload read_intent fresh_vis gate_mode with_tracking build_tracking_object
    base_payload put has_all get int_of float_of bool_of le_num lt_num decimal_num
tracking_sent = (_, refl, refl)

tracking_needs_vision_example : is_some (get "tracking" tracking_sent.0) ≡ true
tracking_needs_vision_example =
    (tracking_needs_vision micros (pos 1) (num (pos 12100000)) (some track_intent)
      (some (vis_dict seen)) (some (num (pos 100000))) (num (pos 250000)) tracking_sent.1
      tracking_sent.2).1

build_cmd_payload-IsCommand_example :
    (asked : _) × (read_intent micros (some track_intent) ≡ ok asked)
    × IsCommand micros
        (pos 1)
        asked.desired_mode
        (some (vis_dict seen))
        (fresh_vis micros (some (vis_dict seen)) (some (num (pos 100000))) (num (pos 250000)))
        tracking_sent.0
        none
build_cmd_payload-IsCommand_example =
    build_cmd_payload-IsCommand micros (pos 1) (num (pos 12100000)) (some track_intent)
      (some (vis_dict seen)) (some (num (pos 100000))) (num (pos 250000)) tracking_sent.1

limit_nonneg : lt_num (num (pos 250000)) (decimal_num (pos 0) 0) ≡ false
unfolding lt_num decimal_num scale
limit_nonneg = refl

-- the same request when the age of the snapshot is not known
build_cmd_payload_total_example :
    (p : Fields Num) × (blocked : Option String) × (build_cmd_payload micros
        (pos 1)
        (num (pos 12100000))
        (some track_intent)
        (some (vis_dict seen))
        none
        (num (pos 250000))
      ≡ ok (p, blocked))
build_cmd_payload_total_example =
    build_cmd_payload_total micros (pos 1) (num (pos 12100000)) (some track_intent)
      (some (vis_dict seen)) none (num (pos 250000)) refl limit_nonneg
      (track_request, track_intent_posted) (seen, refl)

seen-IsVis : IsVis micros seen
unfolding le_num decimal_num scale ◌*ℤ◌
seen-IsVis = record {
  known_state = refl;
  x_in = (refl, refl);
  y_in = (refl, refl);
  w_in = (refl, refl);
  h_in = (refl, refl);
  confidence_in = (refl, refl);
  blank = inl refl;
}

seen_accepted : validate_vis_message micros (object (vis_dict seen)) ≡ ok (vis_dict seen)
seen_accepted = validate_vis_message-fixed micros micros-Laws seen seen-IsVis

validate_vis_message_sound_example :
    (v : VisFields Num) × (vis_dict seen ≡ vis_dict v) × IsVis micros v
validate_vis_message_sound_example =
    validate_vis_message_sound micros micros-Laws (object (vis_dict seen)) seen_accepted

validate_vis_message-IsVisError_example :
    OnlyRaises IsVisError (validate_vis_message micros (object (field "type" (text "VIS") end)))
validate_vis_message-IsVisError_example =
    validate_vis_message-IsVisError micros (object (field "type" (text "VIS") end))

-- a decoder that knows one message
abbrev pub loads_one : Value Num → List ℕ → Result (Value Num)
loads_one v [] = raise decode_error
loads_one v (b ∷ bytes) = ok v

abbrev gateway : Ingestor Num
gateway = record { shared = new_state micros 1; drop_log = [] }

abbrev pub vis_settings : Settings Num
vis_settings = record {
  max_bytes = 512;
  log_interval_s = num (pos 5000000);
  loads = loads_one (object (vis_dict seen));
}

fresh-IsVisAccounted : IsVisAccounted micros gateway.shared.vis
fresh-IsVisAccounted = record { received = refl; reasons = refl }

process_vis_datagram-VisHandled_example :
    let out =
      Vis.process_datagram micros vis_settings (1 ∷ []) (num (pos 0)) (num (pos 0)) gateway in
    VisHandled micros (vis_settings.loads (1 ∷ [])) (num (pos 0)) gateway out.0 out.1
process_vis_datagram-VisHandled_example =
    process_vis_datagram-VisHandled micros micros-Laws vis_settings gateway fresh-IsVisAccounted
      (num (pos 0)) (num (pos 0)) (1 ∷ [])

abbrev pub told : TelFields Num
told = record {
  seq = pos 7;
  timestamp_s = num (pos 12000000);
  control_mode = pos 1;
  tracking_state = pos 3;
  dist_front_m = num (pos 2500000);
  dist_back_m = num (pos 2500000);
  dist_bottom_m = num (pos 1200000);
  target_x = num (pos 0);
  target_y = num (pos 0);
  bound_w = num (pos 250000);
  bound_h = num (pos 500000);
  confidence = num (pos 900000);
}

told-IsTel : IsTel micros told
unfolding le_num decimal_num scale ◌*ℤ◌
told-IsTel = record {
  known_mode = refl;
  known_state = refl;
  x_in = (refl, refl);
  y_in = (refl, refl);
  w_in = (refl, refl);
  h_in = (refl, refl);
  confidence_in = (refl, refl);
}

told_accepted : validate_tel_message micros (object (tel_dict told)) ≡ ok (tel_dict told)
told_accepted = validate_tel_message-fixed micros told told-IsTel

abbrev pub tel_settings : Settings Num
tel_settings = record {
  max_bytes = 1024;
  log_interval_s = num (pos 5000000);
  loads = loads_one (object (tel_dict told));
}

fresh-IsTelAccounted : IsTelAccounted micros gateway.shared.tel
fresh-IsTelAccounted = record { received = refl; reasons = refl }

process_tel_datagram-TelHandled_example :
    let out =
      Tel.process_datagram micros tel_settings (1 ∷ []) (num (pos 0)) (num (pos 0)) gateway in
    TelHandled micros (tel_settings.loads (1 ∷ [])) (num (pos 0)) gateway out.0 out.1
process_tel_datagram-TelHandled_example =
    process_tel_datagram-TelHandled micros tel_settings gateway fresh-IsTelAccounted (num (pos 0))
      (num (pos 0)) (1 ∷ [])

-- an integer that is no float
abbrev huge : VisFields Num → Fields Num
huge v = put "loc_x" (int (pos (2 ^ 1024))) (vis_dict v)

-- the datagram is counted as received, and the error goes through
huge_escapes :
    let cfg = record vis_settings { loads = loads_one (object (huge seen)) } in
    let out = Vis.process_datagram micros cfg (1 ∷ []) (num (pos 0)) (num (pos 0)) gateway in
    (out.0 ≡ raise overflow_error) × (out.1.shared.vis.rx_total ≡ 1) × (out.1.shared.vis.rx_bad ≡ 0)
unfolding Vis.process_datagram record_vis_rx_total validate_vis_message read_vis require_int
    require_float has_all get put num_of_int
huge_escapes = (refl, refl, refl)
