-- ===== src/Examples/Heard.antt =====
-- Datagrams and the browsers on fixed inputs (src/backend/tel_ingest.py, src/backend/vis_ingest.py and
-- src/backend/broadcast.py).
use aot_drone.Examples.Gateway.{tel_settings, vis_settings}
use aot_drone.Examples.Events.{one_client, ten_per_s}
use aot_drone.Backend.State.{new_state}
use aot_drone.Common.Int.{pos}
use aot_drone.Backend.Datagrams.Telemetry.{receive_tel-TelTold, TelTold}
use aot_drone.Backend.Datagrams.Sight.{receive_vis-VisTold, VisTold}
use aot_drone.Runtime.Micros.{num, Num, micros-Laws, micros}
use aot_drone.Backend.Datagrams.{receive_vis, receive_tel, Receiver}
use aot_drone.Common.{◌∷◌, refl, []}

abbrev listener : Receiver Num
listener = record {
  broadcaster = record {
    shared = new_state micros 1;
    manager = one_client;
    last_emit_s = [];
    warning_last_emit_s = [];
    sent = [];
  };
  drop_log = [];
}

receive_tel-TelTold_example :
    let out =
      receive_tel micros ten_per_s tel_settings
        (1 ∷ [])
        ""
        (num (pos 7050000))
        (num (pos 7050000))
        (num (pos 7050000))
        listener in
    TelTold micros ten_per_s
      (tel_settings.loads (1 ∷ []))
      (num (pos 7050000))
      (num (pos 7050000))
      listener
      out.0
      out.1
receive_tel-TelTold_example =
    receive_tel-TelTold micros ten_per_s tel_settings listener (1 ∷ []) "" (num (pos 7050000))
      (num (pos 7050000)) (num (pos 7050000)) (record { received = refl; reasons = refl })

receive_vis-VisTold_example :
    let out =
      receive_vis micros ten_per_s vis_settings
        (1 ∷ [])
        ""
        (num (pos 7000000))
        (num (pos 7000000))
        (num (pos 7000000))
        listener in
    VisTold micros ten_per_s
      (vis_settings.loads (1 ∷ []))
      (num (pos 7000000))
      (num (pos 7000000))
      listener
      out.0
      out.1
receive_vis-VisTold_example =
    receive_vis-VisTold micros ten_per_s micros-Laws vis_settings listener (1 ∷ []) ""
      (num (pos 7000000)) (num (pos 7000000)) (num (pos 7000000))
      (record { received = refl; reasons = refl })
