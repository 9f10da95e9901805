-- ===== src/Backend/Datagrams/Telemetry.antt =====
-- From a telemetry datagram to the queues of the browsers (src/backend/tel_ingest.py with
-- src/backend/broadcast.py).
use aot_drone.Backend.State.Views.{get_latest_tel_with_meta}
use aot_drone.Backend.Datagrams.{told, tell_tel}
use aot_drone.Backend.State.Tel.{get_tel_age_s}
use aot_drone.Backend.State.{SharedState}
use aot_drone.Runtime.{max_f, Runtime, zero_f}
use aot_drone.Backend.TelSchema.{tel_dict, TelFields}
use aot_drone.Json.{Value, float, Fields, put}
use aot_drone.Backend.Datagrams.Delivery.{
  broadcast_tel_update-Update, if_oversize-DropTold, DropTold, Update, DropTold-with_shared, Silent,
  Update-with_shared,
}
use aot_drone.Backend.TelSchema.Accepts.{IsTel}
use aot_drone.Backend.Broadcast.{
  build_tel_update_data, on_tel_update, BroadcastSettings, on_tel_drop,
}
use aot_drone.Backend.Ingest.Tel.Accounts.{
  process_tel_datagram-TelHandled, refused, TelHandled, accepted, IsTelAccounted, IsTelReason,
  escaped,
}
use aot_drone.Backend.Datagrams.{receive_tel, ingestor_of, Receiver, with_ingestor}
use aot_drone.Backend.Ingest.{Escapes, dropped, valid, Outcome, Settings, Ingestor}
use aot_drone.Common.{Error, ap, List, String, Result, some, refl, ok, ℕ, ◌∙◌, raise, ◌≡◌}

module _ (R : Runtime) (cfg : BroadcastSettings R.Float) where
  open R use {Float, sub}

  -- the message with the time of its arrival and its age then
  abbrev pub tel_update_dict : TelFields Float → Float → Fields Float
  tel_update_dict v rx_s =
      put "tel_age_s" (float (max_f R (zero_f R) (sub rx_s rx_s)))
        (put "rx_monotonic_s" (float rx_s) (tel_dict v))

  -- what the browsers hear of a datagram that came at `rx_s`
  pub data TelTold (decoded : Result (Value Float)) (rx_s warn_s : Float) (r : Receiver Float)
      : Result (Outcome Float) → Receiver Float → Type 0 where
    message :
        {r' : Receiver Float} (v : TelFields Float)
        → IsTel R v
        → r'.broadcaster.shared.latest_tel ≡ some (tel_dict v)
        → Update R cfg "TEL_UPDATE" (tel_update_dict v rx_s) rx_s r.broadcaster r'.broadcaster
        → TelTold decoded rx_s warn_s r (ok (valid (tel_dict v))) r'
    drop :
        {r' : Receiver Float} {reason : String}
        → IsTelReason reason
        → r'.broadcaster.shared.latest_tel ≡ r.broadcaster.shared.latest_tel
        → DropTold R cfg "tel_oversize_drop" reason warn_s r.broadcaster r'.broadcaster
        → TelTold decoded rx_s warn_s r (ok (dropped reason)) r'
    error :
        {r' : Receiver Float} {e : Error}
        → Escapes decoded e
        → r'.broadcaster.shared.latest_tel ≡ r.broadcaster.shared.latest_tel
        → Silent r.broadcaster r'.broadcaster
        → TelTold decoded rx_s warn_s r (raise e) r'

  tel_update_data-known :
      (rx_s : Float) (d : Fields Float) (shared : SharedState Float)
      → shared.latest_tel ≡ some d
      → shared.tel.last_rx_monotonic_s ≡ some rx_s
      → build_tel_update_data R cfg rx_s shared
        ≡ some (
            put "tel_age_s"
              (float (max_f R (zero_f R) (sub rx_s rx_s)))
              (put "rx_monotonic_s" (float rx_s) d))
  unfolding build_tel_update_data get_latest_tel_with_meta get_tel_age_s
  tel_update_data-known rx_s d shared stored rx = rw (stored, rx) refl

  told-TelTold :
      (rx_s warn_s : Float) (size_text error_text : String) (r : Receiver Float)
      {decoded : Result (Value Float)} {out : Result (Outcome Float)} {s : Ingestor Float}
      → TelHandled R decoded rx_s (ingestor_of r) out s
      → TelTold decoded rx_s warn_s r out
          (told R cfg (tell_tel R cfg out rx_s warn_s size_text error_text) r s)
  unfolding on_tel_update on_tel_drop
  told-TelTold rx_s warn_s size_text error_text r {s = s} (accepted v i stored rx counted adds) =
      let b = (with_ingestor r s).broadcaster in
      let (same, update) =
        broadcast_tel_update-Update R cfg (tel_update_dict v rx_s) rx_s b
          (tel_update_data-known rx_s (tel_dict v) s.shared stored rx) in
      message v i (ap (λ x. x.latest_tel) same ∙ stored)
        (Update-with_shared R cfg s.shared r.broadcaster update)
  told-TelTold rx_s warn_s size_text error_text r {s = s}
        (refused {reason = reason} i stored counted adds) =
      let b = (with_ingestor r s).broadcaster in
      let (same, drops) = if_oversize-DropTold R cfg warn_s "tel_oversize_drop" _ reason b in
      drop i (ap (λ x. x.latest_tel) same ∙ stored)
        (DropTold-with_shared R cfg s.shared r.broadcaster drops)
  told-TelTold rx_s warn_s size_text error_text r (escaped why stored counted) =
      error why stored (record { sent = refl; manager = refl })

  -- When the TEL counters add up, a valid message is stored and, if an update is due, told with
  -- the time of its arrival: it is then the newest envelope of the queue of every client, none of
  -- them new or gone. A message that is not due, a dropped datagram and an error that goes
  -- through `process_datagram` leave the queues as they were, but for a warning of an oversize
  -- datagram when none was sent within the interval.
  pub receive_tel-TelTold :
      (ingest : Settings Float) (r : Receiver Float) (bytes : List ℕ) (error_text : String)
      (rx_s log_s warn_s : Float)
      → IsTelAccounted R r.broadcaster.shared.tel
      → let out = receive_tel R cfg ingest bytes error_text rx_s log_s warn_s r in
        TelTold (ingest.loads bytes) rx_s warn_s r out.0 out.1
  unfolding receive_tel
  receive_tel-TelTold ingest r bytes error_text rx_s log_s warn_s h =
      told-TelTold rx_s warn_s _ error_text r
        (process_tel_datagram-TelHandled R ingest (ingestor_of r) h rx_s log_s bytes)
