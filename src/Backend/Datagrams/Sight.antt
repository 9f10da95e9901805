-- ===== src/Backend/Datagrams/Sight.antt =====
-- From a VIS datagram to the queues of the browsers (src/backend/vis_ingest.py with
-- src/backend/broadcast.py).
use aot_drone.Backend.State.Views.{get_latest_vis_with_meta}
use aot_drone.Backend.Datagrams.{told, tell_vis}
use aot_drone.Backend.State.{SharedState}
use aot_drone.Backend.Datagrams.{receive_vis, with_ingestor, Receiver, ingestor_of}
use aot_drone.Backend.VisSchema.{VisFields, vis_dict}
use aot_drone.Backend.Broadcast.{
  BroadcastSettings, on_vis_update, on_vis_drop, build_vis_update_data,
}
use aot_drone.Backend.VisSchema.Accepts.{IsVis}
use aot_drone.Json.{Value, put, float, Fields}
use aot_drone.Backend.Ingest.{Escapes, Settings, dropped, valid, Outcome, Ingestor}
use aot_drone.Backend.Ingest.Vis.Accounts.{
  escaped, process_vis_datagram-VisHandled, IsVisReason, accepted, IsVisAccounted, refused,
  VisHandled,
}
use aot_drone.Backend.State.Vis.{get_vis_age_s}
use aot_drone.Runtime.{zero_f, Runtime, max_f, Laws}
use aot_drone.Backend.Datagrams.Delivery.{
  if_oversize-DropTold, broadcast_vis_update-Update, DropTold, DropTold-with_shared, Update, Silent,
  Update-with_shared,
}
use aot_drone.Common.{Error, ℕ, ◌∙◌, refl, List, String, Result, ok, raise, some, ap, ◌≡◌}

module _ (R : Runtime) (cfg : BroadcastSettings R.Float) where
  open R use {Float, sub}

  -- the message with the time of its arrival and its age then
  abbrev pub vis_update_dict : VisFields Float → Float → Fields Float
  vis_update_dict v rx_s =
      put "vis_age_s" (float (max_f R (zero_f R) (sub rx_s rx_s)))
        (put "rx_monotonic_s" (float rx_s) (vis_dict v))

  -- what the browsers hear of a datagram that came at `rx_s`
  pub data VisTold (decoded : Result (Value Float)) (rx_s warn_s : Float) (r : Receiver Float)
      : Result (Outcome Float) → Receiver Float → Type 0 where
    message :
        {r' : Receiver Float} (v : VisFields Float)
        → IsVis R v
        → r'.broadcaster.shared.latest_vis ≡ some (vis_dict v)
        → Update R cfg "VIS_UPDATE" (vis_update_dict v rx_s) rx_s r.broadcaster r'.broadcaster
        → VisTold decoded rx_s warn_s r (ok (valid (vis_dict v))) r'
    drop :
        {r' : Receiver Float} {reason : String}
        → IsVisReason reason
        → r'.broadcaster.shared.latest_vis ≡ r.broadcaster.shared.latest_vis
        → DropTold R cfg "vis_oversize_drop" reason warn_s r.broadcaster r'.broadcaster
        → VisTold decoded rx_s warn_s r (ok (dropped reason)) r'
    error :
        {r' : Receiver Float} {e : Error}
        → Escapes decoded e
        → r'.broadcaster.shared.latest_vis ≡ r.broadcaster.shared.latest_vis
        → Silent r.broadcaster r'.broadcaster
        → VisTold decoded rx_s warn_s r (raise e) r'

  vis_update_data-known :
      (rx_s : Float) (d : Fields Float) (shared : SharedState Float)
      → shared.latest_vis ≡ some d
      → shared.vis.last_rx_monotonic_s ≡ some rx_s
      → build_vis_update_data R cfg rx_s shared
        ≡ some (
            put "vis_age_s"
              (float (max_f R (zero_f R) (sub rx_s rx_s)))
              (put "rx_monotonic_s" (float rx_s) d))
  unfolding build_vis_update_data get_latest_vis_with_meta get_vis_age_s
  vis_update_data-known rx_s d shared stored rx = rw (stored, rx) refl

  told-VisTold :
      (rx_s warn_s : Float) (size_text error_text : String) (r : Receiver Float)
      {decoded : Result (Value Float)} {out : Result (Outcome Float)} {s : Ingestor Float}
      → VisHandled R decoded rx_s (ingestor_of r) out s
      → VisTold decoded rx_s warn_s r out
          (told R cfg (tell_vis R cfg out rx_s warn_s size_text error_text) r s)
  unfolding on_vis_update on_vis_drop
  told-VisTold rx_s warn_s size_text error_text r {s = s} (accepted v i stored rx counted adds) =
      let b = (with_ingestor r s).broadcaster in
      let (same, update) =
        broadcast_vis_update-Update R cfg (vis_update_dict v rx_s) rx_s b
          (vis_update_data-known rx_s (vis_dict v) s.shared stored rx) in
      message v i (ap (λ x. x.latest_vis) same ∙ stored)
        (Update-with_shared R cfg s.shared r.broadcaster update)
  told-VisTold rx_s warn_s size_text error_text r {s = s}
        (refused {reason = reason} i stored counted adds) =
      let b = (with_ingestor r s).broadcaster in
      let (same, drops) = if_oversize-DropTold R cfg warn_s "vis_oversize_drop" _ reason b in
      drop i (ap (λ x. x.latest_vis) same ∙ stored)
        (DropTold-with_shared R cfg s.shared r.broadcaster drops)
  told-VisTold rx_s warn_s size_text error_text r (escaped why stored counted) =
      error why stored (record { sent = refl; manager = refl })

  -- When the laws of floats hold, and the VIS counters add up, a valid message is stored and, if
  -- an update is due, told with the time of its arrival: it is then the newest envelope of the
  -- queue of every client, none of them new or gone. A message that is not due, a dropped
  -- datagram and an error that goes through `process_datagram` leave the queues as they were, but
  -- for a warning of an oversize datagram when none was sent within the interval.
  pub receive_vis-VisTold :
      (laws : Laws R) (ingest : Settings Float) (r : Receiver Float) (bytes : List ℕ)
      (error_text : String) (rx_s log_s warn_s : Float)
      → IsVisAccounted R r.broadcaster.shared.vis
      → let out = receive_vis R cfg ingest bytes error_text rx_s log_s warn_s r in
        VisTold (ingest.loads bytes) rx_s warn_s r out.0 out.1
  unfolding receive_vis
  receive_vis-VisTold laws ingest r bytes error_text rx_s log_s warn_s h =
      told-VisTold rx_s warn_s _ error_text r
        (process_vis_datagram-VisHandled R laws ingest (ingestor_of r) h rx_s log_s bytes)
