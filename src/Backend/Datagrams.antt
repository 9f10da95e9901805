-- ===== src/Backend/Datagrams.antt =====
-- A datagram and the browsers: the ingestors of src/backend/tel_ingest.py and src/backend/vis_ingest.py
-- with the callbacks of the broadcaster, as `_startup` of src/backend/app.py connects them. Both work
-- on one shared state, which the broadcaster holds here.
pub mod Delivery
pub mod Telemetry
pub mod Sight
use aot_drone.Backend.DropLog.{Buckets}
use aot_drone.Backend.Ingest.Tel.{process_datagram}
use aot_drone.Common.Texts.{str_of}
use aot_drone.Backend.Broadcast.{
  on_vis_update, on_tel_drop, Broadcaster, on_vis_drop, BroadcastSettings, on_tel_update,
}
use aot_drone.Runtime.{Runtime}
use aot_drone.Backend.Ingest.{dropped, Ingestor, Settings, valid, Outcome}
use aot_drone.Common.{raise, ℕ, length, List, Result, str_eq, ok, if◌then◌else◌, ◌≡◌}
use aot_drone.Backend.Ingest.Tel
use aot_drone.Backend.Ingest.Vis
use Prim.Native.String.{String, ◌++◌ as join}

-- the broadcaster and the log of one ingestor
pub record Receiver (F : Type 0) : Type 0 where
  pub broadcaster : Broadcaster F
  pub drop_log : Buckets F

-- the text of an oversize datagram
unfoldable pub oversize_detail : ℕ → ℕ → String
oversize_detail size max_bytes =
    join "datagram length=" (join (str_of size) (join " exceeds max_bytes=" (str_of max_bytes)))

-- `error_detail` is the text of the exception
abbrev pub detail_of : String → String → String → String
detail_of reason size_detail error_detail =
    if str_eq reason "oversize" then size_detail else error_detail

module _ {F : Type 0} where
  abbrev pub ingestor_of : Receiver F → Ingestor F
  ingestor_of r = record { shared = r.broadcaster.shared; drop_log = r.drop_log }

  -- the broadcaster on what the ingestor left
  abbrev pub with_ingestor : Receiver F → Ingestor F → Receiver F
  with_ingestor r s = record {
    broadcaster = record r.broadcaster { shared = s.shared };
    drop_log = s.drop_log;
  }

module _ (R : Runtime) (cfg : BroadcastSettings R.Float) where
  open R use {Float}

  abbrev pub tell_tel :
      Result (Outcome Float)
      → Float
      → Float
      → String
      → String
      → Broadcaster Float
      → Broadcaster Float
  tell_tel (ok (valid msg)) rx_s warn_s size_text error_text b = on_tel_update R cfg msg rx_s b
  tell_tel (ok (dropped reason)) rx_s warn_s size_text error_text b =
      on_tel_drop R cfg warn_s reason (detail_of reason size_text error_text) b
  tell_tel (raise e) rx_s warn_s size_text error_text b = b

  abbrev pub tell_vis :
      Result (Outcome Float)
      → Float
      → Float
      → String
      → String
      → Broadcaster Float
      → Broadcaster Float
  tell_vis (ok (valid msg)) rx_s warn_s size_text error_text b = on_vis_update R cfg msg rx_s b
  tell_vis (ok (dropped reason)) rx_s warn_s size_text error_text b =
      on_vis_drop R cfg warn_s reason (detail_of reason size_text error_text) b
  tell_vis (raise e) rx_s warn_s size_text error_text b = b

  abbrev told :
      (Broadcaster Float → Broadcaster Float) → Receiver Float → Ingestor Float → Receiver Float
  told tell r s = let r' = with_ingestor r s in record r' { broadcaster = tell r'.broadcaster }

module _ (R : Runtime) (cfg : BroadcastSettings R.Float) (ingest : Settings R.Float) where
  open R use {Float}

  abbrev size_detail : List ℕ → String
  size_detail bytes = oversize_detail (length bytes) ingest.max_bytes

  -- `process_datagram` with `on_valid=on_tel_update` and `on_drop=on_tel_drop`. The clock gives
  -- `log_s` to the log and `warn_s` to the warning.
  unfoldable pub receive_tel :
      List ℕ
      → String
      → Float
      → Float
      → Float
      → Receiver Float
      → Result (Outcome Float) × Receiver Float
  unfolding Tel.process_datagram on_tel_update on_tel_drop oversize_detail
  receive_tel bytes error_text rx_s log_s warn_s r =
      let (out, s) = Tel.process_datagram R ingest bytes rx_s log_s (ingestor_of r) in
      (out, told R cfg (tell_tel R cfg out rx_s warn_s (size_detail bytes) error_text) r s)

  -- `process_datagram` with `on_valid=on_vis_update` and `on_drop=on_vis_drop`
  unfoldable pub receive_vis :
      List ℕ
      → String
      → Float
      → Float
      → Float
      → Receiver Float
      → Result (Outcome Float) × Receiver Float
  unfolding Vis.process_datagram on_vis_update on_vis_drop oversize_detail
  receive_vis bytes error_text rx_s log_s warn_s r =
      let (out, s) = Vis.process_datagram R ingest bytes rx_s log_s (ingestor_of r) in
      (out, told R cfg (tell_vis R cfg out rx_s warn_s (size_detail bytes) error_text) r s)
