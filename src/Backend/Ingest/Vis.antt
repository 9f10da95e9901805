-- ===== src/Backend/Ingest/Vis.antt =====
-- `VisUdpIngestor.process_datagram` (src/backend/vis_ingest.py)
pub mod Accounts
use aot_drone.Common.{
  ℕ, Bool, ltb, if◌then◌else◌, String, Error, Option, none, some, List, length, Result, ok, raise,
}
use aot_drone.Common.Exec.{Exec, pure, lift, ◌>>=◌, ◌>>◌}
use aot_drone.Runtime.{Runtime}
use aot_drone.Json.{Value, Fields}
use aot_drone.Backend.State.Vis.{record_vis_rx_total, record_vis_ok, record_vis_drop}
use aot_drone.Backend.State.{SharedState}
use aot_drone.Backend.DropLog.{log}
use aot_drone.Backend.VisSchema.{validate_vis_message}
use aot_drone.Backend.Ingest.{
  Ingestor, Outcome, valid, dropped, Settings, decode_reason, schema_reason,
}

module _ (R : Runtime) (cfg : Settings R.Float) where
  open R use {Float}

  abbrev pub on_shared : {A : Type 0} → Exec (SharedState Float) A → Exec (Ingestor Float) A
  on_shared m s = let (r, shared) = m s.shared in (r, record s { shared = shared })

  -- count the drop and log it
  unfoldable pub drop : String → Float → Exec (Ingestor Float) (Outcome Float)
  drop reason log_s = do
    on_shared (record_vis_drop R reason)
    λ s.
        let (out, buckets) = log R cfg.log_interval_s reason log_s s.drop_log in
        (ok (dropped reason), record s { drop_log = buckets })

  abbrev pub drop_or_raise : Option String → Error → Float → Exec (Ingestor Float) (Outcome Float)
  drop_or_raise (some reason) e log_s = drop reason log_s
  drop_or_raise none e log_s = lift (raise e)

  unfoldable pub accept : Fields Float → Float → Exec (Ingestor Float) (Outcome Float)
  accept msg rx_s = do on_shared (record_vis_ok R msg rx_s); pure (valid msg)

  abbrev pub on_validated :
      Result (Fields Float) → Float → Float → Exec (Ingestor Float) (Outcome Float)
  on_validated (ok msg) rx_s log_s = accept msg rx_s
  on_validated (raise e) rx_s log_s = drop_or_raise (schema_reason e) e log_s

  abbrev pub on_decoded :
      Result (Value Float) → Float → Float → Exec (Ingestor Float) (Outcome Float)
  on_decoded (ok payload) rx_s log_s = on_validated (validate_vis_message R payload) rx_s log_s
  on_decoded (raise e) rx_s log_s = drop_or_raise (decode_reason e) e log_s

  -- `rx_s` is the time of receipt, and `log_s` the clock when a drop is logged
  unfoldable pub process_datagram : List ℕ → Float → Float → Exec (Ingestor Float) (Outcome Float)
  unfolding drop accept
  process_datagram bytes rx_s log_s s =
      let counted = record s { shared = record_vis_rx_total R s.shared } in
      if ltb cfg.max_bytes (length bytes)
      then drop "oversize" log_s counted
      else on_decoded (cfg.loads bytes) rx_s log_s counted
