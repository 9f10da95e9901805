-- ===== src/Backend/Ingest/Vis/Accounts.antt =====
-- What becomes of a vision datagram (src/backend/vis_ingest.py).
use aot_drone.Common.{
  ℕ, ◌+◌, ◌≡◌, refl, inl, inr, ltb, Bool-cases, String, Error, value_error, overflow_error,
  decode_error, type_error, key_error, struct_error, runtime_error, validation, some, List, length,
  Result, ok, raise, Result-cases, arith,
}
use aot_drone.Runtime.{Runtime, Laws}
use aot_drone.Json.{Value, get, int_of, float_of}
use aot_drone.Backend.State.{VisStats}
use aot_drone.Backend.State.Vis.{record_vis_rx_total, record_vis_ok, record_vis_drop}
use aot_drone.Backend.Schema.Errors.{schema_error, range_error, overflow}
use aot_drone.Backend.VisSchema.{VisFields, vis_dict, validate_vis_message}
use aot_drone.Backend.VisSchema.Accepts.{
  IsVis, IsVisError, of_field, semantics_error, validate_vis_message_sound,
  validate_vis_message-IsVisError,
}
use aot_drone.Backend.Ingest.{
  Escapes, not_caught, too_large, decode_reason, Ingestor, Outcome, valid, dropped, Settings,
  schema_reason,
}
use aot_drone.Backend.Ingest.Vis.{
  on_decoded, drop, drop_or_raise, accept, on_validated, process_datagram,
}

-- the keys of `_VIS_DROP_REASON_ATTRS`
pub data IsVisReason : String → Type 0 where
  oversize : IsVisReason "oversize"
  json : IsVisReason "json"
  schema : IsVisReason "schema"
  range : IsVisReason "range"
  semantics : IsVisReason "semantics"

module _ (R : Runtime) where
  open R use {Float}

  -- every datagram has been counted once as good or bad, and every bad one under its reason
  pub record IsVisAccounted (t : VisStats Float) : Type 0 where
    pub received : t.rx_total ≡ t.rx_ok + t.rx_bad
    pub reasons :
        t.rx_bad
        ≡ t.drop_reason_oversize + t.drop_reason_json + t.drop_reason_schema + t.drop_reason_range
          + t.drop_reason_semantics

  -- what a call may do to an ingestor `s`
  pub data VisHandled (decoded : Result (Value Float)) (rx_s : Float) (s : Ingestor Float)
      : Result (Outcome Float) → Ingestor Float → Type 0 where
    accepted :
        {s' : Ingestor Float} (v : VisFields Float)
        → IsVis R v
        → s'.shared.latest_vis ≡ some (vis_dict v)
        → s'.shared.vis.last_rx_monotonic_s ≡ some rx_s
        → s'.shared.vis.rx_ok ≡ s.shared.vis.rx_ok + 1
        → IsVisAccounted s'.shared.vis
        → VisHandled decoded rx_s s (ok (valid (vis_dict v))) s'
    refused :
        {s' : Ingestor Float} {reason : String}
        → IsVisReason reason
        → s'.shared.latest_vis ≡ s.shared.latest_vis
        → s'.shared.vis.rx_bad ≡ s.shared.vis.rx_bad + 1
        → IsVisAccounted s'.shared.vis
        → VisHandled decoded rx_s s (ok (dropped reason)) s'
    escaped :
        {s' : Ingestor Float} {e : Error}
        → Escapes decoded e
        → s'.shared.latest_vis ≡ s.shared.latest_vis
        → s'.shared.vis.rx_total ≡ s.shared.vis.rx_ok + s.shared.vis.rx_bad + 1
        → VisHandled decoded rx_s s (raise e) s'

  module _ (laws : Laws R) (cfg : Settings Float) (s : Ingestor Float)
      (h : IsVisAccounted s.shared.vis) (decoded : Result (Value Float)) (rx_s log_s : Float) where
    abbrev counted : Ingestor Float
    counted = record s { shared = record_vis_rx_total R s.shared }

    abbrev IsHandled : Result (Outcome Float) × Ingestor Float → Type 0
    IsHandled out = VisHandled decoded rx_s s out.0 out.1

    drop-IsHandled :
        (reason : String) → IsVisReason reason → IsHandled (drop R cfg reason log_s counted)
    unfolding drop record_vis_drop record_vis_rx_total
    drop-IsHandled reason oversize = refused oversize refl refl (ground (arith, h))
    drop-IsHandled reason json = refused json refl refl (ground (arith, h))
    drop-IsHandled reason schema = refused schema refl refl (ground (arith, h))
    drop-IsHandled reason range = refused range refl refl (ground (arith, h))
    drop-IsHandled reason semantics = refused semantics refl refl (ground (arith, h))

    accept-IsHandled :
        (v : VisFields Float) → IsVis R v → IsHandled (accept R cfg (vis_dict v) rx_s counted)
    unfolding accept record_vis_ok record_vis_rx_total get int_of float_of
    accept-IsHandled v i = accepted v i refl refl refl (ground (arith, h))

    escape-IsHandled : (e : Error) → Escapes decoded e → VisHandled decoded rx_s s (raise e) counted
    unfolding record_vis_rx_total
    escape-IsHandled e why = escaped why refl (ground (arith, h))

    fail-IsHandled :
        (e : Error) (payload : Value Float)
        → decoded ≡ ok payload
        → IsVisError e
        → IsHandled (drop_or_raise R cfg (schema_reason e) e log_s counted)
    fail-IsHandled _ payload was (of_field schema_error) = drop-IsHandled "schema" schema
    fail-IsHandled _ payload was (of_field range_error) = drop-IsHandled "range" range
    fail-IsHandled _ payload was (of_field overflow) =
        escape-IsHandled overflow_error (too_large payload was)
    fail-IsHandled _ payload was semantics_error = drop-IsHandled "semantics" semantics

    validated-IsHandled :
        (payload : Value Float)
        → decoded ≡ ok payload
        → IsHandled (on_validated R cfg (validate_vis_message R payload) rx_s log_s counted)
    validated-IsHandled payload was = elim (Result-cases (validate_vis_message R payload)) [
      | inl (msg, e) ↦
          let (v, same, i) = validate_vis_message_sound R laws payload e in
          rw (e, same) (accept-IsHandled v i)
      | inr (err, e) ↦
          rw e
            (fail-IsHandled err payload was ((validate_vis_message-IsVisError R payload).at err e))
    ]

    undecoded-IsHandled :
        (e : Error)
        → decoded ≡ raise e
        → IsHandled (drop_or_raise R cfg (decode_reason e) e log_s counted)
    undecoded-IsHandled decode_error was = drop-IsHandled "json" json
    undecoded-IsHandled value_error was = escape-IsHandled value_error (not_caught was refl)
    undecoded-IsHandled type_error was = escape-IsHandled type_error (not_caught was refl)
    undecoded-IsHandled overflow_error was = escape-IsHandled overflow_error (not_caught was refl)
    undecoded-IsHandled key_error was = escape-IsHandled key_error (not_caught was refl)
    undecoded-IsHandled struct_error was = escape-IsHandled struct_error (not_caught was refl)
    undecoded-IsHandled runtime_error was = escape-IsHandled runtime_error (not_caught was refl)
    undecoded-IsHandled (validation reason) was =
        escape-IsHandled (validation reason) (not_caught was refl)

    decoded-IsHandled :
        (result : Result (Value Float))
        → decoded ≡ result
        → IsHandled (on_decoded R cfg result rx_s log_s counted)
    decoded-IsHandled (ok payload) was = validated-IsHandled payload was
    decoded-IsHandled (raise e) was = undecoded-IsHandled e was

  -- When the laws of floats hold and the VIS counters add up, every datagram is handled in one of
  -- three ways. It is accepted: a valid message is stored with its time of receipt and `rx_ok` is
  -- one higher. It is dropped under one of the five reasons: the latest message stays and
  -- `rx_bad` is one higher. In both the counters add up again. Or an error goes through, with the
  -- datagram counted as received only and the latest message kept: one of decoding that is
  -- neither a UnicodeDecodeError nor a JSONDecodeError, or the OverflowError of a decoded
  -- message.
  pub process_vis_datagram-VisHandled :
      (laws : Laws R) (cfg : Settings Float) (s : Ingestor Float)
      → IsVisAccounted s.shared.vis
      → (rx_s log_s : Float) (bytes : List ℕ)
      → let out = process_datagram R cfg bytes rx_s log_s s in
        VisHandled (cfg.loads bytes) rx_s s out.0 out.1
  unfolding process_datagram
  process_vis_datagram-VisHandled laws cfg s h rx_s log_s bytes =
      let decoded = cfg.loads bytes in
      elim (Bool-cases (ltb cfg.max_bytes (length bytes))) [
        | inl long ↦ rw long (drop-IsHandled laws cfg s h decoded rx_s log_s "oversize" oversize)
        | inr short ↦ rw short (decoded-IsHandled laws cfg s h decoded rx_s log_s decoded refl)
      ]
