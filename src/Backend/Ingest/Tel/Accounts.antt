-- ===== src/Backend/Ingest/Tel/Accounts.antt =====
-- What becomes of a telemetry datagram (src/backend/tel_ingest.py).
use aot_drone.Common.{
  ℕ, ◌+◌, ◌≡◌, refl, inl, inr, ltb, Bool-cases, String, Error, value_error, overflow_error,
  decode_error, type_error, key_error, struct_error, runtime_error, validation, some, List, length,
  Result, ok, raise, Result-cases, arith,
}
use aot_drone.Runtime.{Runtime}
use aot_drone.Json.{Value, get, int_of, float_of}
use aot_drone.Backend.State.{TelStats}
use aot_drone.Backend.State.Tel.{record_tel_rx_total, record_tel_ok, record_tel_drop}
use aot_drone.Backend.Schema.Errors.{IsFieldError, schema_error, range_error, overflow}
use aot_drone.Backend.TelSchema.{TelFields, tel_dict, validate_tel_message}
use aot_drone.Backend.TelSchema.Accepts.{
  IsTel, validate_tel_message_sound, validate_tel_message-IsFieldError,
}
use aot_drone.Backend.Ingest.{
  Escapes, not_caught, too_large, decode_reason, Ingestor, Outcome, valid, dropped, Settings,
  schema_reason,
}
use aot_drone.Backend.Ingest.Tel.{
  on_decoded, drop, drop_or_raise, accept, on_validated, process_datagram,
}

-- the keys of `_TEL_DROP_REASON_ATTRS`
pub data IsTelReason : String → Type 0 where
  oversize : IsTelReason "oversize"
  json : IsTelReason "json"
  schema : IsTelReason "schema"
  range : IsTelReason "range"

module _ (R : Runtime) where
  open R use {Float}

  -- every datagram has been counted once as good or bad, and every bad one under its reason
  pub record IsTelAccounted (t : TelStats Float) : Type 0 where
    pub received : t.rx_total ≡ t.rx_ok + t.rx_bad
    pub reasons :
        t.rx_bad
        ≡ t.drop_reason_oversize + t.drop_reason_json + t.drop_reason_schema + t.drop_reason_range

  -- what a call may do to an ingestor `s`
  pub data TelHandled (decoded : Result (Value Float)) (rx_s : Float) (s : Ingestor Float)
      : Result (Outcome Float) → Ingestor Float → Type 0 where
    accepted :
        {s' : Ingestor Float} (v : TelFields Float)
        → IsTel R v
        → s'.shared.latest_tel ≡ some (tel_dict v)
        → s'.shared.tel.last_rx_monotonic_s ≡ some rx_s
        → s'.shared.tel.rx_ok ≡ s.shared.tel.rx_ok + 1
        → IsTelAccounted s'.shared.tel
        → TelHandled decoded rx_s s (ok (valid (tel_dict v))) s'
    refused :
        {s' : Ingestor Float} {reason : String}
        → IsTelReason reason
        → s'.shared.latest_tel ≡ s.shared.latest_tel
        → s'.shared.tel.rx_bad ≡ s.shared.tel.rx_bad + 1
        → IsTelAccounted s'.shared.tel
        → TelHandled decoded rx_s s (ok (dropped reason)) s'
    escaped :
        {s' : Ingestor Float} {e : Error}
        → Escapes decoded e
        → s'.shared.latest_tel ≡ s.shared.latest_tel
        → s'.shared.tel.rx_total ≡ s.shared.tel.rx_ok + s.shared.tel.rx_bad + 1
        → TelHandled decoded rx_s s (raise e) s'

  module _ (cfg : Settings Float) (s : Ingestor Float) (h : IsTelAccounted s.shared.tel)
      (decoded : Result (Value Float)) (rx_s log_s : Float) where
    abbrev counted : Ingestor Float
    counted = record s { shared = record_tel_rx_total R s.shared }

    abbrev IsHandled : Result (Outcome Float) × Ingestor Float → Type 0
    IsHandled out = TelHandled decoded rx_s s out.0 out.1

    drop-IsHandled :
        (reason : String) → IsTelReason reason → IsHandled (drop R cfg reason log_s counted)
    unfolding drop record_tel_drop record_tel_rx_total
    drop-IsHandled reason oversize = refused oversize refl refl (ground (arith, h))
    drop-IsHandled reason json = refused json refl refl (ground (arith, h))
    drop-IsHandled reason schema = refused schema refl refl (ground (arith, h))
    drop-IsHandled reason range = refused range refl refl (ground (arith, h))

    accept-IsHandled :
        (v : TelFields Float) → IsTel R v → IsHandled (accept R cfg (tel_dict v) rx_s counted)
    unfolding accept record_tel_ok record_tel_rx_total get int_of float_of
    accept-IsHandled v i = accepted v i refl refl refl (ground (arith, h))

    escape-IsHandled : (e : Error) → Escapes decoded e → TelHandled decoded rx_s s (raise e) counted
    unfolding record_tel_rx_total
    escape-IsHandled e why = escaped why refl (ground (arith, h))

    fail-IsHandled :
        (e : Error) (payload : Value Float)
        → decoded ≡ ok payload
        → IsFieldError e
        → IsHandled (drop_or_raise R cfg (schema_reason e) e log_s counted)
    fail-IsHandled _ payload was schema_error = drop-IsHandled "schema" schema
    fail-IsHandled _ payload was range_error = drop-IsHandled "range" range
    fail-IsHandled _ payload was overflow = escape-IsHandled overflow_error (too_large payload was)

    validated-IsHandled :
        (payload : Value Float)
        → decoded ≡ ok payload
        → IsHandled (on_validated R cfg (validate_tel_message R payload) rx_s log_s counted)
    validated-IsHandled payload was = elim (Result-cases (validate_tel_message R payload)) [
      | inl (msg, e) ↦
          let (v, same, i) = validate_tel_message_sound R payload e in
          rw (e, same) (accept-IsHandled v i)
      | inr (err, e) ↦
          rw e (
            fail-IsHandled err payload was ((validate_tel_message-IsFieldError R payload).at err e))
    ]

    undecoded-IsHandled :
        (e : Error)
        → decoded ≡ raise e
        → IsHandled (drop_or_raise R cfg (decode_reason e) e log_s counted)
    undecoded-IsHandled decode_error was = drop-IsHandled "json" json
    undecoded-IsHandled value_error was = escape-IsHandled value_error (not_caught was refl)
    undecoded-IsHandled type_error was = escape-IsHandled type_error (not_caught was refl)
    undecoded-IsHandled overflow_error was = escape-IsHandled overflow_error (not_caught was refl)
    undecoded-IsHandled key_error was = escape-IsHandled key_error (not_caught was refl)
    undecoded-IsHandled struct_error was = escape-IsHandled struct_error (not_caught was refl)
    undecoded-IsHandled runtime_error was = escape-IsHandled runtime_error (not_caught was refl)
    undecoded-IsHandled (validation reason) was =
        escape-IsHandled (validation reason) (not_caught was refl)

    decoded-IsHandled :
        (result : Result (Value Float))
        → decoded ≡ result
        → IsHandled (on_decoded R cfg result rx_s log_s counted)
    decoded-IsHandled (ok payload) was = validated-IsHandled payload was
    decoded-IsHandled (raise e) was = undecoded-IsHandled e was

  -- When the TEL counters add up, every datagram is handled in one of three ways. It is accepted:
  -- a valid message is stored with its time of receipt and `rx_ok` is one higher. It is dropped
  -- under one of the four reasons: the latest message stays and `rx_bad` is one higher. In both
  -- the counters add up again. Or an error goes through, with the datagram counted as received
  -- only and the latest message kept: one of decoding that is neither a UnicodeDecodeError nor a
  -- JSONDecodeError, or the OverflowError of a decoded message.
  pub process_tel_datagram-TelHandled :
      (cfg : Settings Float) (s : Ingestor Float)
      → IsTelAccounted s.shared.tel
      → (rx_s log_s : Float) (bytes : List ℕ)
      → let out = process_datagram R cfg bytes rx_s log_s s in
        TelHandled (cfg.loads bytes) rx_s s out.0 out.1
  unfolding process_datagram
  process_tel_datagram-TelHandled cfg s h rx_s log_s bytes =
      let decoded = cfg.loads bytes in
      elim (Bool-cases (ltb cfg.max_bytes (length bytes))) [
        | inl long ↦ rw long (drop-IsHandled cfg s h decoded rx_s log_s "oversize" oversize)
        | inr short ↦ rw short (decoded-IsHandled cfg s h decoded rx_s log_s decoded refl)
      ]
