-- ===== src/Backend/Ingest.antt =====
-- `process_datagram` of src/backend/tel_ingest.py and src/backend/vis_ingest.py: from the bytes of a
-- datagram to the shared state. The socket loop around it only receives and calls it.
pub mod Tel
pub mod Vis
use aot_drone.Common.{
  ◌≡◌, overflow_error, ℕ, String, Error, decode_error, validation, Option, none, some, List, Result,
  ok, raise,
}
use aot_drone.Runtime.{Runtime}
use aot_drone.Json.{Value, Fields}
use aot_drone.Backend.State.{SharedState}
use aot_drone.Backend.DropLog.{Buckets}

-- the shared state and the ingestor's own log
pub record Ingestor (F : Type 0) : Type 0 where
  pub shared : SharedState F
  pub drop_log : Buckets F

-- what the call tells the callbacks `on_valid` and `on_drop`; it returns True for the first
pub data Outcome (F : Type 0) : Type 0 where
  valid : Fields F → Outcome F
  dropped : String → Outcome F

-- what the constructor is given
pub record Settings (F : Type 0) : Type 0 where
  pub max_bytes : ℕ
  pub log_interval_s : F
  -- `json.loads(data.decode("utf-8"))`. `decode_error` is a UnicodeDecodeError or a JSONDecodeError;
  -- it may raise others, such as the plain ValueError of an integer of too many digits.
  pub loads : List ℕ → Result (Value F)

-- the two `except` clauses: the reason of the drop, or none for an error that goes through
abbrev pub decode_reason : Error → Option String
decode_reason decode_error = some "json"
decode_reason _ = none

abbrev pub schema_reason : Error → Option String
schema_reason (validation reason) = some reason
schema_reason _ = none

-- the errors that go through `process_datagram`, given what decoding returned: one of decoding that is
-- not caught, or the OverflowError of `float` on an integer of the message
pub data Escapes {F : Type 0} (decoded : Result (Value F)) : Error → Type 0 where
  not_caught : {e : Error} → decoded ≡ raise e → decode_reason e ≡ none → Escapes decoded e
  too_large : (payload : Value F) → decoded ≡ ok payload → Escapes decoded overflow_error
