-- ===== src/Backend/TelSchema/Accepts.antt =====
-- Which messages `validate_tel_message` returns, and which errors it raises
-- (src/backend/tel_schema.py).
use aot_drone.Common.{>>=-eq-ok, guard, ◌≡◌, refl, true, ok, arith}
use aot_drone.Common.Raises.{OnlyRaises}
use aot_drone.Runtime.{Runtime, zero_f, one_f}
use aot_drone.Json.{Value, object, Fields, get, has_all, is_text}
use aot_drone.Backend.Schema.{
  schema, is_tracking_state, is_control_mode, as_object, require_int, require_float, minus_one,
  Between,
}
use aot_drone.Backend.Schema.Errors.{IsFieldError, field_rules}
use aot_drone.Backend.TelSchema.{
  required_fields, TelFields, tel_dict, read_tel, ensure_tel_ranges, validate_tel_message,
}

module _ (R : Runtime) where
  open R use {Float}

  -- what a consumer may rely on
  pub record IsTel (v : TelFields Float) : Type 0 where
    pub known_mode : is_control_mode v.control_mode ≡ true
    pub known_state : is_tracking_state v.tracking_state ≡ true
    pub x_in : Between R (minus_one R) v.target_x (one_f R)
    pub y_in : Between R (minus_one R) v.target_y (one_f R)
    pub w_in : Between R (zero_f R) v.bound_w (one_f R)
    pub h_in : Between R (zero_f R) v.bound_h (one_f R)
    pub confidence_in : Between R (zero_f R) v.confidence (one_f R)

  read_tel-known :
      (d : Fields Float) {v : TelFields Float}
      → read_tel R d ≡ ok v
      → (is_control_mode v.control_mode ≡ true) × (is_tracking_state v.tracking_state ≡ true)
  unfolding read_tel
  read_tel-known d h = ground arith

  ensure_tel_ranges-IsTel :
      (v : TelFields Float)
      → is_control_mode v.control_mode ≡ true
      → is_tracking_state v.tracking_state ≡ true
      → ensure_tel_ranges R v ≡ ok tt
      → IsTel v
  unfolding ensure_tel_ranges
  ensure_tel_ranges-IsTel v m s e = ground arith

  -- What `validate_tel_message` returns has a known mode and state, a target position in [-1, 1],
  -- and a size and a confidence in [0, 1].
  pub validate_tel_message_sound :
      (payload : Value Float) {msg : Fields Float}
      → validate_tel_message R payload ≡ ok msg
      → (v : TelFields Float) × (msg ≡ tel_dict v) × IsTel v
  unfolding validate_tel_message
  validate_tel_message_sound payload h =
      let (d, is_object, h1) = >>=-eq-ok (as_object R payload) _ h in
      let (_, all, h2) = >>=-eq-ok (guard (has_all required_fields d) schema) _ h1 in
      let (_, typed, h3) = >>=-eq-ok (guard (is_text "TEL" (get "type" d)) schema) _ h2 in
      let (v, read, h4) = >>=-eq-ok (read_tel R d) _ h3 in
      let (u, fits, h5) = >>=-eq-ok (ensure_tel_ranges R v) _ h4 in
      let (m, s) = read_tel-known d read in (v, cc, ensure_tel_ranges-IsTel v m s fits)

  read_tel-tel_dict :
      (v : TelFields Float)
      → is_control_mode v.control_mode ≡ true
      → is_tracking_state v.tracking_state ≡ true
      → read_tel R (tel_dict v) ≡ ok v
  unfolding read_tel require_int require_float get
  read_tel-tel_dict v m s = rw (m, s)

  has_all-tel_dict : (v : TelFields Float) → has_all required_fields (tel_dict v) ≡ true
  unfolding has_all
  has_all-tel_dict v = refl

  ensure_tel_ranges-ok : (v : TelFields Float) → IsTel v → ensure_tel_ranges R v ≡ ok tt
  unfolding ensure_tel_ranges
  ensure_tel_ranges-ok v i = ground (arith, i)

  -- A message of the form and the ranges that the validator returns is accepted by
  -- `validate_tel_message` and comes back as it is.
  pub validate_tel_message-fixed :
      (v : TelFields Float)
      → IsTel v
      → validate_tel_message R (object (tel_dict v)) ≡ ok (tel_dict v)
  unfolding validate_tel_message get
  validate_tel_message-fixed v i =
      rw (
        has_all-tel_dict v,
        read_tel-tel_dict v i.known_mode i.known_state,
        ensure_tel_ranges-ok v i,
      )

  -- The errors of `validate_tel_message` are those with the reasons schema and range, and
  -- OverflowError.
  pub validate_tel_message-IsFieldError :
      (payload : Value Float) → OnlyRaises IsFieldError (validate_tel_message R payload)
  unfolding validate_tel_message read_tel ensure_tel_ranges
  validate_tel_message-IsFieldError payload = search field_rules depth 60
