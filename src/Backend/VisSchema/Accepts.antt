-- ===== src/Backend/VisSchema/Accepts.antt =====
-- Which messages `validate_vis_message` returns, and which errors it raises
-- (src/backend/vis_schema.py).
use aot_drone.Common.{
  >>=-eq-ok, guard, ◌≡◌, refl, ◌⊎◌, true, false, Result, ok, Error, validation, arith,
}
use aot_drone.Common.Raises.{OnlyRaises, raise_rules}
use aot_drone.Common.Int.{pos, negsuc}
use aot_drone.Runtime.{Runtime, Laws, zero_f, one_f}
use aot_drone.Json.{Value, object, Fields, get, has_all, is_text}
use aot_drone.Backend.Schema.{
  schema, is_tracking_state, as_object, require_int, require_float, minus_one, Between,
}
use aot_drone.Backend.Schema.Errors.{
  IsFieldError, schema_error, as_object-IsFieldError, field_rules,
}
use aot_drone.Backend.VisSchema.{
  required_fields, VisFields, vis_dict, zero_eps, read_vis, ensure_vis_ranges, settle_vis,
  validate_vis_message,
}

-- the errors of the checks of one field, and the one of the whole message
pub data IsVisError : Error → Type 0 where
  of_field : {e : Error} → IsFieldError e → IsVisError e
  semantics_error : IsVisError (validation "semantics")

module _ (R : Runtime) where
  open R use {Float, le, of_int}

  -- what a consumer may rely on
  pub record IsVis (v : VisFields Float) : Type 0 where
    pub known_state : is_tracking_state v.tracking_state ≡ true
    pub x_in : Between R (minus_one R) v.loc_x (one_f R)
    pub y_in : Between R (minus_one R) v.loc_y (one_f R)
    pub w_in : Between R (zero_f R) v.bound_w (one_f R)
    pub h_in : Between R (zero_f R) v.bound_h (one_f R)
    pub confidence_in : Between R (zero_f R) v.confidence (one_f R)
    pub blank :
        (v.tracking_state ≡ pos 3)
        ⊎ ((v.loc_x ≡ zero_f R)
            × (v.loc_y ≡ zero_f R)
            × (v.bound_w ≡ zero_f R)
            × (v.bound_h ≡ zero_f R)
            × (v.confidence ≡ zero_f R))

  read_vis-known :
      (d : Fields Float) {v : VisFields Float}
      → read_vis R d ≡ ok v
      → is_tracking_state v.tracking_state ≡ true
  unfolding read_vis
  read_vis-known d h = ground arith

  module _ (laws : Laws R) where
    open laws use {decimal_mono, decimal_zero, not_lt_of_le, abs_zero}

    settle_vis-IsVis :
        (v : VisFields Float) {s : VisFields Float}
        → is_tracking_state v.tracking_state ≡ true
        → ensure_vis_ranges R v ≡ ok tt
        → settle_vis R v ≡ ok s
        → IsVis s
    unfolding settle_vis ensure_vis_ranges
    settle_vis-IsVis v k e h = ground (
      arith,
      decimal_mono (negsuc 0) (pos 0) 0 refl,
      decimal_mono (pos 0) (pos 0) 0 refl,
      decimal_mono (pos 0) (pos 1) 0 refl,
    )

    -- When the laws of floats hold, what `validate_vis_message` returns has a known state, a
    -- position in [-1, 1], a size and a confidence in [0, 1], and zeros in all five unless the
    -- state is TRACKING.
    pub validate_vis_message_sound :
        (payload : Value Float) {msg : Fields Float}
        → validate_vis_message R payload ≡ ok msg
        → (v : VisFields Float) × (msg ≡ vis_dict v) × IsVis v
    unfolding validate_vis_message
    validate_vis_message_sound payload h =
        let (d, is_object, h1) = >>=-eq-ok (as_object R payload) _ h in
        let (_, all, h2) = >>=-eq-ok (guard (has_all required_fields d) schema) _ h1 in
        let (_, typed, h3) = >>=-eq-ok (guard (is_text "VIS" (get "type" d)) schema) _ h2 in
        let (v, read, h4) = >>=-eq-ok (read_vis R d) _ h3 in
        let (u, fits, h5) = >>=-eq-ok (ensure_vis_ranges R v) _ h4 in
        let (s, settled, h6) = >>=-eq-ok (settle_vis R v) _ h5 in
        (s, cc, settle_vis-IsVis v (read_vis-known d read) fits settled)

    read_vis-vis_dict :
        (v : VisFields Float)
        → is_tracking_state v.tracking_state ≡ true
        → read_vis R (vis_dict v) ≡ ok v
    unfolding read_vis require_int require_float get
    read_vis-vis_dict v k = rw k

    has_all-vis_dict : (v : VisFields Float) → has_all required_fields (vis_dict v) ≡ true
    unfolding has_all
    has_all-vis_dict v = refl

    ensure_vis_ranges-ok : (v : VisFields Float) → IsVis v → ensure_vis_ranges R v ≡ ok tt
    unfolding ensure_vis_ranges
    ensure_vis_ranges-ok v i = ground (arith, i)

    zero_near_zero : R.lt (zero_eps R) (R.abs (zero_f R)) ≡ false
    zero_near_zero = rw abs_zero (
        not_lt_of_le (zero_f R) (zero_eps R)
          (rw decimal_zero at (decimal_mono (pos 0) (pos 1) 6 refl)))

    settle_vis-fixed : (v : VisFields Float) → IsVis v → settle_vis R v ≡ ok v
    unfolding settle_vis
    settle_vis-fixed v i = ground (arith, i, zero_near_zero)

    -- When the laws of floats hold, a message of the form, the ranges and the zeros that the
    -- validator returns is accepted by `validate_vis_message` and comes back as it is.
    pub validate_vis_message-fixed :
        (v : VisFields Float)
        → IsVis v
        → validate_vis_message R (object (vis_dict v)) ≡ ok (vis_dict v)
    unfolding validate_vis_message get
    validate_vis_message-fixed v i = rw (
      has_all-vis_dict v,
      read_vis-vis_dict v i.known_state,
      ensure_vis_ranges-ok v i,
      settle_vis-fixed v i,
    )

  of_field_check : {A : Type 0} {m : Result A} → OnlyRaises IsFieldError m → OnlyRaises IsVisError m
  of_field_check h = record { at = λ e p. of_field (h.at e p) }

  as_object-IsVisError : (v : Value Float) → OnlyRaises IsVisError (as_object R v)
  as_object-IsVisError v = of_field_check (as_object-IsFieldError R v)

  read_vis-IsVisError : (d : Fields Float) → OnlyRaises IsVisError (read_vis R d)
  unfolding read_vis
  read_vis-IsVisError d = of_field_check (search field_rules depth 40)

  ensure_vis_ranges-IsVisError :
      (v : VisFields Float) → OnlyRaises IsVisError (ensure_vis_ranges R v)
  unfolding ensure_vis_ranges
  ensure_vis_ranges-IsVisError v = of_field_check (search field_rules depth 40)

  -- The errors of `validate_vis_message` are those with the reasons schema, range and semantics,
  -- and OverflowError.
  pub validate_vis_message-IsVisError :
      (payload : Value Float) → OnlyRaises IsVisError (validate_vis_message R payload)
  unfolding validate_vis_message settle_vis
  validate_vis_message-IsVisError payload =
      search
        (
          raise_rules, of_field, schema_error, semantics_error, as_object-IsVisError,
          read_vis-IsVisError, ensure_vis_ranges-IsVisError,
        )
        depth 20
