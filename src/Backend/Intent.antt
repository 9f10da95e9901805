-- ===== src/Backend/Intent.antt =====
-- `IntentRequest` and `post_intent` of src/backend/app.py: what the operator asks for.
use aot_drone.Common.{◌≡◌, arith, Bool, true, if◌then◌else◌, Option, none, some}
use aot_drone.Common.Int.{ℤ}
use aot_drone.Json.{bool, int, object, Fields, end, field, put}
use aot_drone.Backend.Schema.{is_control_mode}

-- checked by pydantic against these types
pub record IntentRequest (F : Type 0) : Type 0 where
  pub desired_mode : ℤ
  pub arm : Option Bool
  pub setpoints : Option (Fields F)

module _ {F : Type 0} where
  abbrev add_arm : Option Bool → Fields F → Fields F
  add_arm none d = d
  add_arm (some b) d = put "arm" (bool b) d

  abbrev add_setpoints : Option (Fields F) → Fields F → Fields F
  add_setpoints none d = d
  add_setpoints (some s) d = put "setpoints" (object s) d

  unfoldable pub stored : ℤ → Option Bool → Option (Fields F) → Fields F
  unfolding put
  stored desired_mode arm setpoints =
      add_setpoints setpoints (add_arm arm (field "desired_mode" (int desired_mode) end))

  -- the dict that is stored as the latest intent; none is the status 422
  unfoldable pub intent_payload : IntentRequest F → Option (Fields F)
  intent_payload req =
      if is_control_mode req.desired_mode
      then some (stored req.desired_mode req.arm req.setpoints)
      else none

  pub intent_payload-eq-some :
      (req : IntentRequest F) {d : Fields F}
      → intent_payload req ≡ some d
      → (is_control_mode req.desired_mode ≡ true)
        × (stored req.desired_mode req.arm req.setpoints ≡ d)
  unfolding intent_payload
  intent_payload-eq-some req h = ground arith
