-- ===== src/Vision/Types/Message.antt =====
-- `VisMessage` (src/vision/types.py): the message that a publisher prints.
use aot_drone.Json.Laws.{get-put}
use aot_drone.Backend.State.Views.{dict}
use aot_drone.Runtime.{Laws, Runtime}
use aot_drone.Vision.Types.Clamp.{InUnit, clamp01-InUnit}
use aot_drone.Common.Int.{to_ℕ, ℤ, pos}
use aot_drone.Json.{object, float, nil, array, put, int, text, Fields, cons, get}
use aot_drone.Vision.Types.{
  no_target, VisState, NormalizedBbox, tracking, target_detected, searching, clamp01,
}
use aot_drone.Common.{
  ℕ, false, ◌∙◌, str_eq, if_false, refl, none, Option, ◌∷◌, some, String, [], ◌≡◌,
}

-- `type` and `proto_ver` are constants
pub record VisMessage (F : Type 0) : Type 0 where
  pub ts : F
  pub state : VisState
  pub bbox : NormalizedBbox F
  pub conf : F
  pub track_id : ℤ
  pub frame_id : Option ℤ
  pub src : Option String
  pub img_wh : Option (ℤ × ℤ)

-- `VisState.value`
abbrev pub value_of : VisState → String
value_of no_target = "NoTarget"
value_of target_detected = "TargetDetected"
value_of tracking = "Tracking"
value_of searching = "Searching"

module _ (R : Runtime) where
  open R use {Float}

  -- `NormalizedBBox.to_dict`
  unfoldable pub bbox_to_dict : NormalizedBbox Float → Fields Float
  bbox_to_dict b = dict (
      ("cx", float (clamp01 R b.cx))
      ∷ ("cy", float (clamp01 R b.cy))
      ∷ ("w", float (clamp01 R b.w))
      ∷ ("h", float (clamp01 R b.h))
      ∷ [])

  abbrev pub with_frame_id : Option ℤ → Fields Float → Fields Float
  with_frame_id none d = d
  with_frame_id (some n) d = put "frame_id" (int n) d

  abbrev pub with_src : Option String → Fields Float → Fields Float
  with_src none d = d
  with_src (some s) d = put "src" (text s) d

  abbrev pub with_img_wh : Option (ℤ × ℤ) → Fields Float → Fields Float
  with_img_wh none d = d
  with_img_wh (some (w, h)) d = put "img_wh" (array (cons (int w) (cons (int h) nil))) d

  -- `VisMessage.to_dict`; `max(0, int(track_id))` is written with `to_ℕ`
  unfoldable pub message_to_dict : VisMessage Float → Fields Float
  unfolding bbox_to_dict
  message_to_dict m = with_img_wh m.img_wh (
      with_src m.src (
        with_frame_id m.frame_id (
          dict (
            ("type", text "VIS")
            ∷ ("proto_ver", int (pos 1))
            ∷ ("ts", float m.ts)
            ∷ ("state", text (value_of m.state))
            ∷ ("bbox", object (bbox_to_dict m.bbox))
            ∷ ("conf", float (clamp01 R m.conf))
            ∷ ("track_id", int (pos (to_ℕ m.track_id)))
            ∷ []))))

  -- the optional entries leave the others as they are
  get-frame_id :
      (k : String) (frame_id : Option ℤ) (d : Fields Float)
      → str_eq "frame_id" k ≡ false
      → get k (with_frame_id frame_id d) ≡ get k d
  get-frame_id k none d apart = refl
  get-frame_id k (some n) d apart = get-put "frame_id" k (int n) d ∙ if_false _ _ _ apart

  get-src :
      (k : String) (src : Option String) (d : Fields Float)
      → str_eq "src" k ≡ false
      → get k (with_src src d) ≡ get k d
  get-src k none d apart = refl
  get-src k (some s) d apart = get-put "src" k (text s) d ∙ if_false _ _ _ apart

  get-img_wh :
      (k : String) (img_wh : Option (ℤ × ℤ)) (d : Fields Float)
      → str_eq "img_wh" k ≡ false
      → get k (with_img_wh img_wh d) ≡ get k d
  get-img_wh k none d apart = refl
  get-img_wh k (some (w, h)) d apart = get-put "img_wh" k _ d ∙ if_false _ _ _ apart

  -- Whatever the optional entries are, the confidence of the dict is in [0, 1] and its track id is
  -- not negative.
  pub message_to_dict-InUnit :
      Laws R
      → (m : VisMessage Float)
      → ((conf : Float) × (get "conf" (message_to_dict m) ≡ some (float conf)) × InUnit R conf)
        × ((n : ℕ) × (get "track_id" (message_to_dict m) ≡ some (int (pos n))))
  unfolding message_to_dict get
  message_to_dict-InUnit laws m = (
    (
      clamp01 R m.conf,
      get-img_wh "conf" m.img_wh _ refl
          ∙ (get-src "conf" m.src _ refl ∙ get-frame_id "conf" m.frame_id _ refl),
      clamp01-InUnit R laws m.conf,
    ),
    (
      to_ℕ m.track_id,
      get-img_wh "track_id" m.img_wh _ refl
          ∙ (get-src "track_id" m.src _ refl ∙ get-frame_id "track_id" m.frame_id _ refl),
    ),
  )
