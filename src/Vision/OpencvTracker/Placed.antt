-- ===== src/Vision/OpencvTracker/Placed.antt =====
-- The box that a tracker is started with (src/vision/opencv_tracker.py).
use aot_drone.Vision.OpencvTracker.{round_box, to_cv_in}
use aot_drone.Runtime.{Runtime}
use aot_drone.Vision.Types.{PixelBbox}
use aot_drone.Vision.OpencvTracker.{to_cv_bbox, Cv, CvBox, place_box, place}
use aot_drone.Common.Int.{◌-ℤ◌, ℤ, ltb_ℤ, negsuc, ◌+ℤ◌, pos, leb_ℤ}
use aot_drone.Common.{
  Result-cases, Bool-cases, Result, some, Error, Bool, inr, inl, ok, Option, raise, none, ◌||◌,
  false, true, arith, ◌≡◌,
}

-- one side of a box that lies within a side of the frame and is not empty
pub record Inside (x w size : ℤ) : Type 0 where
  pub from_zero : leb_ℤ (pos 0) x ≡ true
  pub not_empty : ltb_ℤ (pos 0) w ≡ true
  pub to_size : leb_ℤ (x +ℤ w) size ≡ true

place-Inside :
    (x w size : ℤ)
    → leb_ℤ w (pos 0) ≡ false
    → leb_ℤ size (pos 0) ≡ false
    → Inside (place x w size).0 (place x w size).1 size
unfolding place ◌-ℤ◌ ◌+ℤ◌
place-Inside (pos k) (pos m) (pos n) long wide = record {
  from_zero = ground arith;
  not_empty = ground arith;
  to_size = ground arith;
}
place-Inside (negsuc k) (pos m) (pos n) long wide = record {
  from_zero = ground arith;
  not_empty = ground arith;
  to_size = ground arith;
}
place-Inside x w (negsuc n) long wide = ground arith
place-Inside x (negsuc m) size long wide = ground arith

module _ (R : Runtime) (cv : Cv R.Float) (round_int : R.Float → Result ℤ) where
  open R use {Float}
  open cv use {Frame, shape}

  -- the four numbers of a box
  pub data IsSide (bbox : PixelBbox Float) : Float → Type 0 where
    x_side : IsSide bbox bbox.x
    y_side : IsSide bbox bbox.y
    w_side : IsSide bbox bbox.w
    h_side : IsSide bbox bbox.h

  -- Outcomes of `_to_cv_bbox`. Below the check of the rounded size no box is refused.
  pub data IsPlaced (bbox : PixelBbox Float) : Option (ℤ × ℤ) → Result (Option CvBox) → Type 0 where
    inside :
        {img_h img_w : ℤ} (box : CvBox)
        → Inside box.x box.w img_w
        → Inside box.y box.h img_h
        → IsPlaced bbox (some (img_h, img_w)) (ok (some box))
    no_shape : IsPlaced bbox none (ok none)
    empty_frame :
        {img_h img_w : ℤ}
        → (leb_ℤ img_w (pos 0) || leb_ℤ img_h (pos 0)) ≡ true
        → IsPlaced bbox (some (img_h, img_w)) (ok none)
    empty_box :
        {size : ℤ × ℤ} (w h : ℤ)
        → round_int bbox.w ≡ ok w
        → round_int bbox.h ≡ ok h
        → (leb_ℤ w (pos 0) || leb_ℤ h (pos 0)) ≡ true
        → IsPlaced bbox (some size) (ok none)
    not_rounded :
        {size : ℤ × ℤ} {e : Error} (side : Float)
        → IsSide bbox side
        → round_int side ≡ raise e
        → IsPlaced bbox (some size) (raise e)

  not_empty_both :
      (a b : ℤ)
      → ltb_ℤ (pos 0) a ≡ true
      → ltb_ℤ (pos 0) b ≡ true
      → (leb_ℤ a (pos 0) || leb_ℤ b (pos 0)) ≡ false
  not_empty_both a b ha hb = ground arith

  or-false : (a b : Bool) → (a || b) ≡ false → (a ≡ false) × (b ≡ false)
  or-false a b h = (ground arith, ground arith)

  place_box-IsPlaced :
      (bbox : PixelBbox Float) (x y w h img_h img_w : ℤ)
      → (leb_ℤ img_w (pos 0) || leb_ℤ img_h (pos 0)) ≡ false
      → (leb_ℤ w (pos 0) || leb_ℤ h (pos 0)) ≡ false
      → IsPlaced bbox (some (img_h, img_w)) (ok (place_box R cv round_int x y w h (img_h, img_w)))
  unfolding place_box
  place_box-IsPlaced bbox x y w h img_h img_w sized long =
      let (wide, high) = or-false _ _ sized in
      let (w_long, h_long) = or-false _ _ long in
      let in_x = place-Inside x w img_w w_long wide in
      let in_y = place-Inside y h img_h h_long high in
      rw (not_empty_both _ _ in_x.not_empty in_y.not_empty) (inside _ in_x in_y)

  round_box-IsPlaced :
      (bbox : PixelBbox Float) (img_h img_w : ℤ)
      → (leb_ℤ img_w (pos 0) || leb_ℤ img_h (pos 0)) ≡ false
      → IsPlaced bbox (some (img_h, img_w)) (round_box R cv round_int bbox (img_h, img_w))
  round_box-IsPlaced bbox img_h img_w sized = elim (Result-cases (round_int bbox.x)) [
    | inr (e, failed) ↦ rw failed (not_rounded bbox.x x_side failed)
    | inl (x, known_x) ↦ rw known_x (elim (Result-cases (round_int bbox.y)) [
      | inr (e, failed) ↦ rw failed (not_rounded bbox.y y_side failed)
      | inl (y, known_y) ↦ rw known_y (elim (Result-cases (round_int bbox.w)) [
        | inr (e, failed) ↦ rw failed (not_rounded bbox.w w_side failed)
        | inl (w, known_w) ↦ rw known_w (elim (Result-cases (round_int bbox.h)) [
          | inr (e, failed) ↦ rw failed (not_rounded bbox.h h_side failed)
          | inl (h, known_h) ↦ rw known_h (elim (Bool-cases (leb_ℤ w (pos 0) || leb_ℤ h (pos 0))) [
            | inl short ↦ rw short (empty_box w h known_w known_h short)
            | inr long ↦ rw long (place_box-IsPlaced bbox x y w h img_h img_w sized long)
          ])
        ])
      ])
    ])
  ]

  to_cv_in-IsPlaced :
      (bbox : PixelBbox Float) (size : Option (ℤ × ℤ))
      → IsPlaced bbox size (to_cv_in R cv round_int bbox size)
  to_cv_in-IsPlaced bbox none = no_shape
  to_cv_in-IsPlaced bbox (some (img_h, img_w)) =
      elim (Bool-cases (leb_ℤ img_w (pos 0) || leb_ℤ img_h (pos 0))) [
        | inl small ↦ rw small (empty_frame small)
        | inr sized ↦ rw sized (round_box-IsPlaced bbox img_h img_w sized)
      ]

  pub to_cv_bbox-IsPlaced :
      (bbox : PixelBbox Float) (frame : Frame)
      → IsPlaced bbox (shape frame) (to_cv_bbox R cv round_int bbox frame)
  unfolding to_cv_bbox
  to_cv_bbox-IsPlaced bbox frame = to_cv_in-IsPlaced bbox (shape frame)
