-- ===== src/Vision/YoloDetector/Sound.antt =====
-- Which rows of the model become detections (src/vision/yolo_detector.py).
use aot_drone.Vision.YoloDetector.{Boxes, detect, detect_row, detect_rows, scored}
use aot_drone.Common.{Bool-cases, >>=-eq-ok, inr, inl, ok-injective, subst, arith}
use aot_drone.Vision.Types.{Detection}
use aot_drone.Common.Int.{pos, eqb_ℤ, ℤ}
use aot_drone.Vision.YoloDetector.{Corners, cons_some, YoloSettings}
use aot_drone.Runtime.{Runtime, Laws, zero_f, max_f}
use aot_drone.Common.{false, true, ◌∷◌, ◌&&◌, refl, ok, Option, List, none, some, [], ◌≡◌}

module _ (R : Runtime) where
  open R use {Float, le, lt, sub, trunc}

  module _ (cfg : YoloSettings Float) where
    -- the box of two corners whose sides need no clamping
    abbrev pub detection_of : Corners Float → Float → Detection Float
    detection_of c score = record {
      bbox = record { x = c.x1; y = c.y1; w = sub c.x2 c.x1; h = sub c.y2 c.y1 };
      confidence = score;
      track_id = pos 1;
    }

    -- what becomes of a row
    pub data RowSelected (c : Corners Float) (score class_id : Float)
        : Option (Detection Float) → Type 0 where
      kept :
          (n : ℤ)
          → trunc class_id ≡ ok n
          → eqb_ℤ n cfg.target_class ≡ true
          → lt score cfg.conf_threshold ≡ false
          → lt (zero_f R) (sub c.x2 c.x1) ≡ true
          → lt (zero_f R) (sub c.y2 c.y1) ≡ true
          → RowSelected c score class_id (some (detection_of c score))
      other_class :
          (n : ℤ)
          → trunc class_id ≡ ok n
          → eqb_ℤ n cfg.target_class ≡ false
          → RowSelected c score class_id none
      low_score : lt score cfg.conf_threshold ≡ true → RowSelected c score class_id none
      flat :
          (lt (zero_f R) (sub c.x2 c.x1) && lt (zero_f R) (sub c.y2 c.y1)) ≡ false
          → RowSelected c score class_id none

    -- row by row, up to the end of the shortest list
    pub data Selected
        : List (Corners Float) → List Float → List Float → List (Detection Float) → Type 0 where
      no_corners : {ss ks : List Float} → Selected [] ss ks []
      no_scores :
          {c : Corners Float} {cs : List (Corners Float)} {ks : List Float}
          → Selected (c ∷ cs) [] ks []
      no_classes :
          {c : Corners Float} {cs : List (Corners Float)} {s : Float} {ss : List Float}
          → Selected (c ∷ cs) (s ∷ ss) [] []
      row :
          {c : Corners Float} {cs : List (Corners Float)} {s k : Float} {ss ks : List Float}
          {d : Option (Detection Float)} {ds : List (Detection Float)}
          → RowSelected c s k d
          → Selected cs ss ks ds
          → Selected (c ∷ cs) (s ∷ ss) (k ∷ ks) (cons_some R cfg d ds)

    module _ (laws : Laws R) where
      open laws use {decimal_mono, not_lt_of_le}

      max-positive :
          (w : Float)
          → lt (zero_f R) w ≡ true
          → (max_f R (zero_f R) w ≡ w) × (le w (zero_f R) ≡ false)
      unfolding max_f
      max-positive w h = (rw h refl, ground (arith, not_lt_of_le w (zero_f R)))

      max-flat : (w : Float) → lt (zero_f R) w ≡ false → max_f R (zero_f R) w ≡ zero_f R
      unfolding max_f
      max-flat w h = rw h refl

      zero_le : le (zero_f R) (zero_f R) ≡ true
      zero_le = decimal_mono (pos 0) (pos 0) 0 refl

      -- a row of the class
      scored-RowSelected :
          (c : Corners Float) (s k : Float) (n : ℤ)
          → trunc k ≡ ok n
          → eqb_ℤ n cfg.target_class ≡ true
          → RowSelected c s k (scored R cfg c s)
      scored-RowSelected c s k n is_n same =
          let dx = sub c.x2 c.x1 in
          let dy = sub c.y2 c.y1 in
          elim (Bool-cases (lt s cfg.conf_threshold)) [
            | inl low ↦ rw low (low_score low)
            | inr enough ↦ elim (Bool-cases (lt (zero_f R) dx)) [
              | inr narrow ↦ rw (enough, max-flat dx narrow, zero_le) (flat (rw narrow refl))
              | inl wide ↦ elim (Bool-cases (lt (zero_f R) dy)) [
                | inr low_box ↦
                    rw
                      (
                        enough,
                        (max-positive dx wide).0,
                        (max-positive dx wide).1,
                        max-flat dy low_box,
                        zero_le,
                      )
                      (flat (rw (wide, low_box) refl))
                | inl high ↦
                    rw
                      (
                        enough,
                        (max-positive dx wide).0,
                        (max-positive dx wide).1,
                        (max-positive dy high).0,
                        (max-positive dy high).1,
                      )
                      (kept n is_n same enough wide high)
              ]
            ]
          ]

      detect_row-RowSelected :
          (c : Corners Float) (s k : Float) {d : Option (Detection Float)}
          → detect_row R cfg c s k ≡ ok d
          → RowSelected c s k d
      unfolding detect_row
      detect_row-RowSelected c s k h =
          let (n, is_n, h1) = >>=-eq-ok (trunc k) _ h in
          subst (RowSelected c s k) (ok-injective h1)
            (elim (Bool-cases (eqb_ℤ n cfg.target_class)) [
              | inl same ↦ rw same (scored-RowSelected c s k n is_n same)
              | inr apart ↦ rw apart (other_class n is_n apart)
            ])

      detect_rows-Selected :
          (cs : List (Corners Float)) (ss ks : List Float) {ds : List (Detection Float)}
          → detect_rows R cfg cs ss ks ≡ ok ds
          → Selected cs ss ks ds
      unfolding detect_rows
      detect_rows-Selected [] ss ks h = subst (Selected [] ss ks) (ok-injective h) no_corners
      detect_rows-Selected (c ∷ cs) [] ks h =
          subst (Selected (c ∷ cs) [] ks) (ok-injective h) no_scores
      detect_rows-Selected (c ∷ cs) (s ∷ ss) [] h =
          subst (Selected (c ∷ cs) (s ∷ ss) []) (ok-injective h) no_classes
      detect_rows-Selected (c ∷ cs) (s ∷ ss) (k ∷ ks) h =
          let (d, is_d, h1) = >>=-eq-ok (detect_row R cfg c s k) _ h in
          let (rest, is_rest, h2) = >>=-eq-ok (detect_rows R cfg cs ss ks) _ h1 in
          subst (Selected (c ∷ cs) (s ∷ ss) (k ∷ ks)) (ok-injective h2)
            (row (detect_row-RowSelected c s k is_d) (detect_rows-Selected cs ss ks is_rest))

      -- When the laws of floats hold and `detect` returns, its detections are, in the order of
      -- the rows, those of the rows whose class is the target class, whose score is not below the
      -- threshold, and whose second corner is right of and below the first one, each with the box
      -- between its corners.
      pub detect-Selected :
          (boxes : Boxes Float) {ds : List (Detection Float)}
          → detect R cfg (some boxes) ≡ ok ds
          → Selected boxes.xyxy boxes.confs boxes.classes ds
      unfolding detect
      detect-Selected boxes h = detect_rows-Selected boxes.xyxy boxes.confs boxes.classes h
