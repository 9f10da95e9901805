-- ===== src/Vision/YoloDetector.antt =====
-- `YoloDetector` (src/vision/yolo_detector.py): which boxes of the model become detections. The model
-- itself is not modelled; its answer is an argument.
pub mod Sound
use aot_drone.Vision.BoxSelect.Best.{score}
use aot_drone.Common.Int.{eqb_ℤ, leb_ℤ, ltb_ℤ, ℤ, pos}
use aot_drone.Runtime.{zero_f, one_f, or_overflow, max_f, Runtime}
use aot_drone.Vision.Types.{PixelBbox, Detection}
use aot_drone.Common.{
  true, Result, Bool, ◌||◌, some, str_eq, none, not, Option, List, ◌∷◌, guard, ◌&&◌, ok, String,
  value_error, if◌then◌else◌, ◌>>=◌, ◌>>◌, [], ◌≡◌,
}

pub record YoloSettings (F : Type 0) : Type 0 where
  pub model_path : String
  pub target_class : ℤ
  pub conf_threshold : F
  pub infer_width : ℤ
  pub infer_size : Option ℤ

-- the corners (x1, y1) and (x2, y2) of a row of `boxes.xyxy`
pub record Corners (F : Type 0) : Type 0 where
  pub x1 : F
  pub y1 : F
  pub x2 : F
  pub y2 : F

-- `results[0].boxes`, when `_to_list` gives all three
pub record Boxes (F : Type 0) : Type 0 where
  pub xyxy : List (Corners F)
  pub confs : List F
  pub classes : List F

-- `imgsz`: a size, or a height with a width
pub data ImageSize : Type 0 where
  size : ℤ → ImageSize
  sides : ℤ → ℤ → ImageSize

abbrev size_given : Option ℤ → Bool
size_given none = true
size_given (some n) = ltb_ℤ (pos 0) n

module _ (R : Runtime) where
  open R use {Float, le, lt, sub, mul, div, trunc, of_int}

  -- the checks of `__init__`; loading the model follows them
  unfoldable pub check_settings : YoloSettings Float → Result (YoloSettings Float)
  check_settings cfg = do
    guard (not (str_eq cfg.model_path "")) value_error
    guard (leb_ℤ (pos 0) cfg.target_class) value_error
    guard (le (zero_f R) cfg.conf_threshold && le cfg.conf_threshold (one_f R)) value_error
    guard (ltb_ℤ (pos 0) cfg.infer_width) value_error
    guard (size_given cfg.infer_size) value_error
    ok cfg

  module _ (cfg : YoloSettings Float) where
    abbrev pub box_of : Corners Float → PixelBbox Float
    box_of c = record {
      x = c.x1;
      y = c.y1;
      w = max_f R (zero_f R) (sub c.x2 c.x1);
      h = max_f R (zero_f R) (sub c.y2 c.y1);
    }

    -- below the check of the class
    abbrev pub scored : Corners Float → Float → Option (Detection Float)
    scored c score =
        if lt score cfg.conf_threshold
        then none
        else let b = box_of c in
          if le b.w (zero_f R) || le b.h (zero_f R)
          then none
          else some (record { bbox = b; confidence = score; track_id = pos 1 })

    -- a round of the loop: none is `continue`
    unfoldable pub detect_row : Corners Float → Float → Float → Result (Option (Detection Float))
    unfolding max_f
    detect_row c score class_id = do
      n ← trunc class_id
      ok (if not (eqb_ℤ n cfg.target_class) then none else scored c score)

    abbrev pub cons_some :
        Option (Detection Float) → List (Detection Float) → List (Detection Float)
    cons_some none ds = ds
    cons_some (some d) ds = d ∷ ds

    -- the loop over `zip(xyxy, confs, classes, strict=False)`
    unfoldable pub detect_rows :
        List (Corners Float) → List Float → List Float → Result (List (Detection Float))
    unfolding detect_row
    detect_rows [] scores classes = ok []
    detect_rows (c ∷ cs) [] classes = ok []
    detect_rows (c ∷ cs) (s ∷ ss) [] = ok []
    detect_rows (c ∷ cs) (s ∷ ss) (k ∷ ks) = do
      d ← detect_row c s k
      ds ← detect_rows cs ss ks
      ok (cons_some d ds)

    -- none is an answer without boxes
    unfoldable pub detect : Option (Boxes Float) → Result (List (Detection Float))
    unfolding detect_rows
    detect none = ok []
    detect (some boxes) = detect_rows boxes.xyxy boxes.confs boxes.classes

    abbrev scaled : (Float → Result ℤ) → ℤ → ℤ → Result ImageSize
    scaled round_int frame_h frame_w = do
      h ← or_overflow (of_int frame_h)
      width ← or_overflow (of_int cfg.infer_width)
      w ← or_overflow (of_int frame_w)
      n ← round_int (div (mul h width) w)
      ok (sides (if ltb_ℤ (pos 1) n then n else pos 1) cfg.infer_width)

    abbrev resolve_in : (Float → Result ℤ) → ℤ → ℤ → Option ℤ → Result ImageSize
    resolve_in round_int frame_h frame_w (some n) = ok (size n)
    resolve_in round_int frame_h frame_w none =
        if leb_ℤ frame_w (pos 0) || leb_ℤ frame_h (pos 0)
        then ok (size cfg.infer_width)
        else scaled round_int frame_h frame_w

    -- `_resolve_imgsz`; `round_int` is `int(round(x))`
    unfoldable pub resolve_imgsz : (Float → Result ℤ) → ℤ → ℤ → Result ImageSize
    resolve_imgsz round_int frame_h frame_w = resolve_in round_int frame_h frame_w cfg.infer_size
