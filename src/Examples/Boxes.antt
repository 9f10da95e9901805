-- ===== src/Examples/Boxes.antt =====
-- The detector and the tracker of OpenCV on fixed inputs (src/vision/opencv_tracker.py,
-- src/vision/yolo_detector.py).
use aot_drone.Vision.YoloDetector.Sound.{Selected, detect-Selected}
use aot_drone.Runtime.{max_f}
use aot_drone.Vision.YoloDetector.{Boxes, detect, detect_rows, detect_row, YoloSettings}
use aot_drone.Vision.Types.{Detection, PixelBbox}
use aot_drone.Vision.OpencvTracker.Active.{initialize-IsStarted, IsStarted}
use aot_drone.Vision.OpencvTracker.{to_cv_bbox, OpencvTracker, place_box, place, Cv, initialize}
use aot_drone.Common.Int.{◌*ℤ◌, pos, ◌-ℤ◌}
use aot_drone.Runtime.Micros.{
  scale, decimal_num, both, micros-Laws, le_num, lt_num, micros, quot, num, Num, trunc_num,
}
use aot_drone.Common.{List, ◌∷◌, [], refl, ok, some, none, true, ◌≡◌}

-- frames of 640 x 480 pixels, and a tracker that keeps its box
abbrev still : Cv Num
still = record {
  Frame = Unit;
  Native = PixelBbox Num;
  shape = λ frame. some (pos 480, pos 640);
  init = λ frame box. (
    true,
    record { x = num (pos 0); y = num (pos 0); w = num (pos 1000000); h = num (pos 1000000) },
  );
  update = λ box frame. (true, box, box);
}

abbrev kcf : OpencvTracker (PixelBbox Num)
kcf = record { tracker_type = "kcf"; has_factory = true; tracker = none }

-- a box over the lower right corner of the frame
abbrev over_corner : PixelBbox Num
over_corner = record {
  x = num (pos 600000000);
  y = num (pos 470000000);
  w = num (pos 100000000);
  h = num (pos 100000000);
}

corner_placed :
    to_cv_bbox micros still trunc_num over_corner tt
    ≡ ok (some (record { x = pos 600; y = pos 470; w = pos 40; h = pos 10 }))
unfolding to_cv_bbox place_box place ◌-ℤ◌ trunc_num quot
corner_placed = refl

initialize-IsStarted_example :
    IsStarted micros still trunc_num kcf tt over_corner
      (initialize micros still trunc_num tt over_corner kcf)
initialize-IsStarted_example = initialize-IsStarted micros still trunc_num tt over_corner kcf

abbrev yolo : YoloSettings Num
yolo = record {
  model_path = "yolov8n.pt";
  target_class = pos 0;
  conf_threshold = num (pos 500000);
  infer_width = pos 640;
  infer_size = none;
}

-- a person, a person with a low score, and a car
abbrev street : Boxes Num
street = record {
  xyxy =
      record {
        x1 = num (pos 10000000);
        y1 = num (pos 20000000);
        x2 = num (pos 30000000);
        y2 = num (pos 60000000);
      }
      ∷ record {
        x1 = num (pos 0);
        y1 = num (pos 0);
        x2 = num (pos 10000000);
        y2 = num (pos 10000000);
      }
      ∷ record {
        x1 = num (pos 0);
        y1 = num (pos 0);
        x2 = num (pos 10000000);
        y2 = num (pos 10000000);
      }
      ∷ [];
  confs = num (pos 900000) ∷ num (pos 400000) ∷ num (pos 800000) ∷ [];
  classes = num (pos 0) ∷ num (pos 0) ∷ num (pos 2000000) ∷ [];
}

street_detected : (ds : List (Detection Num)) × (detect micros yolo (some street) ≡ ok ds)
unfolding detect detect_rows detect_row trunc_num quot max_f lt_num le_num decimal_num scale ◌*ℤ◌
    both ◌-ℤ◌
street_detected = (
  record {
    bbox = record {
      x = num (pos 10000000);
      y = num (pos 20000000);
      w = num (pos 20000000);
      h = num (pos 40000000);
    };
    confidence = num (pos 900000);
    track_id = pos 1;
  }
      ∷ [],
  refl,
)

detect-Selected_example :
    Selected micros yolo street.xyxy street.confs street.classes street_detected.0
detect-Selected_example = detect-Selected micros yolo micros-Laws street street_detected.1
