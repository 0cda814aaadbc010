-- ===== src/Obs/Tests.antt =====
-- The theorem on the wire object at a concrete frame, with `double` as numbers of three decimal places.
use droneengage_common.Common.{◌≡◌, refl, true, false, map, [], ◌∷◌, inr}
use droneengage_common.Common.Int.{ℤ, pos, to_int32}
use droneengage_common.Common.Float.{FloatOps, milli}
use droneengage_common.Json.{Json, string, integer, float, array, object, nil, cons, end, member}
use droneengage_common.Obs.{Observation, ObservationFrame}
use droneengage_common.Obs.Wire.{obs_build, obs_parse}
use droneengage_common.Obs.Entry.{read_back}
use droneengage_common.Obs.Round.{obs_parse-obs_build}

instance abbrev decimals : FloatOps ℤ
decimals = milli

-- A person with a class id and a temperature, whose track id is not assigned.
abbrev person : Observation ℤ
person = record {
  has_trk = false;
  trk = pos 7;
  cls = "person";
  has_cls_id = true;
  cls_id = pos 3;
  conf = pos 910;
  x = pos 400;
  y = pos 250;
  w = pos 100;
  h = pos 300;
  attrs = object (member "temp_c" (float (pos 36500)) end);
}

abbrev frame : ObservationFrame ℤ
frame = record { cam_id = "CAM1"; tm_capture = pos 123456789; obs = person ∷ [] }

abbrev person_wire : Json ℤ
person_wire = object (
    member "attrs" (object (member "temp_c" (float (pos 36500)) end)) (
      member "box"
        (array (
          cons (float (pos 400))
            (cons (float (pos 250)) (cons (float (pos 100)) (cons (float (pos 300)) nil)))))
        (member "cls" (string "person")
          (member "cls_id" (integer (pos 3)) (member "conf" (float (pos 910)) end)))))

abbrev frame_wire : Json ℤ
frame_wire = object (
    member "cam_id" (string "CAM1") (
      member "obs" (array (cons person_wire nil))
        (member "tm_capture" (integer (pos 123456789)) end)))

frame_built : obs_build frame ≡ inr frame_wire
unfolding obs_build
frame_built = refl

small : to_int32 (pos 3) ≡ pos 3
unfolding to_int32
small = refl

obs_parse-obs_build_example :
    obs_parse frame_wire ≡ inr (record frame { obs = map read_back frame.obs })
obs_parse-obs_build_example = obs_parse-obs_build frame frame_wire (λ h. small, tt) frame_built
