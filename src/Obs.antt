-- ===== src/Obs.antt =====
-- The observations of a frame, helpers/obs.hpp: the structures and the check of a box. Obs/Wire.antt
-- has the builder and the parser.
use droneengage_common.Common.{Bool, true, false, String, List, [], if◌then◌else◌, ◌||◌}
use droneengage_common.Common.Int.{ℤ, pos, negsuc}
use droneengage_common.Common.Float.{FloatOps}
use droneengage_common.Json.{Json, null}
mod Tests
pub mod Entry
pub mod Wire
pub mod Round

pub record Observation (F : Type 0) : Type 0 where
  pub has_trk : Bool
  pub trk : ℤ
  pub cls : String
  pub has_cls_id : Bool
  pub cls_id : ℤ
  pub conf : F
  pub x : F
  pub y : F
  pub w : F
  pub h : F
  pub attrs : Json F

pub record ObservationFrame (F : Type 0) : Type 0 where
  pub cam_id : String
  pub tm_capture : ℤ
  pub obs : List (Observation F)

module _ {F : Type 0} ⦃o : FloatOps F⦄ where
  abbrev pub float_zero : F
  float_zero = o.of_int (pos 0)

  abbrev pub float_one : F
  float_one = o.of_int (pos 1)

  -- `Observation ()`
  abbrev pub no_observation : Observation F
  no_observation = record {
    has_trk = false;
    trk = negsuc 0;
    cls = "";
    has_cls_id = false;
    cls_id = negsuc 0;
    conf = float_zero;
    x = float_zero;
    y = float_zero;
    w = float_zero;
    h = float_zero;
    attrs = null;
  }

  -- `1.0 + eps`
  abbrev one_and_eps : F
  one_and_eps = o.add float_one (o.decimal 1 6)

  unfoldable pub obs_box_valid : Observation F → Bool
  obs_box_valid b =
      if o.lt b.x float_zero || o.lt float_one b.x
      then false
      else if o.lt b.y float_zero || o.lt float_one b.y
      then false
      else if o.le b.w float_zero || o.lt float_one b.w
      then false
      else if o.le b.h float_zero || o.lt float_one b.h
      then false
      else if o.lt one_and_eps (o.add b.x b.w)
      then false
      else if o.lt one_and_eps (o.add b.y b.h)
      then false
      else true
