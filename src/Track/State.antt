-- ===== src/Track/State.antt =====
-- The tracks of helpers/track_manager.hpp: the structures, the configuration and what one track does.
use droneengage_common.Common.{
  ℕ, ◌+◌, Bool, true, false, not, ◌||◌, List, [], String, ◌==◌, ltb, if◌then◌else◌,
}
use droneengage_common.Common.Int.{ℤ, pos, ltb_ℤ}
use droneengage_common.Common.Float.{FloatOps}
use droneengage_common.Obs.{Observation, float_zero, float_one}

pub record TrackManagerConfig (F : Type 0) : Type 0 where
  pub confirm_hits : ℤ
  pub max_misses : ℤ
  pub iou_min : F
  pub min_conf : F

pub record Box (F : Type 0) : Type 0 where
  pub x : F
  pub y : F
  pub w : F
  pub h : F

pub record Track (F : Type 0) : Type 0 where
  pub id : ℕ
  pub cls : String
  pub x : F
  pub y : F
  pub w : F
  pub h : F
  pub vx : F
  pub vy : F
  pub hits : ℕ
  pub misses : ℕ
  pub confirmed : Bool

pub record TrackManager (F : Type 0) : Type 0 where
  pub config : TrackManagerConfig F
  pub tracks : List (Track F)
  pub next_id : ℕ

module _ {F : Type 0} ⦃o : FloatOps F⦄ where
  -- `std::max`
  abbrev float_max : F → F → F
  float_max a b = if o.lt a b then b else a

  -- `std::min`
  abbrev float_min : F → F → F
  float_min a b = if o.lt b a then b else a

  unfoldable pub iou : Box F → Box F → F
  iou a b =
      let x1 = float_max a.x b.x in
      let y1 = float_max a.y b.y in
      let x2 = float_min (o.add a.x a.w) (o.add b.x b.w) in
      let y2 = float_min (o.add a.y a.h) (o.add b.y b.h) in
      let iw = o.sub x2 x1 in
      let ih = o.sub y2 y1 in
      if o.le iw float_zero || o.le ih float_zero
      then float_zero
      else (let inter = o.mul iw ih in
          let uni = o.sub (o.add (o.mul a.w a.h) (o.mul b.w b.h)) inter in
          if o.lt float_zero uni then o.div inter uni else float_zero)

  -- `TrackManagerConfig ()`
  abbrev pub default_tracking : TrackManagerConfig F
  default_tracking = record {
    confirm_hits = pos 3;
    max_misses = pos 5;
    iou_min = o.decimal 3 1;
    min_conf = o.decimal 25 2;
  }

  -- A number that `sanitize` cuts to [0..1].
  unfoldable pub clamp_unit : F → F
  clamp_unit x =
      let lower = if o.lt x float_zero then float_zero else x in
      if o.lt float_one lower then float_one else lower

  unfoldable pub sanitize : TrackManagerConfig F → TrackManagerConfig F
  unfolding clamp_unit
  sanitize c = record {
    confirm_hits = if ltb_ℤ c.confirm_hits (pos 1) then pos 1 else c.confirm_hits;
    max_misses = if ltb_ℤ c.max_misses (pos 0) then pos 0 else c.max_misses;
    iou_min = clamp_unit c.iou_min;
    min_conf = clamp_unit c.min_conf;
  }

  -- `TrackManager (config)`
  unfoldable pub init : TrackManagerConfig F → TrackManager F
  unfolding sanitize
  init c = record { config = sanitize c; tracks = []; next_id = 1 }

  unfoldable pub set_config : TrackManagerConfig F → TrackManager F → TrackManager F
  unfolding sanitize
  set_config c s = record s { config = sanitize c }

  unfoldable pub reset : TrackManager F → TrackManager F
  reset s = record s { tracks = [] }

  -- `Track ()`
  abbrev pub no_track : Track F
  no_track = record {
    id = 0;
    cls = "";
    x = float_zero;
    y = float_zero;
    w = float_zero;
    h = float_zero;
    vx = float_zero;
    vy = float_zero;
    hits = 0;
    misses = 0;
    confirmed = false;
  }

  unfoldable pub predicted : Track F → Box F
  predicted t =
      let steps = o.of_int (pos (t.misses + 1)) in
      record {
        x = o.add t.x (o.mul t.vx steps);
        y = o.add t.y (o.mul t.vy steps);
        w = t.w;
        h = t.h;
      }

  -- `vx = (hits > 0) ? 0.5 * vx + 0.5 * mvx : mvx`
  unfoldable pub smooth : ℕ → (v mv : F) → F
  smooth hits v mv = if ltb 0 hits then o.add (o.mul o.half v) (o.mul o.half mv) else mv

  -- The velocity of the centre on one axis, of the track `p` and the detection `n`.
  unfoldable pub velocity : Track F → (v n n_size p p_size : F) → F
  unfolding smooth
  velocity t v n n_size p p_size =
      if ltb 0 t.hits || ltb 0 t.misses
      then smooth t.hits v (
          o.div (o.sub (o.add n (o.mul n_size o.half)) (o.add p (o.mul p_size o.half)))
            (o.of_int (pos (t.misses + 1))))
      else v

  -- `Track::update`
  unfoldable pub take_observation : Observation F → Track F → Track F
  unfolding velocity
  take_observation d t = record t {
    x = d.x;
    y = d.y;
    w = d.w;
    h = d.h;
    vx = velocity t t.vx d.x d.w t.x t.w;
    vy = velocity t t.vy d.y d.h t.y t.h;
    hits = t.hits + 1;
    misses = 0;
  }

  -- `Track::miss`
  unfoldable pub miss : Track F → Track F
  miss t = record t { misses = t.misses + 1; hits = 0 }

  -- `Track::dead`
  unfoldable pub dead : TrackManagerConfig F → Track F → Bool
  dead c t =
      if t.misses == 0
      then false
      else if not t.confirmed
      then true
      else ltb_ℤ c.max_misses (pos t.misses)
