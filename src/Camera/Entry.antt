-- ===== src/Camera/Entry.antt =====
-- `CameraRegistryEntry` of helpers/camera_registry.hpp.
use droneengage_common.Common.{
  Bool, ◌&&◌, Option, none, some, String, List, [], ◌∷◌, map, ◌==◌, if◌then◌else◌, length, nth,
}
use droneengage_common.Common.Int.{ℤ, pos, negsuc, ltb_ℤ}
use droneengage_common.Common.Float.{FloatOps}
use droneengage_common.Json.{
  Json, null, integer, float, array, of_items, elements, at, is_array, is_object, as_int, as_double,
}
use droneengage_common.Config.Merge.{assign_all}

pub record CameraEntry (F : Type 0) : Type 0 where
  pub image_width : ℤ
  pub image_height : ℤ
  -- nine numbers, row by row
  pub camera_matrix : List F
  pub distortion : List F
  pub mount_yaw_deg : F
  pub mount_pitch_deg : F
  pub mount_roll_deg : F
  pub hfov_deg : F

-- What a field, or an entry, is read as: a value, an error, or an exception of the JSON library.
pub data Reading (A : Type 0) : Type 0 where
  got : A → Reading A
  wrong : String → Reading A
  broken : Reading A

abbrev pub on_got : {A B : Type 0} → Reading A → (A → Reading B) → Reading B
on_got (got a) k = k a
on_got (wrong e) k = wrong e
on_got broken k = broken

module _ {A : Type 0} where
  abbrev pub taken : Option A → Reading A
  taken none = broken
  taken (some a) = got a

  abbrev pub prepend : A → Reading (List A) → Reading (List A)
  prepend a (got rest) = got (a ∷ rest)
  prepend a (wrong e) = wrong e
  prepend a broken = broken

module _ {F : Type 0} where
  unfoldable pub to_json : CameraEntry F → Json F
  unfolding assign_all
  to_json e = assign_all null (
      ("image_width", integer e.image_width)
      ∷ ("image_height", integer e.image_height)
      ∷ ("camera_matrix", array (of_items (map float e.camera_matrix)))
      ∷ ("distortion", array (of_items (map float e.distortion)))
      ∷ ("mount_yaw_deg", float e.mount_yaw_deg)
      ∷ ("mount_pitch_deg", float e.mount_pitch_deg)
      ∷ ("mount_roll_deg", float e.mount_roll_deg)
      ∷ ("hfov_deg", float e.hfov_deg)
      ∷ [])

module _ {F : Type 0} ⦃o : FloatOps F⦄ where
  abbrev zero_f : F
  zero_f = o.of_int (pos 0)

  abbrev pub default_entry : CameraEntry F
  default_entry = record {
    image_width = pos 0;
    image_height = pos 0;
    camera_matrix =
        zero_f ∷ zero_f ∷ zero_f ∷ zero_f ∷ zero_f ∷ zero_f ∷ zero_f ∷ zero_f ∷ zero_f ∷ [];
    distortion = [];
    mount_yaw_deg = zero_f;
    mount_pitch_deg = o.of_int (negsuc 89);
    mount_roll_deg = zero_f;
    hfov_deg = zero_f;
  }

  abbrev pub fx : CameraEntry F → F
  fx e = nth zero_f e.camera_matrix 0

  abbrev pub fy : CameraEntry F → F
  fy e = nth zero_f e.camera_matrix 4

  unfoldable pub valid_intrinsics : CameraEntry F → Bool
  valid_intrinsics e =
      ltb_ℤ (pos 0) e.image_width
      && (ltb_ℤ (pos 0) e.image_height && (o.lt zero_f (fx e) && o.lt zero_f (fy e)))

  -- A field that is missing keeps the value.
  unfoldable pub read_int : Option (Json F) → ℤ → Reading ℤ
  unfolding as_int
  read_int none held = got held
  read_int (some v) held = taken (as_int v)

  unfoldable pub read_double : Option (Json F) → F → Reading F
  unfolding as_double
  read_double none held = got held
  read_double (some v) held = taken (as_double v)

  unfoldable pub doubles : List (Json F) → Reading (List F)
  unfolding as_double
  doubles [] = got []
  doubles (v ∷ vs) = on_got (taken (as_double v)) (λ x. prepend x (doubles vs))

  unfoldable pub read_matrix : Option (Json F) → List F → Reading (List F)
  unfolding doubles
  read_matrix none held = got held
  read_matrix (some v) held =
      if is_array v && (length (elements v) == 9)
      then doubles (elements v)
      else wrong "camera_matrix must be a 9-element array (row-major 3x3)"

  unfoldable pub read_distortion : Option (Json F) → List F → Reading (List F)
  unfolding doubles
  read_distortion none held = got held
  read_distortion (some v) held =
      if is_array v then doubles (elements v) else wrong "distortion must be an array"

  unfoldable pub read_entry_fields : Json F → CameraEntry F → Reading (CameraEntry F)
  unfolding read_int read_double read_matrix read_distortion
  read_entry_fields j e = on_got (read_int (at "image_width" j) e.image_width) (λ width.
      on_got (read_int (at "image_height" j) e.image_height) (λ height.
        on_got (read_matrix (at "camera_matrix" j) e.camera_matrix) (λ matrix.
          on_got (read_distortion (at "distortion" j) e.distortion) (λ distortion.
            on_got (read_double (at "mount_yaw_deg" j) e.mount_yaw_deg) (λ yaw.
              on_got (read_double (at "mount_pitch_deg" j) e.mount_pitch_deg) (λ pitch.
                on_got (read_double (at "mount_roll_deg" j) e.mount_roll_deg) (λ roll.
                  on_got (read_double (at "hfov_deg" j) e.hfov_deg) (λ hfov. got (record {
                    image_width = width;
                    image_height = height;
                    camera_matrix = matrix;
                    distortion = distortion;
                    mount_yaw_deg = yaw;
                    mount_pitch_deg = pitch;
                    mount_roll_deg = roll;
                    hfov_deg = hfov;
                  })))))))))

  unfoldable pub from_json : Json F → CameraEntry F → Reading (CameraEntry F)
  unfolding read_entry_fields
  from_json j e = if is_object j then read_entry_fields j e else wrong "entry is not an object"
