-- ===== src/Camera/Fields.antt =====
-- An entry of a registry as it is written and read: helpers/camera_registry.hpp.
use droneengage_common.Common.{
  ◌≡◌, refl, ap, ◌∙◌, List, [], ◌∷◌, map, arith, length, All, Bool, true, some,
}
use droneengage_common.Common.Assoc.{lookup, insert}
use droneengage_common.Common.Int.{ℤ, pos, negsuc, to_int32}
use droneengage_common.Common.Float.{FloatOps}
use droneengage_common.Json.{
  Json, items, of_items, float, cons, integer, reread, reread_items, as_int, as_double, get_int,
  get_double,
}
use droneengage_common.Config.Merge.{assign_all}
use droneengage_common.Camera.Entry.{
  CameraEntry, got, default_entry, from_json, to_json, doubles, read_entry_fields, read_int,
  read_double, read_matrix, read_distortion,
}

module _ {F : Type 0} ⦃o : FloatOps F⦄ where
  items-of_items : (vs : List (Json F)) → items (of_items vs) ≡ vs
  items-of_items [] = refl
  items-of_items (v ∷ vs) = ap (◌∷◌ v) (items-of_items vs)

  doubles-float : (xs : List F) → doubles (map float xs) ≡ got xs
  unfolding doubles as_double get_double
  doubles-float [] = refl
  doubles-float (x ∷ xs) = rw (doubles-float xs) refl

  -- What a registry file can hold: nine numbers in the matrix, widths that fit an `int`, and finite numbers.
  pub record IsStorable (is_finite : F → Bool) (e : CameraEntry F) : Type 0 where
    pub square : length e.camera_matrix ≡ 9
    pub width : to_int32 e.image_width ≡ e.image_width
    pub height : to_int32 e.image_height ≡ e.image_height
    pub matrix : All (λ x. is_finite x ≡ true) e.camera_matrix
    pub lens : All (λ x. is_finite x ≡ true) e.distortion
    pub yaw : is_finite e.mount_yaw_deg ≡ true
    pub pitch : is_finite e.mount_pitch_deg ≡ true
    pub roll : is_finite e.mount_roll_deg ≡ true
    pub hfov : is_finite e.hfov_deg ≡ true

  length-map : (xs : List F) → length (map float xs) ≡ length xs
  length-map [] = refl
  length-map (x ∷ xs) = omega (arith, length-map xs)

  module _ (is_finite : F → Bool) where
    reread_items-float :
        (xs : List F)
        → All (λ x. is_finite x ≡ true) xs
        → reread_items is_finite (of_items (map float xs)) ≡ of_items (map float xs)
    unfolding reread
    reread_items-float [] h = refl
    reread_items-float (x ∷ xs) (h, hs) = rw h (ap (cons (float x)) (reread_items-float xs hs))

    read_int-reread :
        (n held : ℤ) → read_int (some (reread is_finite (integer n))) held ≡ got (to_int32 n)
    unfolding read_int reread as_int get_int
    read_int-reread (pos n) held = refl
    read_int-reread (negsuc n) held = refl

    -- An entry that was written is read back as it was.
    pub from_json-to_json :
        (e : CameraEntry F)
        → IsStorable is_finite e
        → from_json (reread is_finite (to_json e)) default_entry ≡ got e
    unfolding from_json read_entry_fields to_json assign_all insert lookup reread read_double
        as_double get_double read_matrix read_distortion
    from_json-to_json e h =
        rw
          (
            h.yaw,
            h.pitch,
            h.roll,
            h.hfov,
            reread_items-float e.camera_matrix h.matrix,
            reread_items-float e.distortion h.lens,
            items-of_items (map float e.camera_matrix),
            length-map e.camera_matrix ∙ h.square,
            doubles-float e.camera_matrix,
            items-of_items (map float e.distortion),
            doubles-float e.distortion,
            read_int-reread e.image_width (pos 0),
            read_int-reread e.image_height (pos 0),
          )
          (λ i. got (record e { image_width = h.width i; image_height = h.height i }))
