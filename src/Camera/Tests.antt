-- ===== src/Camera/Tests.antt =====
-- The registry of helpers/camera_registry.hpp at concrete files, with `double` as numbers of three decimal places.
use droneengage_common.Common.{
  ◌≡◌, refl, Bool, true, Option, some, str_eq, [], ◌∷◌, if◌then◌else◌, arith,
}
use droneengage_common.Common.Int.{ℤ, pos, negsuc, to_int32}
use droneengage_common.Common.Assoc.{lookup}
use droneengage_common.Common.Order.{IsSorted}
use droneengage_common.Common.Float.{FloatOps, milli}
use droneengage_common.Json.{reread, Json, string, object, member, end}
use droneengage_common.Camera.Entry.{CameraEntry, default_entry, valid_intrinsics}
use droneengage_common.Camera.Registry.{
  RegistryFile, Disk, LoadError, loaded, load_throws, bad_entry, document, entries_in, find, load,
  update_entry,
}
use droneengage_common.Camera.Fields.{IsStorable}
use droneengage_common.Camera.Overlay.{
  resolve_overlay_target, candidates, first_text, resolve_overlay_target-first_text,
}
use droneengage_common.Camera.Stored.{find-update_entry}

instance abbrev decimals : FloatOps ℤ
decimals = milli

abbrev front_camera : CameraEntry ℤ
front_camera = record default_entry {
  image_width = pos 640;
  image_height = pos 480;
  camera_matrix =
      pos 600000
      ∷ pos 0
      ∷ pos 320000
      ∷ pos 0
      ∷ pos 600000
      ∷ pos 240000
      ∷ pos 0
      ∷ pos 0
      ∷ pos 1000
      ∷ [];
  distortion = pos 10 ∷ negsuc 4 ∷ [];
}

-- A number of three decimal places is finite.
abbrev all_finite : ℤ → Bool
all_finite x = true

front_camera-IsStorable : IsStorable all_finite front_camera
unfolding to_int32
front_camera-IsStorable = record {
  square = refl;
  width = refl;
  height = refl;
  matrix = (refl, (refl, (refl, (refl, (refl, (refl, (refl, (refl, (refl, tt)))))))));
  lens = (refl, (refl, tt));
  yaw = refl;
  pitch = refl;
  roll = refl;
  hfov = refl;
}

abbrev disk : Disk
disk = record { writes = true; backs_up = true; renames = true }

-- A registry with one entry, which is no object, and a member of another kind.
abbrev old_file : RegistryFile ℤ
old_file = some (
    some (
      object (
        member "cameras" (object (member "rear" (string "none") end))
          (member "unit" (string "u1") end))))

load_old_file :
    (load old_file "cameras.json").0 ≡ loaded (some (bad_entry "rear" "entry is not an object"))
unfolding load lookup
load_old_file = refl

old_file_loads : (load old_file "cameras.json").0 ≡ load_throws → ⊥
unfolding load lookup
old_file_loads h = loaded_not_thrown h
  where
    loaded_not_thrown : {e : Option LoadError} → loaded e ≡ load_throws → ⊥
    loaded_not_thrown h = absurd (ground (arith, h))

abbrev wrong_type : RegistryFile ℤ
wrong_type = some (
    some (
      object (
        member "cameras"
          (object (member "rear" (object (member "hfov_deg" (string "wide") end)) end)) end)))

-- A field of another type makes `load` throw.
load_wrong_type : (load wrong_type "cameras.json").0 ≡ load_throws
unfolding load lookup
load_wrong_type = refl

old_file-IsSorted : IsSorted (entries_in old_file)
unfolding lookup
old_file-IsSorted = (tt, tt)

old_file_read : reread all_finite (document old_file) ≡ document old_file
unfolding reread
old_file_read = refl

find-update_entry_example :
    (find "front"
        (load (update_entry all_finite disk "front" front_camera old_file).1 "cameras.json").1
      ≡ (if str_eq "front" "front"
          then some front_camera
          else find "front" (load old_file "cameras.json").1))
    × ((error : Option LoadError) × ((load
            (update_entry all_finite disk "front" front_camera old_file).1
            "cameras.json").0
          ≡ loaded error))
find-update_entry_example =
    find-update_entry all_finite disk "front" "front" "cameras.json" front_camera old_file refl refl
      refl front_camera-IsStorable (unfold valid_intrinsics in refl) old_file_read old_file-IsSorted
      old_file_loads

-- The section of a module that writes to a video device.
abbrev section : Json ℤ
section =
    object (
      member "output_video_device" (string "/dev/video4") (member "overlay_target" (string "") end))

section_target : resolve_overlay_target section "" ≡ "/dev/video4"
unfolding resolve_overlay_target lookup
section_target = refl

resolve_overlay_target-first_text_example :
    resolve_overlay_target section "" ≡ first_text (candidates section "")
resolve_overlay_target-first_text_example = resolve_overlay_target-first_text section ""
