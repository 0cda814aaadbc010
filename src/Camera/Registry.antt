-- ===== src/Camera/Registry.antt =====
-- `CCameraRegistry` and `cameraRegistryUpdateEntry` of helpers/camera_registry.hpp. A file is the JSON value that its text
-- is parsed to: `none` where it cannot be opened, and `some none` where the text is no JSON. A file that is written holds
-- what is parsed of its text (`reread`), so that a number that is not finite is null there.
use droneengage_common.Common.{
  Bool, true, false, not, Option, none, some, String, str_eq, [], ◌∷◌, if◌then◌else◌,
}
use droneengage_common.Common.Assoc.{Assoc, lookup, insert}
use droneengage_common.Common.Float.{FloatOps}
use droneengage_common.Json.{Json, Members, null, object, end, at, members, of_members, reread}
use droneengage_common.Config.Merge.{put}
use droneengage_common.Camera.Entry.{
  CameraEntry, Reading, got, wrong, broken, default_entry, from_json, valid_intrinsics, to_json,
}

abbrev pub RegistryFile : Type 0 → Type 0
RegistryFile F = Option (Option (Json F))

-- The texts of the errors, as what they are put together from.
pub data LoadError : Type 0 where
  cannot_open not_json no_cameras : LoadError
  bad_entry : String → String → LoadError
  invalid_intrinsics : String → LoadError

pub record Registry (F : Type 0) : Type 0 where
  pub cameras : Assoc (CameraEntry F)
  pub path : String

-- What is done with one entry.
pub data Verdict (F : Type 0) : Type 0 where
  keep : CameraEntry F → Verdict F
  skip : (String → LoadError) → Verdict F
  throw : Verdict F

-- The loop of `load`: whether it ended by an exception, the first error, and the cameras.
pub record Loaded (F : Type 0) : Type 0 where
  pub thrown : Bool
  pub error : Option LoadError
  pub cameras : Assoc (CameraEntry F)

-- What `load` ends with.
pub data LoadResult : Type 0 where
  loaded : Option LoadError → LoadResult
  not_loaded : LoadError → LoadResult
  load_throws : LoadResult

abbrev first_error : Option LoadError → LoadError → Option LoadError
first_error none e = some e
first_error (some d) e = some d

-- What the disk does when a file is replaced.
pub record Disk : Type 0 where
  pub writes : Bool
  pub backs_up : Bool
  pub renames : Bool

module _ {F : Type 0} where
  unfoldable pub find : String → Registry F → Option (CameraEntry F)
  unfolding lookup
  find id r = lookup id r.cameras

  -- The object "cameras" of a document.
  abbrev pub object_of : Option (Json F) → Option (Members F)
  object_of (some (object ms)) = some ms
  object_of _ = none

  abbrev pub cameras_of : Json F → Option (Members F)
  cameras_of j = object_of (at "cameras" j)

  abbrev pub document : RegistryFile F → Json F
  document none = null
  document (some none) = null
  document (some (some j)) = j

  -- The document that is changed: the one in the file, if it has cameras, and otherwise a new one.
  abbrev pub base_of : Json F → Option (Members F) → Json F
  base_of j none = put "cameras" (object end) null
  base_of j (some ms) = j

  abbrev pub members_or_none : Option (Members F) → Assoc (Json F)
  members_or_none none = []
  members_or_none (some ms) = members ms

  -- The entries of a file that has cameras.
  abbrev pub entries_in : RegistryFile F → Assoc (Json F)
  entries_in file = members_or_none (cameras_of (document file))

  unfoldable pub updated_document : String → CameraEntry F → RegistryFile F → Json F
  unfolding insert to_json
  updated_document id entry file =
      let base = base_of (document file) (cameras_of (document file)) in
      put "cameras" (object (of_members (insert id (to_json entry) (entries_in file)))) base

  -- Whether the update is done, and the file after it. The backup moves the file away.
  unfoldable pub update_entry :
      (F → Bool) → Disk → String → CameraEntry F → RegistryFile F → Bool × RegistryFile F
  unfolding updated_document reread
  update_entry is_finite disk id entry file =
      if str_eq id ""
      then (false, file)
      else if not disk.writes
      then (false, file)
      else if not disk.renames
      then (false, if disk.backs_up then none else file)
      else (true, some (some (reread is_finite (updated_document id entry file))))

module _ {F : Type 0} ⦃o : FloatOps F⦄ where
  unfoldable pub judge : Reading (CameraEntry F) → Verdict F
  unfolding valid_intrinsics
  judge (got e) = if valid_intrinsics e then keep e else skip invalid_intrinsics
  judge (wrong text) = skip (λ id. bad_entry id text)
  judge broken = throw

  unfoldable pub verdict : Json F → Verdict F
  unfolding judge from_json
  verdict j = judge (from_json j default_entry)

  -- A round of the loop, given the rest of the loop.
  unfoldable pub take_verdict :
      Verdict F
      → String
      → (Option LoadError → Assoc (CameraEntry F) → Loaded F)
      → Option LoadError
      → Assoc (CameraEntry F)
      → Loaded F
  unfolding insert
  take_verdict (keep e) id more error cameras = more error (insert id e cameras)
  take_verdict (skip problem) id more error cameras = more (first_error error (problem id)) cameras
  take_verdict throw id more error cameras = record {
    thrown = true;
    error = error;
    cameras = cameras;
  }

  unfoldable pub load_entries : Assoc (Json F) → Option LoadError → Assoc (CameraEntry F) → Loaded F
  unfolding verdict take_verdict
  load_entries [] error cameras = record { thrown = false; error = error; cameras = cameras }
  load_entries ((id, j) ∷ entries) error cameras =
      take_verdict (verdict j) id (load_entries entries) error cameras

  unfoldable pub finish_load : Loaded F → String → LoadResult × Registry F
  finish_load l path =
      if l.thrown
      then (load_throws, record { cameras = l.cameras; path = "" })
      else (loaded l.error, record { cameras = l.cameras; path = path })

  abbrev empty_registry : Registry F
  empty_registry = record { cameras = []; path = "" }

  unfoldable pub load_cameras : Option (Members F) → String → LoadResult × Registry F
  unfolding load_entries finish_load
  load_cameras none path = (not_loaded no_cameras, empty_registry)
  load_cameras (some ms) path = finish_load (load_entries (members ms) none []) path

  -- `load`, which forgets what the registry had.
  unfoldable pub load : RegistryFile F → String → LoadResult × Registry F
  unfolding load_cameras
  load none path = (not_loaded cannot_open, empty_registry)
  load (some none) path = (not_loaded not_json, empty_registry)
  load (some (some j)) path = load_cameras (cameras_of j) path
