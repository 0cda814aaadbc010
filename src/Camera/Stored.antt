-- ===== src/Camera/Stored.antt =====
-- What an update of a registry file leaves to be loaded: helpers/camera_registry.hpp.
use droneengage_common.Common.{
  ◌≡◌, refl, sym, ap, ◌∙◌, Bool, true, false, Option, none, some, String, str_eq, [], if◌then◌else◌,
  if_rule, Bool-cases, inl, inr,
}
use droneengage_common.Common.Assoc.{Assoc, lookup, insert, lookup-insert}
use droneengage_common.Common.Order.{IsSorted, insert-IsSorted}
use droneengage_common.Common.Float.{FloatOps}
use droneengage_common.Json.{Json, Members, members, of_members, object, reread}
use droneengage_common.Config.Merge.{members-of_members, at-put}
use droneengage_common.Camera.Entry.{CameraEntry, valid_intrinsics, to_json}
use droneengage_common.Camera.Registry.{
  keep, Loaded, LoadError, judge, verdict, load_entries, RegistryFile, entries_in, document,
  cameras_of, object_of, members_or_none, base_of, updated_document, update_entry, load,
  load_cameras, finish_load, loaded, load_throws, LoadResult, Registry, find, Disk,
}
use droneengage_common.Camera.Fields.{IsStorable, from_json-to_json}
use droneengage_common.Camera.Written.{
  reread_all, reread_object, members-reread_members, reread_all-insert, cameras_of-reread,
  members_or_none-reread_object,
}
use droneengage_common.Camera.Loop.{
  is_throw, any_throws, after, thrown-load_entries, any_throws-insert, lookup-load_entries,
}

module _ {F : Type 0} ⦃o : FloatOps F⦄ where
  -- The entries of a file are what is parsed of what would be written of them.
  entries-reread :
      (is_finite : F → Bool) (file : RegistryFile F)
      → reread is_finite (document file) ≡ document file
      → reread_all is_finite (entries_in file) ≡ entries_in file
  entries-reread is_finite file read =
      sym (members_or_none-reread_object is_finite (cameras_of (document file)))
      ∙ ap members_or_none (sym (cameras_of-reread is_finite (document file)))
      ∙ ap (λ j. members_or_none (cameras_of j)) read

  load-updated_document :
      (is_finite : F → Bool) (id : String) (e : CameraEntry F) (file : RegistryFile F)
      (path : String)
      → reread is_finite (document file) ≡ document file
      → load (some (some (reread is_finite (updated_document id e file)))) path
        ≡ finish_load
            (load_entries (insert id (reread is_finite (to_json e)) (entries_in file)) none [])
            path
  unfolding load updated_document load_cameras
  load-updated_document is_finite id e file path read =
      let base = base_of (document file) (cameras_of (document file)) in
      let stored = insert id (to_json e) (entries_in file) in
      ap (λ ms. load_cameras ms path) (cameras_of-reread is_finite (updated_document id e file))
      ∙ ap (λ v. load_cameras (reread_object is_finite (object_of v)) path)
          (at-put "cameras" "cameras" (object (of_members stored)) base)
      ∙ ap (λ ms. finish_load (load_entries ms none []) path)
          (members-reread_members is_finite (of_members stored)
            ∙ ap (reread_all is_finite) (members-of_members stored)
            ∙ reread_all-insert is_finite id (to_json e) (entries_in file)
            ∙ ap (insert id (reread is_finite (to_json e))) (entries-reread is_finite file read))

  find-finish_load :
      (other : String) (l : Loaded F) (path : String)
      → find other (finish_load l path).1 ≡ lookup other l.cameras
  unfolding find finish_load
  find-finish_load other l path =
      if_rule (λ (r : LoadResult × Registry F). lookup other r.1.cameras ≡ lookup other l.cameras)
        l.thrown _ _ (λ e. refl) (λ e. refl)

  find-load :
      (other : String) (file : RegistryFile F) (path : String)
      → find other (load file path).1
        ≡ lookup other (load_entries (entries_in file) none []).cameras
  unfolding load load_cameras
  find-load other none path = unfold find load_entries lookup in refl
  find-load other (some none) path = unfold find load_entries lookup in refl
  find-load other (some (some j)) path = by_cameras (cameras_of j)
    where
      by_cameras :
          (ms : Option (Members F))
          → find other (load_cameras ms path).1
            ≡ lookup other (load_entries (members_or_none ms) none []).cameras
      by_cameras none = unfold find load_entries lookup in refl
      by_cameras (some ms) = find-finish_load other (load_entries (members ms) none []) path

  result-finish_load :
      (l : Loaded F) (path : String) → l.thrown ≡ false → (finish_load l path).0 ≡ loaded l.error
  unfolding finish_load
  result-finish_load l path h = rw h refl

  -- A file whose entries load without an exception.
  quiet-load :
      (file : RegistryFile F) (path : String)
      → ((load file path).0 ≡ load_throws → ⊥)
      → any_throws (entries_in file) ≡ false
  unfolding load load_cameras finish_load lookup
  quiet-load none path h = refl
  quiet-load (some none) path h = refl
  quiet-load (some (some j)) path h = by_cameras (cameras_of j) h
    where
      by_cameras :
          (ms : Option (Members F))
          → ((load_cameras ms path).0 ≡ load_throws → ⊥)
          → any_throws (members_or_none ms) ≡ false
      by_cameras none h = refl
      by_cameras (some ms) h = elim (Bool-cases (any_throws (members ms))) [
        | inl e ↦
            let thrown : (load_entries (members ms) none []).thrown ≡ true =
              thrown-load_entries (members ms) none [] ∙ e in
            absurd (h (rw thrown refl))
        | inr e ↦ e
      ]

  updated :
      (is_finite : F → Bool) (disk : Disk) (id : String) (e : CameraEntry F) (file : RegistryFile F)
      → str_eq id "" ≡ false
      → disk.writes ≡ true
      → disk.renames ≡ true
      → (update_entry is_finite disk id e file).1
        ≡ some (some (reread is_finite (updated_document id e file)))
  updated is_finite disk id e file named writes renames =
      unfold update_entry in rw (named, writes, renames) refl

  verdict-to_json :
      (is_finite : F → Bool) (e : CameraEntry F)
      → IsStorable is_finite e
      → valid_intrinsics e ≡ true
      → verdict (reread is_finite (to_json e)) ≡ keep e
  unfolding verdict judge
  verdict-to_json is_finite e storable valid =
      ap judge (from_json-to_json is_finite e storable) ∙ rw valid refl

  -- The entry under an id, in entries to which one was added.
  after-insert :
      (id other : String) (e : CameraEntry F) (j : Json F) (entries : Assoc (Json F))
      → verdict j ≡ keep e
      → after (lookup other (insert id j entries)) none
        ≡ (if str_eq id other then some e else after (lookup other entries) none)
  after-insert id other e j entries h =
      ap (λ x. after x none) (lookup-insert id other j entries)
      ∙ elim (Bool-cases (str_eq id other)) [ inl k ↦ rw (k, h) refl | inr k ↦ rw k refl ]

  -- An entry that fits the file, has finite numbers only and valid intrinsics, put in a file under an id that is not
  -- empty, is what is found under the id when the file is parsed and loaded again, and what is found under every other
  -- id is what was found before. This is if the file is written and put in place, the old file's value is one that is
  -- parsed of a text, its cameras stand in order, and it loads without an exception. A file that is missing, or is no
  -- registry, is replaced.
  pub find-update_entry :
      (is_finite : F → Bool) (disk : Disk) (id other path : String) (e : CameraEntry F)
      (file : RegistryFile F)
      → str_eq id "" ≡ false
      → disk.writes ≡ true
      → disk.renames ≡ true
      → IsStorable is_finite e
      → valid_intrinsics e ≡ true
      → reread is_finite (document file) ≡ document file
      → IsSorted (entries_in file)
      → ((load file path).0 ≡ load_throws → ⊥)
      → (find other (load (update_entry is_finite disk id e file).1 path).1
          ≡ (if str_eq id other then some e else find other (load file path).1))
        × ((error : Option LoadError) × ((load (update_entry is_finite disk id e file).1 path).0
              ≡ loaded error))
  unfolding lookup
  find-update_entry is_finite disk id other path e file named writes renames storable valid read
        sorted quiet =
      let j = reread is_finite (to_json e) in
      let stored = insert id j (entries_in file) in
      let run = load_entries stored none [] in
      let is_kept = verdict-to_json is_finite e storable valid in
      let old_quiet = quiet-load file path quiet in
      let new_quiet = any_throws-insert id j (entries_in file) (ap is_throw is_kept) old_quiet in
      let reload : load (update_entry is_finite disk id e file).1 path ≡ finish_load run path =
        ap (λ f. load f path) (updated is_finite disk id e file named writes renames)
        ∙ load-updated_document is_finite id e file path read in
      let in_new =
        lookup-load_entries stored (insert-IsSorted id j (entries_in file) sorted) new_quiet other
          none [] in
      let in_old =
        find-load other file path
        ∙ lookup-load_entries (entries_in file) sorted old_quiet other none [] in
      (
        ap (λ r. find other r.1) reload
            ∙ find-finish_load other run path
            ∙ in_new
            ∙ after-insert id other e j (entries_in file) is_kept
            ∙ ap (λ x. if str_eq id other then some e else x) (sym in_old),
        (
          run.error,
          ap (λ r. r.0) reload
              ∙ result-finish_load run path (thrown-load_entries stored none [] ∙ new_quiet),
        ),
      )
