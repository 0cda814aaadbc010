-- ===== src/Camera/Overlay.antt =====
-- The camera that an overlay is drawn on: helpers/overlay_target.hpp.
use droneengage_common.Common.{
  arith, ap, ◌∙◌, ◌≡◌, refl, not, Option, some, String, str_eq, List, [], ◌∷◌, map, if◌then◌else◌,
  Bool-cases, inl, inr,
}
use droneengage_common.Common.Assoc.{lookup}
use droneengage_common.Json.{
  Json, null, boolean, integer, unsigned, float, string, array, object, at, is_object,
}

-- A value that is a text and is not empty is returned, and otherwise the code goes on.
unfoldable pub named_or : String → String → String
named_or value rest = if not (str_eq value "") then value else rest

abbrev pub device_keys : List String
device_keys =
    "output_video_device_name" ∷ "output_video_device" ∷ "source_video_device_name"
    ∷ "source_video_device" ∷ []

-- The first text of a list that is not empty.
abbrev pub first_text : List String → String
first_text [] = ""
first_text (s ∷ ss) = if str_eq s "" then first_text ss else s

named_or-first_text :
    (s : String) (ss : List String) → named_or s (first_text ss) ≡ first_text (s ∷ ss)
unfolding named_or
named_or-first_text s ss = elim (Bool-cases (str_eq s "")) [ inl e ↦ rw e refl | inr e ↦ rw e refl ]

-- The choice between the override, the two ids, and what the devices give.
choice :
    (target cam_id own devices : String)
    → (let module_cam_id = if str_eq cam_id "" then own else cam_id in
        named_or target (if not (str_eq module_cam_id "") then module_cam_id else devices))
      ≡ (if str_eq target ""
          then (if str_eq cam_id "" then (if str_eq own "" then devices else own) else cam_id)
          else target)
unfolding named_or
choice target cam_id own devices = ground arith

no_section :
    (cam_id : String) → (if not (str_eq cam_id "") then cam_id else "") ≡ first_text (cam_id ∷ [])
no_section cam_id = ground arith

module _ {F : Type 0} where
  -- A value that is a text.
  abbrev text_of : Option (Json F) → String
  text_of (some (string s)) = s
  text_of _ = ""

  abbrev pub text_at : String → Json F → String
  text_at k j = text_of (at k j)

  unfoldable pub device_target : List String → Json F → String
  unfolding named_or
  device_target [] config = ""
  device_target (key ∷ keys) config = named_or (text_at key config) (device_target keys config)

  unfoldable pub resolve_overlay_target : Json F → String → String
  unfolding named_or device_target
  resolve_overlay_target config cam_id =
      let module_cam_id =
        if is_object config
        then (if str_eq cam_id "" then text_at "cam_id" config else cam_id)
        else cam_id in
      let onward =
        if not (str_eq module_cam_id "")
        then module_cam_id
        else if not (is_object config)
        then ""
        else device_target device_keys config in
      if is_object config then named_or (text_at "overlay_target" config) onward else onward

  device_target-first_text :
      (keys : List String) (config : Json F)
      → device_target keys config ≡ first_text (map (λ k. text_at k config) keys)
  unfolding device_target
  device_target-first_text [] config = refl
  device_target-first_text (key ∷ keys) config =
      ap (named_or (text_at key config)) (device_target-first_text keys config)
      ∙ named_or-first_text (text_at key config) (map (λ k. text_at k config) keys)

  -- The places where a target may stand, in their order.
  abbrev pub candidates : Json F → String → List String
  candidates config cam_id =
      text_at "overlay_target" config
      ∷ cam_id
      ∷ text_at "cam_id" config
      ∷ map (λ k. text_at k config) device_keys

  -- The target is the first text that is not empty of: the override of the section, the id that the caller gives, the
  -- id of the section, and the names of the output and source devices. It is empty if there is none, or if the section
  -- is no object and the caller gives no id.
  pub resolve_overlay_target-first_text :
      (config : Json F) (cam_id : String)
      → resolve_overlay_target config cam_id ≡ first_text (candidates config cam_id)
  unfolding resolve_overlay_target lookup
  resolve_overlay_target-first_text (object ms) cam_id =
      let config = object ms in
      let devices = map (λ k. text_at k config) device_keys in
      ap
        (λ d.
          let module_cam_id = if str_eq cam_id "" then text_at "cam_id" config else cam_id in
          named_or (text_at "overlay_target" config)
            (if not (str_eq module_cam_id "") then module_cam_id else d))
        (device_target-first_text device_keys config)
      ∙ choice (text_at "overlay_target" config) cam_id (text_at "cam_id" config)
          (first_text devices)
  resolve_overlay_target-first_text null cam_id = no_section cam_id
  resolve_overlay_target-first_text (boolean b) cam_id = no_section cam_id
  resolve_overlay_target-first_text (integer n) cam_id = no_section cam_id
  resolve_overlay_target-first_text (unsigned n) cam_id = no_section cam_id
  resolve_overlay_target-first_text (float x) cam_id = no_section cam_id
  resolve_overlay_target-first_text (string s) cam_id = no_section cam_id
  resolve_overlay_target-first_text (array vs) cam_id = no_section cam_id
