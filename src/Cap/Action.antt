-- ===== src/Cap/Action.antt =====
-- `capFindAction`, `capCanonicalAction` and `capMatchEventPattern` of de_databus/cap_schema.cpp.
-- `none` is an exception of the JSON library, and `some none` the null pointer.
use Prim.Native.String.{◌++◌ as str_append}
use droneengage_common.Common.{
  Bool, true, false, not, Option, none, some, String, str_eq, List, [], ◌∷◌, if◌then◌else◌, ◌||◌,
}
use droneengage_common.Common.Assoc.{Assoc, lookup}
use droneengage_common.Json.{Json, string, at, fields, elements, is_array, is_object}

module _ {F : Type 0} where
  abbrev as_text : String → Option (Json F) → Option String
  as_text d none = some d
  as_text d (some (string s)) = some s
  as_text d (some _) = none

  -- `j.value(key, d)` for an object `j` and a text `d`.
  unfoldable pub text_or : String → String → Json F → Option String
  text_or key d j = as_text d (at key j)

  -- `advert["actions"]`, where it is an object.
  unfoldable pub actions_of : Json F → Option (Assoc (Json F))
  actions_of advert = elim (at "actions" advert) [
    | none ↦ none
    | some actions ↦ if is_object actions then some (fields actions) else none
  ]

  -- The first action whose "deprecated_alias" is the name, with its key.
  unfoldable pub by_alias : String → Assoc (Json F) → Option (Option (String × Json F))
  unfolding text_or
  by_alias act [] = some none
  by_alias act ((k, a) ∷ rest) =
      let found = by_alias act rest in
      if is_object a
      then elim (text_or "deprecated_alias" "" a) [
        | none ↦ none
        | some alias ↦ if str_eq alias act then some (some (k, a)) else found
      ]
      else found

  abbrev pub second_of : Option (Option (String × Json F)) → Option (Option (Json F))
  second_of none = none
  second_of (some none) = some none
  second_of (some (some (k, a))) = some (some a)

  abbrev pub first_of : Option (Option (String × Json F)) → Option String
  first_of none = none
  first_of (some none) = some ""
  first_of (some (some (k, a))) = some k

  unfoldable pub find_action : Json F → String → Option (Option (Json F))
  unfolding actions_of by_alias lookup
  find_action advert act = elim (actions_of advert) [
    | none ↦ some none
    | some actions ↦ elim (lookup act actions) [
      | some a ↦ some (some a)
      | none ↦ second_of (by_alias act actions)
    ]
  ]

  unfoldable pub canonical_action : Json F → String → Option String
  unfolding actions_of by_alias lookup
  canonical_action advert act = elim (actions_of advert) [
    | none ↦ some ""
    | some actions ↦ elim (lookup act actions) [
      | some a ↦ some act
      | none ↦ first_of (by_alias act actions)
    ]
  ]

  unfoldable pub names_class : String → List (Json F) → Bool
  names_class cls [] = false
  names_class cls (string s ∷ cs) = str_eq s cls || names_class cls cs
  names_class cls (_ ∷ cs) = names_class cls cs

  -- Whether the pattern admits the resource: its class is among those of "res", where the advert
  -- lists resources.
  unfoldable pub admits : Json F → String → Json F → Bool
  unfolding names_class lookup
  admits advert key pat = elim (at "resources" advert) [
    | none ↦ true
    | some resources ↦ elim (at key resources) [
      | some (string cls) ↦ elim (at "res" pat) [
        | none ↦ true
        | some res ↦ if is_array res then names_class cls (elements res) else true
      ]
      | _ ↦ false
    ]
  ]

  unfoldable pub match_event_pattern : Json F → String → String → String → Option (Option (Json F))
  unfolding admits text_or lookup
  match_event_pattern advert key verb kind = elim (at "event_patterns" advert) [
    | none ↦ some none
    | some patterns ↦ elim (at (str_append "*." verb) patterns) [
      | none ↦ some none
      | some pat ↦ if not (is_object pat) then some none else elim (text_or "kind" "fact" pat) [
        | none ↦ none
        | some k ↦
            if str_eq k kind
            then (if admits advert key pat then some (some pat) else some none)
            else some none
      ]
    ]
  ]
