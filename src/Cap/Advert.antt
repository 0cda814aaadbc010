-- ===== src/Cap/Advert.antt =====
-- `capValidateAdvert` of de_databus/cap_schema.cpp, a function for each member of an advert.
use Prim.Native.String.{◌++◌ as str_append}
use droneengage_common.Common.{
  ℕ, Bool, true, false, ◌&&◌, ◌||◌, Option, none, some, String, List, [], ◌∷◌, ◌==◌,
}
use droneengage_common.Common.Assoc.{Assoc}
use droneengage_common.Common.Int.{pos}
use droneengage_common.Common.Float.{FloatOps}
use droneengage_common.Json.{
  Json, at, fields, elements, is_array, is_number, is_object, is_string, get_double,
}
use droneengage_common.Cap.Outcome.{Outcome, ok, ◌>>◌, require, not_an_object, bad_name, bad_member}
use droneengage_common.Cap.Schema.{is_valid_name, is_valid_codes, codes}
use droneengage_common.Cap.Validate.{
  validate_param_map, is_text, is_name, string_or_absent, where_present,
}

-- The key is "*.<verb>" with a name as its verb.
abbrev is_pattern_codes : List ℕ → Bool
is_pattern_codes (c ∷ d ∷ cs) = c == b'*' && (d == b'.' && is_valid_codes cs)
is_pattern_codes _ = false

module _ {F : Type 0} where
  abbrev claim_or_absent : Option (Json F) → Bool
  claim_or_absent none = true
  claim_or_absent (some v) = is_text "ns" (some v) || is_text "action" (some v)

  abbrev kind_or_absent : Option (Json F) → Bool
  kind_or_absent none = true
  kind_or_absent (some v) = is_text "fact" (some v) || is_text "command" (some v)

  unfoldable pub all_names : List (Json F) → Bool
  all_names [] = true
  all_names (v ∷ vs) = is_name (some v) && all_names vs

  -- The class names of the resources.
  unfoldable pub validate_resources : Assoc (Json F) → Outcome F (Unit {0})
  validate_resources [] = ok tt
  validate_resources ((k, v) ∷ ms) =
      require (is_valid_name k) "resources" (bad_name k)
      >> require (is_name (some v)) (str_append "resources." k) (bad_member "class")
      >> validate_resources ms

module _ {F : Type 0} ⦃o : FloatOps F⦄ where
  abbrev positive_or_absent : Option (Json F) → Bool
  positive_or_absent none = true
  positive_or_absent (some v) = is_number v && o.lt (o.of_int (pos 0)) (get_double v)

  unfoldable pub validate_action : Json F → String → Outcome F (Unit {0})
  unfolding validate_param_map
  validate_action act path =
      require (is_object act) path not_an_object
      >> require (string_or_absent (at "desc" act)) path (bad_member "desc")
      >> require (positive_or_absent (at "timeout_s" act)) path (bad_member "timeout_s")
      >> require (string_or_absent (at "deprecated_alias" act)) path (bad_member "deprecated_alias")
      >> require (claim_or_absent (at "claim" act)) path (bad_member "claim")
      >> where_present (at "params" act)
          (λ params. validate_param_map params (str_append path ".params"))

  unfoldable pub validate_actions : Assoc (Json F) → Outcome F (Unit {0})
  unfolding validate_action
  validate_actions [] = ok tt
  validate_actions ((k, act) ∷ ms) =
      require (is_valid_name k) (str_append "actions." k) (bad_name k)
      >> validate_action act (str_append "actions." k)
      >> validate_actions ms

  unfoldable pub validate_events : Assoc (Json F) → Outcome F (Unit {0})
  unfolding validate_param_map
  validate_events [] = ok tt
  validate_events ((k, ev) ∷ ms) =
      require (is_valid_name k) (str_append "events." k) (bad_name k)
      >> require (is_object ev) (str_append "events." k) not_an_object
      >> where_present (at "payload" ev)
          (λ payload. validate_param_map payload (str_append (str_append "events." k) ".payload"))
      >> validate_events ms

  unfoldable pub validate_pattern : Json F → String → Outcome F (Unit {0})
  unfolding validate_param_map all_names
  validate_pattern pat path =
      require (is_object pat) path not_an_object
      >> require (kind_or_absent (at "kind" pat)) path (bad_member "kind")
      >> where_present (at "res" pat) (λ res.
        require (is_array res) path (bad_member "res")
        >> require (all_names (elements res)) path (bad_member "res"))
      >> require (string_or_absent (at "desc" pat)) path (bad_member "desc")
      >> where_present (at "payload" pat)
          (λ payload. validate_param_map payload (str_append path ".payload"))

  unfoldable pub validate_patterns : Assoc (Json F) → Outcome F (Unit {0})
  unfolding validate_pattern
  validate_patterns [] = ok tt
  validate_patterns ((k, pat) ∷ ms) =
      require (is_pattern_codes (codes k)) (str_append "event_patterns." k) (bad_name k)
      >> validate_pattern pat (str_append "event_patterns." k)
      >> validate_patterns ms

  abbrev members_of :
      String → Json F → (Assoc (Json F) → Outcome F (Unit {0})) → Outcome F (Unit {0})
  members_of name v validate = require (is_object v) name not_an_object >> validate (fields v)

  unfoldable pub validate_advert : Json F → Outcome F (Unit {0})
  unfolding validate_actions validate_events validate_patterns validate_resources
  validate_advert advert =
      require (is_object advert) "advert" not_an_object
      >> require (is_text "de.cap/1" (at "schema" advert)) "" (bad_member "schema")
      >> require (is_name (at "ns" advert)) "" (bad_member "ns")
      >> require (is_given (at "module" advert)) "" (bad_member "module")
      >> require (is_given (at "ver" advert)) "" (bad_member "ver")
      >> where_present (at "actions" advert) (λ v. members_of "'actions'" v validate_actions)
      >> where_present (at "events" advert) (λ v. members_of "'events'" v validate_events)
      >> where_present (at "state" advert) (λ v. validate_param_map v "state")
      >> where_present (at "resources" advert) (λ v. members_of "'resources'" v validate_resources)
      >> where_present (at "event_patterns" advert)
          (λ v. members_of "'event_patterns'" v validate_patterns)
    where
      is_given : Option (Json F) → Bool
      is_given none = false
      is_given (some v) = is_string v
