-- ===== src/Cap/Validate.antt =====
-- `capValidateParam`, `capValidateParamMap` and `capValidateAdvert` of de_databus/cap_schema.cpp.
use Prim.Native.String.{◌++◌ as str_append}
use droneengage_common.Common.{
  ℕ, zero, suc, Bool, true, false, not, ◌&&◌, ◌||◌, Option, none, some, String, str_eq, List, [],
  ◌∷◌, if◌then◌else◌,
}
use droneengage_common.Common.Assoc.{Assoc}
use droneengage_common.Common.Float.{FloatOps}
use droneengage_common.Json.{
  Json, object, string, end, member, at, fields, elements, is_array, is_number, is_object,
  is_string, get_double,
}
use droneengage_common.Cap.Outcome.{
  Outcome, ok, err, thrown, ◌>>◌, require, too_deep, not_an_object, bad_type, type_list_not_scalar,
  no_enum_values, fields_not_object, unknown_type, bad_name, min_not_number, max_not_number,
  min_above_max, bad_default,
}
use droneengage_common.Cap.Schema.{type_list, scalar_types, elem, is_valid_name}
use droneengage_common.Cap.Check.{check_params}

abbrev pub Validator : Type 0 → Type 0
Validator F = Json F → String → Outcome F (Unit {0})

abbrev pub is_plain : String → Bool
is_plain t = not (str_eq t "enum" || (str_eq t "geo" || (str_eq t "array" || str_eq t "object")))

abbrev pub front : List String → String
front [] = ""
front (t ∷ ts) = t

module _ {F : Type 0} where
  unfoldable pub known_types : String → List String → Outcome F (Unit {0})
  known_types path [] = ok tt
  known_types path (t ∷ ts) =
      require (elem t scalar_types) path (unknown_type t) >> known_types path ts

  unfoldable pub plain_types : String → List String → Outcome F (Unit {0})
  plain_types path [] = ok tt
  plain_types path (t ∷ ts) = require (is_plain t) path type_list_not_scalar >> plain_types path ts

  -- The rules for a list of types.
  unfoldable pub check_types : String → List String → Outcome F (Unit {0})
  unfolding known_types plain_types
  check_types path [] = ok tt
  check_types path (t ∷ []) = known_types path (t ∷ [])
  check_types path (t ∷ u ∷ ts) = known_types path (t ∷ u ∷ ts) >> plain_types path (t ∷ u ∷ ts)

  abbrev pub is_non_empty : Option (Json F) → Bool
  is_non_empty none = false
  is_non_empty (some v) = is_array v && (elim (elements v) [ [] ↦ false | _ ↦ true ])

  abbrev pub number_or_absent : Option (Json F) → Bool
  number_or_absent none = true
  number_or_absent (some v) = is_number v

  abbrev pub string_or_absent : Option (Json F) → Bool
  string_or_absent none = true
  string_or_absent (some v) = is_string v

  abbrev pub is_text : String → Option (Json F) → Bool
  is_text t (some (string s)) = str_eq s t
  is_text t _ = false

  abbrev pub is_name : Option (Json F) → Bool
  is_name (some (string s)) = is_valid_name s
  is_name _ = false

  -- A check of a member that need not be there.
  abbrev pub where_present :
      Option (Json F) → (Json F → Outcome F (Unit {0})) → Outcome F (Unit {0})
  where_present none f = ok tt
  where_present (some v) f = f v

  unfoldable pub validate_fields : Validator F → String → Assoc (Json F) → Outcome F (Unit {0})
  validate_fields validate path [] = ok tt
  validate_fields validate path ((k, v) ∷ ms) =
      require (is_valid_name k) path (bad_name k)
      >> validate v (str_append path (str_append "." k))
      >> validate_fields validate path ms

module _ {F : Type 0} ⦃o : FloatOps F⦄ where
  abbrev pub is_ordered : Option (Json F) → Option (Json F) → Bool
  is_ordered (some m) (some n) = not (o.lt (get_double n) (get_double m))
  is_ordered _ _ = true

  unfoldable pub check_default : Json F → String → Json F → Outcome F (Unit {0})
  unfolding check_params
  check_default param path d =
      elim (check_params (object (member path param end)) (object (member path d end))) [
        | none ↦ thrown
        | some ([], filled) ↦ ok tt
        | some (e ∷ es, filled) ↦
            err (record { path = path; problem = bad_default e.path e.problem })
      ]

  -- The rules of a parameter whose types are known, but for its default; its nested parameters are
  -- validated by `validate`.
  unfoldable pub validate_rules : Validator F → String → Json F → String → Outcome F (Unit {0})
  unfolding validate_fields
  validate_rules validate t param path =
      require (not (str_eq t "enum") || is_non_empty (at "values" param)) path no_enum_values
      >> (if str_eq t "array"
          then where_present (at "items" param) (λ item. validate item (str_append path "[]"))
          else ok tt)
      >> (if str_eq t "object"
          then where_present (at "fields" param) (λ fs.
            require (is_object fs) path fields_not_object
            >> validate_fields validate path (fields fs))
          else ok tt)
      >> require (number_or_absent (at "min" param)) path min_not_number
      >> require (number_or_absent (at "max" param)) path max_not_number
      >> require (is_ordered (at "min" param) (at "max" param)) path min_above_max

  unfoldable pub validate_body : Validator F → String → Json F → String → Outcome F (Unit {0})
  unfolding validate_rules check_default
  validate_body validate t param path =
      validate_rules validate t param path
      >> where_present (at "default" param) (check_default param path)

  -- `capValidateParam` at depth `5 - left`; at depth 5 it gives up.
  unfoldable pub validate_param : ℕ → Json F → String → Outcome F (Unit {0})
  unfolding validate_body check_types type_list
  validate_param zero param path = err (record { path = path; problem = too_deep })
  validate_param (suc left) param path =
      require (is_object param) path not_an_object >> elim (type_list param) [
        | none ↦ err (record { path = path; problem = bad_type })
        | some types ↦
            check_types path types >> validate_body (validate_param left) (front types) param path
      ]

  unfoldable pub validate_param_map : Json F → String → Outcome F (Unit {0})
  unfolding validate_fields validate_param
  validate_param_map map path =
      require (is_object map) path not_an_object
      >> validate_fields (validate_param 5) path (fields map)
