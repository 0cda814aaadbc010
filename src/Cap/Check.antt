-- ===== src/Cap/Check.antt =====
-- `capCheckValue` and `capCheckParams` of de_databus/cap_schema.cpp. `none` is an exception of the
-- JSON library, and `some` the errors that were appended.
use Prim.Native.String.{◌++◌ as str_append}
use droneengage_common.Common.{
  ℕ, zero, suc, Bool, true, false, not, ◌&&◌, ◌||◌, Option, none, some, String, str_eq, List, [],
  ◌∷◌, ◌++◌, if◌then◌else◌,
}
use droneengage_common.Common.Assoc.{Assoc, contains, insert}
use droneengage_common.Common.Float.{FloatOps}
use droneengage_common.Common.Text.{to_string}
use droneengage_common.Json.{
  Json, null, boolean, array, object, nil, items, members, at, fields, elements, is_null, is_number,
  is_object, get_double,
}
use droneengage_common.Cap.Outcome.{
  CapError, Problem, no_usable_type, not_allowed_value, missing_required, unknown_param,
  schema_not_object, expected, below_min, above_max,
}
use droneengage_common.Cap.Schema.{type_list, matched_type, same_scalar}

abbrev pub Errors : Type 0 → Type 0
Errors F = List (CapError F)

abbrev pub Checker : Type 0 → Type 0
Checker F = Json F → Json F → String → Option (Errors F)

-- The errors of a call and the members of `filled`.
abbrev pub Checked : Type 0 → Type 0
Checked F = Option (Errors F × Assoc (Json F))

module _ {F : Type 0} where
  abbrev pub error_at : String → Problem F → CapError F
  error_at path p = record { path = path; problem = p }

  -- One list of errors after the other.
  abbrev pub also : Option (Errors F) → Option (Errors F) → Option (Errors F)
  also (some es) (some fs) = some (es ++ fs)
  also _ _ = none

  abbrev as_flag : Option (Json F) → Option Bool
  as_flag none = some false
  as_flag (some (boolean b)) = some b
  as_flag (some _) = none

  -- `param.value("optional", false)`, which throws where `param` is not an object or the member is
  -- not a boolean.
  unfoldable pub is_optional : Json F → Option Bool
  is_optional param = if is_object param then as_flag (at "optional" param) else none

  -- What a loop over a JSON value goes through.
  abbrev pub each : Option (Json F) → List (Json F)
  each none = []
  each (some null) = []
  each (some (array vs)) = items vs
  each (some (object ms)) = values (members ms)
    where
      values : Assoc (Json F) → List (Json F)
      values [] = []
      values ((k, v) ∷ ms) = v ∷ values ms
  each (some v) = v ∷ []

  -- A loop over the members of `param["fields"]`; `it.key()` throws in a value that has no keys.
  abbrev keyed : Json F → Option (Assoc (Json F))
  keyed null = some []
  keyed (array nil) = some []
  keyed (object ms) = some (members ms)
  keyed _ = none

  unfoldable pub check_items : Checker F → Json F → String → ℕ → List (Json F) → Option (Errors F)
  check_items check item path i [] = some []
  check_items check item path i (v ∷ vs) =
      also (check item v (str_append path (str_append "[" (str_append (to_string i) "]"))))
        (check_items check item path (suc i) vs)

  unfoldable pub check_absent : Json F → String → Problem F → Option (Errors F)
  unfolding is_optional
  check_absent param path p = elim (is_optional param) [
    | none ↦ none
    | some true ↦ some []
    | some false ↦ elim (at "default" param) [
      | none ↦ some (error_at path p ∷ [])
      | some d ↦ some []
    ]
  ]

  unfoldable pub check_fields : Checker F → Json F → String → Assoc (Json F) → Option (Errors F)
  unfolding check_absent
  check_fields check value path [] = some []
  check_fields check value path ((k, param) ∷ ms) =
      let inner = str_append path (str_append "." k) in
      also
        (elim (at k value) [
          | some v ↦ check param v inner
          | none ↦ check_absent param inner missing_required
        ])
        (check_fields check value path ms)

  unfoldable pub check_nested :
      Option (Checker F) → String → Json F → Json F → String → Option (Errors F)
  unfolding check_items check_fields
  check_nested none t param value path = some []
  check_nested (some check) t param value path =
      also
        (if str_eq t "array"
          then elim (at "items" param) [
            | none ↦ some []
            | some item ↦ check_items check item path 0 (elements value)
          ]
          else some [])
        (if str_eq t "object"
          then elim (at "fields" param) [
            | none ↦ some []
            | some fs ↦ elim (keyed fs) [ none ↦ none | some ms ↦ check_fields check value path ms ]
          ]
          else some [])

module _ {F : Type 0} ⦃o : FloatOps F⦄ where
  unfoldable pub check_min : Option (Json F) → Json F → String → Errors F
  check_min none value path = []
  check_min (some m) value path =
      if is_number m && o.lt (get_double value) (get_double m)
      then error_at path (below_min m) ∷ []
      else []

  unfoldable pub check_max : Option (Json F) → Json F → String → Errors F
  check_max none value path = []
  check_max (some m) value path =
      if is_number m && o.lt (get_double m) (get_double value)
      then error_at path (above_max m) ∷ []
      else []

  unfoldable pub is_allowed : Json F → List (Json F) → Bool
  is_allowed value [] = false
  is_allowed value (v ∷ vs) = same_scalar v value || is_allowed value vs

  -- The limits of the type that the value matched.
  unfoldable pub check_limits : String → Json F → Json F → String → Errors F
  unfolding check_min check_max is_allowed
  check_limits t param value path =
      (if str_eq t "int" || str_eq t "number"
        then check_min (at "min" param) value path ++ check_max (at "max" param) value path
        else [])
      ++ (if str_eq t "enum" && not (is_allowed value (each (at "values" param)))
          then error_at path not_allowed_value ∷ []
          else [])

  unfoldable pub check_one : Option (Checker F) → Json F → Json F → String → Option (Errors F)
  unfolding check_limits check_nested type_list matched_type
  check_one inner param value path = elim (type_list param) [
    | none ↦ some (error_at path no_usable_type ∷ [])
    | some types ↦ elim (matched_type value types) [
      | none ↦ some (error_at path (expected types) ∷ [])
      | some t ↦
          also (some (check_limits t param value path)) (check_nested inner t param value path)
    ]
  ]

  -- `capCheckValue` at depth `4 - left`.
  unfoldable pub check_value : ℕ → Json F → Json F → String → Option (Errors F)
  unfolding check_one
  check_value zero param value path = check_one none param value path
  check_value (suc left) param value path = check_one (some (check_value left)) param value path

  -- The keys of `with` that the schema does not have.
  unfoldable pub unknown_keys : Assoc (Json F) → Assoc (Json F) → Errors F
  unfolding contains
  unknown_keys schema [] = []
  unknown_keys schema ((k, v) ∷ ms) =
      let rest = unknown_keys schema ms in
      if contains k schema then rest else error_at k unknown_param ∷ rest

  abbrev pub before : Option (Errors F) → Checked F → Checked F
  before (some es) (some (fs, filled)) = some (es ++ fs, filled)
  before _ _ = none

  unfoldable pub check_each : Json F → Assoc (Json F) → Assoc (Json F) → Checked F
  unfolding check_value check_absent insert
  check_each with filled [] = some ([], filled)
  check_each with filled ((name, param) ∷ ps) = elim (at name with) [
    | some v ↦ before (check_value 4 param v name) (check_each with filled ps)
    | none ↦ elim (at "default" param) [
      | some d ↦ check_each with (insert name d filled) ps
      | none ↦ before (check_absent param name missing_required) (check_each with filled ps)
    ]
  ]

  unfoldable pub check_params : Json F → Json F → Checked F
  unfolding check_each unknown_keys
  check_params schema with =
      if is_null schema
      then some ([], fields with)
      else if not (is_object schema)
      then some (error_at "" schema_not_object ∷ [], fields with)
      else before
          (some (
            (if is_null with || is_object with
              then []
              else error_at "with" (expected ("object" ∷ [])) ∷ [])
            ++ unknown_keys (fields schema) (fields with)))
          (check_each with (fields with) (fields schema))
