-- ===== src/Cap/Tests.antt =====
-- The theorems on capability adverts at a concrete advert, with `double` as numbers of three decimal
-- places.
use droneengage_common.Common.{◌≡◌, refl, some, [], ◌∷◌}
use droneengage_common.Common.Assoc.{Assoc, lookup, contains, insert}
use droneengage_common.Common.Int.{ℤ}
use droneengage_common.Common.Float.{FloatOps, milli}
use droneengage_common.Json.{
  Json, object, string, unsigned, Members, end, member, members, at, get_double,
}
use droneengage_common.Cap.Outcome.{ok}
use droneengage_common.Cap.Schema.{type_list, value_matches, matched_type}
use droneengage_common.Cap.Check.{
  check_params, check_value, check_each, check_one, check_limits, check_min, check_max,
  check_nested, unknown_keys,
}
use droneengage_common.Cap.Validate.{
  validate_param, validate_body, validate_rules, check_default, check_types, known_types,
}
use droneengage_common.Cap.Accepted.{IsAccepted, IsDistinct, check_params-IsAccepted}
use droneengage_common.Cap.Limits.{IsWithin, check_value-IsWithin, validate_param-default}
use droneengage_common.Cap.Action.{actions_of, find_action, by_alias, text_or}
use droneengage_common.Cap.Names.{IsNamed, find_action-canonical_action}

instance abbrev decimals : FloatOps ℤ
decimals = milli

-- {"default": 20, "max": 100, "min": 1, "type": "int"}
abbrev zoom : Json ℤ
zoom = object (
    member "default" (unsigned 20)
      (member "max" (unsigned 100) (member "min" (unsigned 1) (member "type" (string "int") end))))

-- {"mode": {"type": "string"}, "zoom": ...}
abbrev schema : Members ℤ
schema = member "mode" (object (member "type" (string "string") end)) (member "zoom" zoom end)

abbrev given : Json ℤ
given = object (member "mode" (string "auto") end)

abbrev filled : Assoc (Json ℤ)
filled = ("mode", string "auto") ∷ ("zoom", unsigned 20) ∷ []

accepted : check_params (object schema) given ≡ some ([], filled)
unfolding check_params check_each check_value check_one unknown_keys contains lookup insert
    type_list matched_type value_matches check_limits check_nested
accepted = refl

schema-IsDistinct : IsDistinct (members schema)
unfolding contains lookup
schema-IsDistinct = (refl, (refl, tt))

check_params-IsAccepted_example : IsAccepted (members schema) given filled
check_params-IsAccepted_example =
    check_params-IsAccepted schema given filled schema-IsDistinct accepted

in_range : check_value 4 zoom (unsigned 40) "zoom" ≡ some []
unfolding check_value check_one type_list matched_type value_matches check_limits check_min
    check_max check_nested get_double lookup
in_range = refl

check_value-IsWithin_example : IsWithin zoom (unsigned 40)
check_value-IsWithin_example = check_value-IsWithin 4 zoom (unsigned 40) "zoom" in_range

validated : validate_param 5 zoom "zoom" ≡ ok tt
unfolding validate_param validate_body validate_rules check_types known_types check_default
    check_params check_each check_value check_one unknown_keys contains lookup insert type_list
    matched_type value_matches check_limits check_min check_max check_nested get_double
validated = refl

has_default : at "default" zoom ≡ some (unsigned 20)
unfolding lookup
has_default = refl

validate_param-default_example : check_value 4 zoom (unsigned 20) "zoom" ≡ some []
validate_param-default_example =
    validate_param-default 5 zoom (unsigned 20) "zoom" validated has_default

-- "shoot" answers to its old name "fire" too.
abbrev shoot : Json ℤ
shoot = object (member "deprecated_alias" (string "fire") end)

abbrev actions : Assoc (Json ℤ)
actions = ("focus", object end) ∷ ("shoot", shoot) ∷ []

abbrev advert : Json ℤ
advert =
    object (member "actions" (object (member "focus" (object end) (member "shoot" shoot end))) end)

lists_actions : actions_of advert ≡ some actions
unfolding actions_of lookup
lists_actions = refl

actions-IsDistinct : IsDistinct actions
unfolding contains lookup
actions-IsDistinct = (refl, (refl, tt))

fire_found : find_action advert "fire" ≡ some (some shoot)
unfolding find_action actions_of by_alias text_or lookup
fire_found = refl

find_action-canonical_action_example : IsNamed advert actions "fire" shoot
find_action-canonical_action_example =
    find_action-canonical_action advert actions "fire" shoot lists_actions actions-IsDistinct
      fire_found
