-- ===== src/Cap/Limits.antt =====
-- What an accepted value, and an accepted default, satisfy: de_databus/cap_schema.cpp.
use droneengage_common.Common.{
  ℕ, zero, suc, ◌≡◌, refl, Bool, true, false, not, ◌&&◌, ◌||◌, Option, none, some, String, str_eq,
  List, [], ◌∷◌, arith, eq_iff, eq_refl, Bool-cases, Option-cases, inl, inr,
}
use droneengage_common.Common.Assoc.{Assoc, lookup, contains}
use droneengage_common.Common.Float.{FloatOps}
use droneengage_common.Json.{Json, object, end, member, at, is_number, is_object, get_double}
use droneengage_common.Cap.Outcome.{
  bad_type, no_usable_type, expected, bad_default, Outcome, ok, err, thrown, ◌>>◌, require,
  not_an_object,
}
use droneengage_common.Cap.Schema.{elem, type_list, value_matches, matched_type}
use droneengage_common.Cap.Check.{
  error_at, Errors, Checker, also, each, check_min, check_max, is_allowed, check_limits,
  check_nested, check_one, check_value, check_params,
}
use droneengage_common.Cap.Validate.{
  Validator, front, validate_rules, check_default, validate_body, validate_param, check_types,
  where_present,
}
use droneengage_common.Cap.Accepted.{check_params-IsAccepted, IsSettledAt}

abbrev pub is_numeric : String → Bool
is_numeric t = str_eq t "int" || str_eq t "number"

module _ {F : Type 0} ⦃o : FloatOps F⦄ where
  abbrev pub is_below : Json F → Option (Json F) → Bool
  is_below value none = false
  is_below value (some m) = is_number m && o.lt (get_double value) (get_double m)

  abbrev pub is_over : Json F → Option (Json F) → Bool
  is_over value none = false
  is_over value (some m) = is_number m && o.lt (get_double m) (get_double value)

  -- The value has one of the declared types and keeps the limits of that type.
  pub record IsWithin (param value : Json F) : Type 0 where
    pub types : List String
    pub type : String
    pub declared : type_list param ≡ some types
    pub listed : elem type types ≡ true
    pub matches : value_matches value type ≡ true
    pub above : (is_numeric type && is_below value (at "min" param)) ≡ false
    pub below : (is_numeric type && is_over value (at "max" param)) ≡ false
    pub chosen : (str_eq type "enum" && not (is_allowed value (each (at "values" param)))) ≡ false

  matched_type-listed :
      (value : Json F) (types : List String) (t : String)
      → matched_type value types ≡ some t
      → (elem t types ≡ true) × (value_matches value t ≡ true)
  unfolding matched_type
  matched_type-listed value [] t h = absurd (cc h)
  matched_type-listed value (u ∷ us) t h = elim (Bool-cases (value_matches value u)) [
    | inl e ↦ (ground (arith, eq_refl t, eq_iff t u), ground arith)
    | inr e ↦ (
      ground (arith, matched_type-listed value us t),
      ground (arith, matched_type-listed value us t),
    )
  ]

  IsWithin-of :
      (param value : Json F) (path : String) (types : List String) (t : String)
      → type_list param ≡ some types
      → matched_type value types ≡ some t
      → check_limits t param value path ≡ []
      → IsWithin param value
  unfolding check_limits check_min check_max
  IsWithin-of param value path types t e g h = record {
    types = types;
    type = t;
    declared = e;
    listed = (matched_type-listed value types t g).0;
    matches = (matched_type-listed value types t g).1;
    above = elim (Option-cases (at "min" param)) [
      | inl n ↦ ground (arith, h, n)
      | inr (m, n) ↦ ground (arith, h, n)
    ];
    below = elim (Option-cases (at "max" param)) [
      | inl n ↦ ground (arith, h, n)
      | inr (m, n) ↦ ground (arith, h, n)
    ];
    chosen = ground (arith, h);
  }

  also-inv : (es : Errors F) (rest : Option (Errors F)) → also (some es) rest ≡ some [] → es ≡ []
  also-inv [] rest h = refl
  also-inv (e ∷ es) none h = absurd (cc h)
  also-inv (e ∷ es) (some fs) h = absurd (cc h)

  check_one-IsWithin :
      (inner : Option (Checker F)) (param value : Json F) (path : String)
      → check_one inner param value path ≡ some []
      → IsWithin param value
  unfolding check_one
  check_one-IsWithin inner param value path h = elim (Option-cases (type_list param)) [
    | inl e ↦ absurd (cc (h, untyped e))
    | inr (types, e) ↦ elim (Option-cases (matched_type value types)) [
      | inl g ↦ absurd (cc (h, unmatched types e g))
      | inr (t, g) ↦ IsWithin-of param value path types t e g (
          also-inv (check_limits t param value path) (check_nested inner t param value path)
            (cc (h, matched types t e g)))
    ]
  ]
    where
      untyped :
          type_list param ≡ none
          → check_one inner param value path ≡ some (error_at path no_usable_type ∷ [])
      untyped e = rw (e, check_one) refl

      unmatched :
          (types : List String)
          → type_list param ≡ some types
          → matched_type value types ≡ none
          → check_one inner param value path ≡ some (error_at path (expected types) ∷ [])
      unmatched types e g = rw (e, check_one, g) refl

      matched :
          (types : List String) (t : String)
          → type_list param ≡ some types
          → matched_type value types ≡ some t
          → check_one inner param value path
            ≡ also (some (check_limits t param value path)) (check_nested inner t param value path)
      matched types t e g = rw (e, check_one, g) refl

  -- A value without errors has one of the declared types; where that is a number, it is not below a
  -- numeric "min" and not above a numeric "max", and where it is an enum, it is one of the values.
  pub check_value-IsWithin :
      (left : ℕ) (param value : Json F) (path : String)
      → check_value left param value path ≡ some []
      → IsWithin param value
  unfolding check_value
  check_value-IsWithin zero param value path h = check_one-IsWithin none param value path h
  check_value-IsWithin (suc left) param value path h =
      check_one-IsWithin (some (check_value left)) param value path h

  then-inv :
      (m : Outcome F (Unit {0})) (k : Outcome F (Unit {0}))
      → (m >> k) ≡ ok tt
      → (m ≡ ok tt) × (k ≡ ok tt)
  then-inv (ok tt) k h = (refl, h)
  then-inv (err e) k h = absurd (cc h)
  then-inv thrown k h = absurd (cc h)

  -- The default that passes is the value of a call without errors.
  check_default-inv :
      (param d : Json F) (path : String)
      → (out : Option (Errors F × Assoc (Json F)))
      → check_params (object (member path param end)) (object (member path d end)) ≡ out
      → check_default param path d ≡ ok tt
      → (filled : Assoc (Json F)) × (out ≡ some ([], filled))
  unfolding check_default
  check_default-inv param d path none e h = absurd (cc (h, fails e))
    where
      fails :
          check_params (object (member path param end)) (object (member path d end)) ≡ none
          → check_default param path d ≡ thrown
      fails e = rw (e, check_default) refl
  check_default-inv param d path (some ([], filled)) e h = (filled, refl)
  check_default-inv param d path (some (p ∷ ps, filled)) e h = absurd (cc (h, fails e))
    where
      fails :
          check_params (object (member path param end)) (object (member path d end))
            ≡ some (p ∷ ps, filled)
          → check_default param path d
            ≡ err (record { path = path; problem = bad_default p.path p.problem })
      fails e = rw (e, check_default) refl

  default_passes :
      (param d : Json F) (path : String)
      → check_default param path d ≡ ok tt
      → check_value 4 param d path ≡ some []
  unfolding lookup contains
  default_passes param d path h =
      let out = check_default-inv param d path _ refl h in
      found (
        (check_params-IsAccepted (member path param end) (object (member path d end)) out.0
            (refl, tt) out.1).settled
          path)
    where
      found :
          IsSettledAt path (lookup path ((path, param) ∷ [])) (at path (object (member path d end)))
          → check_value 4 param d path ≡ some []
      found s = rw (eq_refl path) at s

  body-default :
      (validate : Validator F) (t : String) (param d : Json F) (path : String)
      → validate_body validate t param path ≡ ok tt
      → at "default" param ≡ some d
      → check_default param path d ≡ ok tt
  unfolding validate_body
  body-default validate t param d path h e = cc (
    (then-inv (validate_rules validate t param path)
        (where_present (at "default" param) (check_default param path)) h).1,
    present e,
  )
    where
      present :
          at "default" param ≡ some d
          → where_present (at "default" param) (check_default param path)
            ≡ check_default param path d
      present e = rw e refl

  validate_param-body :
      (left : ℕ) (param : Json F) (path : String) (types : List String)
      → type_list param ≡ some types
      → validate_param (suc left) param path ≡ (
          require (is_object param) path not_an_object
          >> (check_types path types
              >> validate_body (validate_param left) (front types) param path))
  unfolding validate_param
  validate_param-body left param path types e = rw (e, validate_param) refl

  untyped-fails :
      (left : ℕ) (param : Json F) (path : String)
      → type_list param ≡ none
      → validate_param (suc left) param path ≡ (
          require (is_object param) path not_an_object
          >> err (record { path = path; problem = bad_type }))
  unfolding validate_param
  untyped-fails left param path e = rw (e, validate_param) refl

  -- The default of a validated parameter is a value that passes the parameter's own check.
  pub validate_param-default :
      (left : ℕ) (param d : Json F) (path : String)
      → validate_param left param path ≡ ok tt
      → at "default" param ≡ some d
      → check_value 4 param d path ≡ some []
  unfolding validate_param
  validate_param-default zero param d path h e = absurd (cc h)
  validate_param-default (suc left) param d path h e = elim (Option-cases (type_list param)) [
    | inl g ↦ absurd (
        cc
          (then-inv (require (is_object param) path not_an_object)
            (err (record { path = path; problem = bad_type }))
            (rw⁻¹ (untyped-fails left param path g) h)).1)
    | inr (types, g) ↦
        let body = validate_body (validate_param left) (front types) param path in
        let rest =
          (then-inv (require (is_object param) path not_an_object) (check_types path types >> body)
            (rw⁻¹ (validate_param-body left param path types g) h)).1 in
        default_passes param d path (
          body-default (validate_param left) (front types) param d path
            (then-inv (check_types path types) body rest).1 e)
  ]
