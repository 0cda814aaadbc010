-- ===== src/Cap/Schema.antt =====
-- `capTypeList`, `capScalarTypes`, `capIsValidName` and `capValueMatches` of cap_schema.cpp.
use Prim.Native.Char.{code}
use droneengage_common.Common.{
  ℕ, ◌-◌, ◌^◌, Bool, true, false, not, ◌&&◌, ◌||◌, Option, none, some, String, str_eq, List, [],
  ◌∷◌, leb, ltb, ◌==◌, if◌then◌else◌, length,
}
use droneengage_common.Common.Int.{ℤ, pos, negsuc, eqb_ℤ}
use droneengage_common.Common.Float.{FloatOps}
use droneengage_common.Json.{
  Json, boolean, integer, unsigned, float, string, array, Items, nil, cons, at, elements,
  is_boolean, is_integer, is_number, is_string, is_array, is_object,
}

abbrev pub elem : String → List String → Bool
elem s [] = false
elem s (t ∷ ts) = str_eq s t || elem s ts

abbrev pub scalar_types : List String
scalar_types = "bool" ∷ "int" ∷ "number" ∷ "string" ∷ "enum" ∷ "geo" ∷ "array" ∷ "object" ∷ []

-- The code points of a text. A name is ASCII: a byte of any other code point fails the test as the
-- code point does.
abbrev pub codes : String → List ℕ
codes String.[] = []
codes (String.◌∷◌ c s) = code c ∷ codes s

abbrev pub cap_name_max_len : ℕ
cap_name_max_len = 32

abbrev pub is_letter : ℕ → Bool
is_letter c = leb b'a' c && leb c b'z'

abbrev pub is_name_char : ℕ → Bool
is_name_char c = is_letter c || ((leb b'0' c && leb c b'9') || c == b'_')

unfoldable pub all_name_chars : List ℕ → Bool
all_name_chars [] = true
all_name_chars (c ∷ cs) = is_name_char c && all_name_chars cs

unfoldable pub is_valid_codes : List ℕ → Bool
unfolding all_name_chars
is_valid_codes [] = false
is_valid_codes (c ∷ cs) =
    not (ltb cap_name_max_len (length (c ∷ cs))) && (is_letter c && all_name_chars (c ∷ cs))

unfoldable pub is_valid_name : String → Bool
unfolding is_valid_codes
is_valid_name name = is_valid_codes (codes name)

module _ {F : Type 0} where
  -- The strings of an array of strings, if it holds nothing else.
  unfoldable pub all_strings : Items F → Option (List String)
  all_strings nil = some []
  all_strings (cons (string s) vs) = elim (all_strings vs) [ none ↦ none | some ts ↦ some (s ∷ ts) ]
  all_strings (cons _ vs) = none

  unfoldable pub types_of : Option (Json F) → Option (List String)
  unfolding all_strings
  types_of (some (string s)) = some (s ∷ [])
  types_of (some (array (cons v vs))) = all_strings (cons v vs)
  types_of _ = none

  -- `capTypeList`; it returns no empty list.
  unfoldable pub type_list : Json F → Option (List String)
  unfolding types_of
  type_list param = types_of (at "type" param)

  abbrev three_numbers : List (Json F) → Bool
  three_numbers (a ∷ b ∷ c ∷ []) = is_number a && (is_number b && is_number c)
  three_numbers _ = false

  unfoldable pub value_matches : Json F → String → Bool
  value_matches value type =
      if str_eq type "bool"
      then is_boolean value
      else if str_eq type "int"
      then is_integer value
      else if str_eq type "number"
      then is_number value
      else if str_eq type "string"
      then is_string value
      else if str_eq type "geo"
      then is_array value && three_numbers (elements value)
      else if str_eq type "enum"
      then is_string value || (is_number value || is_boolean value)
      else if str_eq type "array"
      then is_array value
      else if str_eq type "object"
      then is_object value
      else false

  -- The first of the declared types that the value has.
  unfoldable pub matched_type : Json F → List String → Option String
  unfolding value_matches
  matched_type value [] = none
  matched_type value (t ∷ ts) = if value_matches value t then some t else matched_type value ts

-- An unsigned number as `int64_t`.
abbrev to_int64 : ℕ → ℤ
to_int64 n = if ltb n (2 ^ 63) then pos n else negsuc (2 ^ 64 - n - 1)

module _ {F : Type 0} ⦃o : FloatOps F⦄ where
  abbrev same_float : F → F → Bool
  same_float x y = o.le x y && o.le y x

  -- `v == value` for a value that is a string, a number or a boolean.
  unfoldable pub same_scalar : Json F → Json F → Bool
  same_scalar (boolean true) (boolean b) = b
  same_scalar (boolean false) (boolean b) = not b
  same_scalar (string s) (string t) = str_eq s t
  same_scalar (integer m) (integer n) = eqb_ℤ m n
  same_scalar (integer m) (unsigned n) = eqb_ℤ m (to_int64 n)
  same_scalar (integer m) (float y) = same_float (o.of_int m) y
  same_scalar (unsigned m) (integer n) = eqb_ℤ (to_int64 m) n
  same_scalar (unsigned m) (unsigned n) = m == n
  same_scalar (unsigned m) (float y) = same_float (o.of_int (pos m)) y
  same_scalar (float x) (integer n) = same_float x (o.of_int n)
  same_scalar (float x) (unsigned n) = same_float x (o.of_int (pos n))
  same_scalar (float x) (float y) = same_float x y
  same_scalar _ _ = false
