-- ===== src/Json.antt =====
-- The values of `nlohmann::json` (helpers/json_nlohmann.hpp, a copy of a third-party library) as the
-- program uses them. An object is a list of members in key order. Floating-point numbers have the
-- abstract type `F`.
use droneengage_common.Common.{
  ℕ, Bool, true, false, Option, none, some, String, List, [], ◌∷◌, if◌then◌else◌,
}
use droneengage_common.Common.Assoc.{Assoc, lookup}
use droneengage_common.Common.Int.{ℤ, pos, negsuc, to_int32}
use droneengage_common.Common.Float.{FloatOps}

mutual
  pub data Json (F : Type 0) : Type 0 where
    null : Json F
    boolean : Bool → Json F
    integer : ℤ → Json F
    unsigned : ℕ → Json F
    float : F → Json F
    string : String → Json F
    array : Items F → Json F
    object : Members F → Json F

  pub data Items (F : Type 0) : Type 0 where
    nil : Items F
    cons : Json F → Items F → Items F

  pub data Members (F : Type 0) : Type 0 where
    end : Members F
    member : String → Json F → Members F → Members F

module _ {F : Type 0} where
  abbrev pub items : Items F → List (Json F)
  items nil = []
  items (cons v vs) = v ∷ items vs

  abbrev pub of_items : List (Json F) → Items F
  of_items [] = nil
  of_items (v ∷ vs) = cons v (of_items vs)

  abbrev pub members : Members F → Assoc (Json F)
  members end = []
  members (member k v ms) = (k, v) ∷ members ms

  abbrev pub of_members : Assoc (Json F) → Members F
  of_members [] = end
  of_members ((k, v) ∷ ms) = member k v (of_members ms)

  -- The members of an object, and of any other value none.
  abbrev pub fields : Json F → Assoc (Json F)
  fields (object ms) = members ms
  fields _ = []

  abbrev pub elements : Json F → List (Json F)
  elements (array vs) = items vs
  elements _ = []

  -- `j.contains(k)` and `j[k]`.
  abbrev pub at : String → Json F → Option (Json F)
  at k j = lookup k (fields j)

  abbrev pub is_null : Json F → Bool
  is_null null = true
  is_null _ = false

  abbrev pub is_boolean : Json F → Bool
  is_boolean (boolean b) = true
  is_boolean _ = false

  -- `is_number_integer`: signed or unsigned.
  abbrev pub is_integer : Json F → Bool
  is_integer (integer n) = true
  is_integer (unsigned n) = true
  is_integer _ = false

  abbrev pub is_number : Json F → Bool
  is_number (integer n) = true
  is_number (unsigned n) = true
  is_number (float x) = true
  is_number _ = false

  abbrev pub is_string : Json F → Bool
  is_string (string s) = true
  is_string _ = false

  abbrev pub is_array : Json F → Bool
  is_array (array vs) = true
  is_array _ = false

  abbrev pub is_object : Json F → Bool
  is_object (object ms) = true
  is_object _ = false

module _ {F : Type 0} (is_finite : F → Bool) where
  -- What `dump` writes of a value, parsed again: an integer that is not negative is unsigned, and a number that is not
  -- finite is null. Texts are taken to be UTF-8.
  unfoldable mutual
    pub reread : Json F → Json F
    reread (integer (pos n)) = unsigned n
    reread (integer (negsuc n)) = integer (negsuc n)
    reread (float x) = if is_finite x then float x else null
    reread (array vs) = array (reread_items vs)
    reread (object ms) = object (reread_members ms)
    reread null = null
    reread (boolean b) = boolean b
    reread (unsigned n) = unsigned n
    reread (string s) = string s

    pub reread_items : Items F → Items F
    reread_items nil = nil
    reread_items (cons v vs) = cons (reread v) (reread_items vs)

    pub reread_members : Members F → Members F
    reread_members end = end
    reread_members (member k v ms) = member k (reread v) (reread_members ms)

module _ {F : Type 0} ⦃o : FloatOps F⦄ where
  -- `get<int>()` of a number.
  unfoldable pub get_int : Json F → ℤ
  get_int (integer n) = to_int32 n
  get_int (unsigned n) = to_int32 (pos n)
  get_int (float x) = o.to_int x
  get_int _ = pos 0

  -- `get<double>()` of a number.
  unfoldable pub get_double : Json F → F
  get_double (integer n) = o.of_int n
  get_double (unsigned n) = o.of_int (pos n)
  get_double (float x) = x
  get_double _ = o.of_int (pos 0)

  -- `get<int>()` and `get<double>()` of any value: what is no number, or for `int` no flag, is an exception.
  unfoldable pub as_int : Json F → Option ℤ
  unfolding get_int
  as_int (boolean b) = some (if b then pos 1 else pos 0)
  as_int j = if is_number j then some (get_int j) else none

  unfoldable pub as_double : Json F → Option F
  unfolding get_double
  as_double j = if is_number j then some (get_double j) else none
