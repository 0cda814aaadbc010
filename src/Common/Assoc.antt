-- ===== src/Common/Assoc.antt =====
-- `std::map<std::string, V>`: an association list in key order. `lookup` finds the first entry of a
-- key, `insert` replaces it or adds an entry at its place, and `erase` removes every entry.
use Prim.Native.Nat.{Ordering}
use Prim.Native.String.{String, compare}
use mathlib.Core.Path.{◌≡◌}
use mathlib.Core.Bool.{Bool, true, false}
use mathlib.Core.Option.{Option, none, some}
use mathlib.Core.List.{List, [], ◌∷◌}
use native.Mathlib.Omega.{arith}
use text.Mathlib.Text.{◌==◌ as str_eq}
use text.Mathlib.TextEquality.{eq_iff}
use droneengage_common.Common.Tests.{if◌then◌else◌}

-- `std::less<std::string>`
abbrev pub str_lt : String → String → Bool
str_lt a b = elim (compare a b) [ Ordering.lt ↦ true | _ ↦ false ]

abbrev pub Assoc {ℓ} : Type ℓ → Type ℓ
Assoc V = List (String × V)

module _ {ℓ} {V : Type ℓ} where
  unfoldable pub lookup : String → Assoc V → Option V
  lookup k [] = none
  lookup k ((j, v) ∷ m) = if str_eq j k then some v else lookup k m

  abbrev pub is_some : Option V → Bool
  is_some none = false
  is_some (some v) = true

  unfoldable pub contains : String → Assoc V → Bool
  unfolding lookup
  contains k m = is_some (lookup k m)

  unfoldable pub insert : String → V → Assoc V → Assoc V
  insert k v [] = (k, v) ∷ []
  insert k v ((j, w) ∷ m) =
      let rest = insert k v m in
      if str_eq j k then (j, v) ∷ m else if str_lt k j then (k, v) ∷ (j, w) ∷ m else (j, w) ∷ rest

  unfoldable pub erase : String → Assoc V → Assoc V
  erase k [] = []
  erase k ((j, v) ∷ m) = let rest = erase k m in if str_eq j k then rest else (j, v) ∷ rest

  -- What is found after an entry was put in.
  pub lookup-insert :
      (key other : String) (value : V) (entries : Assoc V)
      → lookup other (insert key value entries)
        ≡ (if str_eq key other then some value else lookup other entries)
  unfolding insert lookup
  lookup-insert key other value [] = ground arith
  lookup-insert key other value ((first, held) ∷ entries) = ground (
    arith,
    lookup-insert key other value entries,
    eq_iff first key,
    eq_iff first other,
    eq_iff key other,
  )

  -- What is found after the entries of a key were taken out.
  pub lookup-erase :
      (key other : String) (entries : Assoc V)
      → lookup other (erase key entries) ≡ (if str_eq key other then none else lookup other entries)
  unfolding erase lookup
  lookup-erase key other [] = ground arith
  lookup-erase key other ((first, held) ∷ entries) = ground (
    arith,
    eq_iff key other,
    lookup-erase key other entries,
    eq_iff first other,
    eq_iff first key,
  )

pub ruleset map_laws = (lookup-insert, lookup-erase)
