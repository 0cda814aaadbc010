-- ===== src/Common/Text.antt =====
-- `std::to_string` of an index, and the bytes of a text.
use Prim.Native.Nat.{ℕ, zero, suc, ◌+◌, ◌/◌, ◌%◌}
use Prim.Native.Char.{code}
use Prim.Native.String.{String, ◌++◌}
use mathlib.Core.List.{List, [], ◌∷◌, ◌++◌ as list_append}
use mathlib.Core.Bool.{true, false}
use droneengage_common.Common.Tests.{ltb, ◌==◌, if◌then◌else◌}

abbrev digit : ℕ → String
digit n =
    if n == 0
    then "0"
    else if n == 1
    then "1"
    else if n == 2
    then "2"
    else if n == 3
    then "3"
    else if n == 4
    then "4"
    else if n == 5
    then "5"
    else if n == 6
    then "6"
    else if n == 7
    then "7"
    else if n == 8
    then "8"
    else "9"

-- Each round takes a digit, so `n + 1` rounds are enough for `n`.
print : ℕ → ℕ → String
print zero n = ""
print (suc rounds) n = elim (ltb n 10) [
  | true ↦ digit n
  | false ↦ print rounds (n / 10) ++ digit (n % 10)
]

unfoldable pub to_string : ℕ → String
unfolding print
to_string n = print (suc n) n

-- The bytes of a character, and of a `std::string`: its UTF-8.
abbrev char_bytes : ℕ → List ℕ
char_bytes c =
    if ltb c 0x80
    then c ∷ []
    else if ltb c 0x800
    then (0xC0 + c / 64) ∷ (0x80 + c % 64) ∷ []
    else if ltb c 0x10000
    then (0xE0 + c / 4096) ∷ (0x80 + c / 64 % 64) ∷ (0x80 + c % 64) ∷ []
    else (0xF0 + c / 262144) ∷ (0x80 + c / 4096 % 64) ∷ (0x80 + c / 64 % 64) ∷ (0x80 + c % 64) ∷ []

unfoldable pub bytes : String → List ℕ
bytes String.[] = []
bytes (String.◌∷◌ c s) = list_append (char_bytes (code c)) (bytes s)
