-- ===== src/Sha/Stream.antt =====
-- `init`, `update`, `final` and `sha256_hex` of helpers/sha256.hpp, and `capAdvertHash` of
-- de_databus/cap_schema.cpp. A text is the list of its bytes. The buffer is the bytes that are in it:
-- `block_len` is its length.
use Prim.Native.String.{◌++◌ as str_append}
use droneengage_common.Common.{
  ℕ, zero, suc, ◌+◌, ◌-◌, ◌*◌, ◌/◌, ◌%◌, ◌^◌, String, List, [], ◌∷◌, ◌++◌, ◌==◌, ltb, if◌then◌else◌,
  length,
}
use droneengage_common.Sha.Words.{Words, transform}

pub record Ctx : Type 0 where
  pub state : Words
  pub bitlen : ℕ
  pub block : List ℕ

abbrev pub init_words : Words
init_words = record {
  a = 0x6a09e667;
  b = 0xbb67ae85;
  c = 0x3c6ef372;
  d = 0xa54ff53a;
  e = 0x510e527f;
  f = 0x9b05688c;
  g = 0x1f83d9ab;
  h = 0x5be0cd19;
}

abbrev pub init : Ctx
init = record { state = init_words; bitlen = 0; block = [] }

-- A round of the loop of `update`.
unfoldable pub push : ℕ → Ctx → Ctx
push byte ctx =
    let block = ctx.block ++ byte ∷ [] in
    if length block == 64
    then record {
      state = transform ctx.state block;
      bitlen = (ctx.bitlen + 512) % 2 ^ 64;
      block = [];
    }
    else record ctx { block = block }

unfoldable pub update : Ctx → List ℕ → Ctx
unfolding push
update ctx [] = ctx
update ctx (byte ∷ bytes) = update (push byte ctx) bytes

abbrev pub zeros : ℕ → List ℕ
zeros zero = []
zeros (suc n) = 0 ∷ zeros n

-- `while (ctx.block_len < size) ctx.block[ctx.block_len++] = 0`
unfoldable pub fill : ℕ → List ℕ → List ℕ
fill size block = block ++ zeros (size - length block)

-- A word's four bytes, the high one first.
abbrev word_bytes : ℕ → List ℕ
word_bytes x = (x / 2 ^ 24 % 256) ∷ (x / 2 ^ 16 % 256) ∷ (x / 2 ^ 8 % 256) ∷ (x % 256) ∷ []

-- The number of bits in eight bytes, the high one first.
unfoldable pub length_bytes : ℕ → List ℕ
length_bytes n = word_bytes (n / 2 ^ 32) ++ word_bytes n

unfoldable pub digest : Words → List ℕ
digest s =
    word_bytes s.a
    ++ (word_bytes s.b
        ++ (word_bytes s.c
            ++ (word_bytes s.d
                ++ (word_bytes s.e ++ (word_bytes s.f ++ (word_bytes s.g ++ word_bytes s.h))))))

-- `final`, up to the words of the state.
unfoldable pub finish_words : Ctx → Words
unfolding fill length_bytes
finish_words ctx =
    let total_bits = (ctx.bitlen + length ctx.block * 8) % 2 ^ 64 in
    let block = ctx.block ++ 0x80 ∷ [] in
    if ltb 56 (length block)
    then transform (transform ctx.state (fill 64 block)) (fill 56 [] ++ length_bytes total_bits)
    else transform ctx.state (fill 56 block ++ length_bytes total_bits)

unfoldable pub final : Ctx → List ℕ
unfolding finish_words digest
final ctx = digest (finish_words ctx)

unfoldable pub sha256 : List ℕ → List ℕ
unfolding update final
sha256 bytes = final (update init bytes)

-- `HEX[i]`
abbrev character : String → ℕ → String
character String.[] n = ""
character (String.◌∷◌ c s) zero = String.◌∷◌ c ""
character (String.◌∷◌ c s) (suc n) = character s n

unfoldable pub hex : List ℕ → String
hex [] = ""
hex (b ∷ bs) =
    str_append (character "0123456789abcdef" (b / 16))
      (str_append (character "0123456789abcdef" (b % 16)) (hex bs))

unfoldable pub sha256_hex : List ℕ → String
unfolding sha256 hex
sha256_hex bytes = hex (sha256 bytes)
