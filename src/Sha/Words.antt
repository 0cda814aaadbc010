-- ===== src/Sha/Words.antt =====
-- The words of 32 bits of helpers/sha256.hpp, and `transform`.
use Prim.Native.Nat.{bit_and, bit_or, bit_xor}
use droneengage_common.Common.{
  ℕ, zero, suc, ◌+◌, ◌-◌, ◌*◌, ◌/◌, ◌%◌, ◌^◌, List, [], ◌∷◌, ◌++◌, length, nth,
}

abbrev u32_mod : ℕ
u32_mod = 2 ^ 32

unfoldable pub rotr : ℕ → ℕ → ℕ
rotr x n = bit_or (x / 2 ^ n) (x * 2 ^ (32 - n) % u32_mod)

-- `~x`
abbrev complement : ℕ → ℕ
complement x = u32_mod - 1 - x

abbrev pub k_words : List ℕ
k_words =
    0x428a2f98 ∷ 0x71374491 ∷ 0xb5c0fbcf ∷ 0xe9b5dba5 ∷ 0x3956c25b ∷ 0x59f111f1 ∷ 0x923f82a4
    ∷ 0xab1c5ed5 ∷ 0xd807aa98 ∷ 0x12835b01 ∷ 0x243185be ∷ 0x550c7dc3 ∷ 0x72be5d74 ∷ 0x80deb1fe
    ∷ 0x9bdc06a7 ∷ 0xc19bf174 ∷ 0xe49b69c1 ∷ 0xefbe4786 ∷ 0x0fc19dc6 ∷ 0x240ca1cc ∷ 0x2de92c6f
    ∷ 0x4a7484aa ∷ 0x5cb0a9dc ∷ 0x76f988da ∷ 0x983e5152 ∷ 0xa831c66d ∷ 0xb00327c8 ∷ 0xbf597fc7
    ∷ 0xc6e00bf3 ∷ 0xd5a79147 ∷ 0x06ca6351 ∷ 0x14292967 ∷ 0x27b70a85 ∷ 0x2e1b2138 ∷ 0x4d2c6dfc
    ∷ 0x53380d13 ∷ 0x650a7354 ∷ 0x766a0abb ∷ 0x81c2c92e ∷ 0x92722c85 ∷ 0xa2bfe8a1 ∷ 0xa81a664b
    ∷ 0xc24b8b70 ∷ 0xc76c51a3 ∷ 0xd192e819 ∷ 0xd6990624 ∷ 0xf40e3585 ∷ 0x106aa070 ∷ 0x19a4c116
    ∷ 0x1e376c08 ∷ 0x2748774c ∷ 0x34b0bcb5 ∷ 0x391c0cb3 ∷ 0x4ed8aa4a ∷ 0x5b9cca4f ∷ 0x682e6ff3
    ∷ 0x748f82ee ∷ 0x78a5636f ∷ 0x84c87814 ∷ 0x8cc70208 ∷ 0x90befffa ∷ 0xa4506ceb ∷ 0xbef9a3f7
    ∷ 0xc67178f2 ∷ []

-- The eight words of `ctx.state`, and the eight variables of the rounds.
pub record Words : Type 0 where
  pub a : ℕ
  pub b : ℕ
  pub c : ℕ
  pub d : ℕ
  pub e : ℕ
  pub f : ℕ
  pub g : ℕ
  pub h : ℕ

-- `w[0]` to `w[15]`: the words of the block, the high byte first.
unfoldable pub block_words : List ℕ → List ℕ
block_words (b0 ∷ b1 ∷ b2 ∷ b3 ∷ rest) =
    bit_or (bit_or (bit_or (b0 * 2 ^ 24 % u32_mod) (b1 * 2 ^ 16)) (b2 * 2 ^ 8)) b3
    ∷ block_words rest
block_words _ = []

-- `w[i]` of the words before it.
unfoldable pub next_word : List ℕ → ℕ
unfolding rotr
next_word w =
    let i = length w in
    let x = nth 0 w (i - 15) in
    let y = nth 0 w (i - 2) in
    let s0 = bit_xor (bit_xor (rotr x 7) (rotr x 18)) (x / 2 ^ 3) in
    let s1 = bit_xor (bit_xor (rotr y 17) (rotr y 19)) (y / 2 ^ 10) in
    (nth 0 w (i - 16) + s0 + nth 0 w (i - 7) + s1) % u32_mod

unfoldable pub extend : ℕ → List ℕ → List ℕ
unfolding next_word
extend zero w = w
extend (suc rounds) w = extend rounds (w ++ next_word w ∷ [])

unfoldable pub round : ℕ → ℕ → Words → Words
unfolding rotr
round k w s =
    let big1 = bit_xor (bit_xor (rotr s.e 6) (rotr s.e 11)) (rotr s.e 25) in
    let ch = bit_xor (bit_and s.e s.f) (bit_and (complement s.e) s.g) in
    let t1 = (s.h + big1 + ch + k + w) % u32_mod in
    let big0 = bit_xor (bit_xor (rotr s.a 2) (rotr s.a 13)) (rotr s.a 22) in
    let maj = bit_xor (bit_xor (bit_and s.a s.b) (bit_and s.a s.c)) (bit_and s.b s.c) in
    let t2 = (big0 + maj) % u32_mod in
    record {
      a = (t1 + t2) % u32_mod;
      b = s.a;
      c = s.b;
      d = s.c;
      e = (s.d + t1) % u32_mod;
      f = s.e;
      g = s.f;
      h = s.g;
    }

unfoldable pub rounds : List ℕ → List ℕ → Words → Words
unfolding round
rounds (k ∷ ks) (w ∷ ws) s = rounds ks ws (round k w s)
rounds _ _ s = s

unfoldable pub add_words : Words → Words → Words
add_words s t = record {
  a = (s.a + t.a) % u32_mod;
  b = (s.b + t.b) % u32_mod;
  c = (s.c + t.c) % u32_mod;
  d = (s.d + t.d) % u32_mod;
  e = (s.e + t.e) % u32_mod;
  f = (s.f + t.f) % u32_mod;
  g = (s.g + t.g) % u32_mod;
  h = (s.h + t.h) % u32_mod;
}

unfoldable pub transform : Words → List ℕ → Words
unfolding block_words extend rounds add_words
transform s block = add_words s (rounds k_words (extend 48 (block_words block)) s)
