-- ===== src/Sha/Standard.antt =====
-- SHA-256 as FIPS 180 describes it, apart from helpers/sha256.hpp.
use Prim.Native.Nat.{bit_and, bit_or, bit_xor}
use droneengage_common.Common.{
  ℕ, zero, suc, ◌+◌, ◌-◌, ◌*◌, ◌/◌, ◌%◌, ◌^◌, ◌≡◌, refl, List, [], ◌∷◌, map, length, nth, flatten,
  ◌<◌, leb, if◌then◌else◌, arith,
}
use droneengage_common.Sha.Words.{Words, k_words, rounds, round, rotr}
use droneengage_common.Sha.Stream.{init_words, length_bytes, digest}

-- The first 64 prime numbers.
abbrev pub primes : List ℕ
primes =
    2 ∷ 3 ∷ 5 ∷ 7 ∷ 11 ∷ 13 ∷ 17 ∷ 19 ∷ 23 ∷ 29 ∷ 31 ∷ 37 ∷ 41 ∷ 43 ∷ 47 ∷ 53 ∷ 59 ∷ 61 ∷ 67 ∷ 71
    ∷ 73 ∷ 79 ∷ 83 ∷ 89 ∷ 97 ∷ 101 ∷ 103 ∷ 107 ∷ 109 ∷ 113 ∷ 127 ∷ 131 ∷ 137 ∷ 139 ∷ 149 ∷ 151 ∷ 157
    ∷ 163 ∷ 167 ∷ 173 ∷ 179 ∷ 181 ∷ 191 ∷ 193 ∷ 197 ∷ 199 ∷ 211 ∷ 223 ∷ 227 ∷ 229 ∷ 233 ∷ 239 ∷ 241
    ∷ 251 ∷ 257 ∷ 263 ∷ 269 ∷ 271 ∷ 277 ∷ 281 ∷ 283 ∷ 293 ∷ 307 ∷ 311 ∷ []

-- The largest number whose power is `n` at most, by its bits from the top.
unfoldable pub root : (power bits : ℕ) → ℕ → ℕ → ℕ
root power zero n found = found
root power (suc bits) n found =
    let more = found + 2 ^ bits in root power bits n (if leb (more ^ power) n then more else found)

-- The first 32 bits of the fractional part of a root.
abbrev pub fraction : ℕ → ℕ → ℕ
fraction power p = root power 40 (p * 2 ^ (32 * power)) 0 % 2 ^ 32

pub k_words-standard_constants : k_words ≡ map (fraction 3) primes
unfolding root
k_words-standard_constants = refl

-- The bytes of a number, the high one first.
abbrev pub big_endian : ℕ → ℕ → List ℕ
big_endian zero x = []
big_endian (suc n) x = (x / 256 ^ n % 256) ∷ big_endian n x

-- The functions of the standard on words of 32 bits.
abbrev rotate : ℕ → ℕ → ℕ
rotate n x = bit_or (x / 2 ^ n) (x * 2 ^ (32 - n) % 2 ^ 32)

abbrev shift : ℕ → ℕ → ℕ
shift n x = x / 2 ^ n

abbrev xor3 : ℕ → ℕ → ℕ → ℕ
xor3 x y z = bit_xor (bit_xor x y) z

abbrev capital_sigma0 : ℕ → ℕ
capital_sigma0 x = xor3 (rotate 2 x) (rotate 13 x) (rotate 22 x)

abbrev capital_sigma1 : ℕ → ℕ
capital_sigma1 x = xor3 (rotate 6 x) (rotate 11 x) (rotate 25 x)

abbrev pub sigma0 : ℕ → ℕ
sigma0 x = xor3 (rotate 7 x) (rotate 18 x) (shift 3 x)

abbrev pub sigma1 : ℕ → ℕ
sigma1 x = xor3 (rotate 17 x) (rotate 19 x) (shift 10 x)

abbrev choose : ℕ → ℕ → ℕ → ℕ
choose x y z = bit_xor (bit_and x y) (bit_and (2 ^ 32 - 1 - x) z)

abbrev majority : ℕ → ℕ → ℕ → ℕ
majority x y z = xor3 (bit_and x y) (bit_and x z) (bit_and y z)

abbrev plus : ℕ → ℕ → ℕ
plus x y = (x + y) % 2 ^ 32

-- Four bytes as a word, the high one first.
abbrev pub word : ℕ → ℕ → ℕ → ℕ → ℕ
word a b c d = bit_or (bit_or (bit_or (a * 2 ^ 24 % 2 ^ 32) (b * 2 ^ 16)) (c * 2 ^ 8)) d

abbrev pub expand : ℕ → ℕ → ℕ → ℕ → ℕ
expand a b c d = (a + sigma0 b + c + sigma1 d) % 2 ^ 32

-- The message schedule of a block.
pub record IsSchedule (block w : List ℕ) : Type 0 where
  pub size : length w ≡ 64
  pub first :
      (t : ℕ)
      → t < 16
      → nth 0 w t
        ≡ word
            (nth 0 block (t * 4 + 0))
            (nth 0 block (t * 4 + 1))
            (nth 0 block (t * 4 + 2))
            (nth 0 block (t * 4 + 3))
  pub later :
      (t : ℕ)
      → t < 48
      → nth 0 w (t + 16) ≡ expand (nth 0 w t) (nth 0 w (t + 1)) (nth 0 w (t + 9)) (nth 0 w (t + 14))

abbrev pub step : ℕ → ℕ → Words → Words
step k w s =
    let t1 = (s.h + capital_sigma1 s.e + choose s.e s.f s.g + k + w) % 2 ^ 32 in
    let t2 = plus (capital_sigma0 s.a) (majority s.a s.b s.c) in
    record { a = plus t1 t2; b = s.a; c = s.b; d = s.c; e = plus s.d t1; f = s.e; g = s.f; h = s.g }

abbrev pub steps : List ℕ → List ℕ → Words → Words
steps (k ∷ ks) (w ∷ ws) s = steps ks ws (step k w s)
steps _ _ s = s

abbrev pub sums : Words → Words → Words
sums s t = record {
  a = plus s.a t.a;
  b = plus s.b t.b;
  c = plus s.c t.c;
  d = plus s.d t.d;
  e = plus s.e t.e;
  f = plus s.f t.f;
  g = plus s.g t.g;
  h = plus s.h t.h;
}

abbrev pub standard_constants : List ℕ
standard_constants = map (fraction 3) primes

-- The words that come out of the blocks.
abbrev pub IsHashed : Words → List (List ℕ) → Words → Type 0
IsHashed s [] t = t ≡ s
IsHashed s (block ∷ blocks) t =
    (w : List ℕ) × IsSchedule block w × IsHashed (sums s (steps standard_constants w s)) blocks t

-- The first words are fractions of the square roots of the first eight primes.
abbrev pub standard_words : Words
standard_words = record {
  a = fraction 2 2;
  b = fraction 2 3;
  c = fraction 2 5;
  d = fraction 2 7;
  e = fraction 2 11;
  f = fraction 2 13;
  g = fraction 2 17;
  h = fraction 2 19;
}

abbrev pub standard_digest : Words → List ℕ
standard_digest s =
    flatten (map (big_endian 4) (s.a ∷ s.b ∷ s.c ∷ s.d ∷ s.e ∷ s.f ∷ s.g ∷ s.h ∷ []))

pub init_words-standard_words : init_words ≡ standard_words
unfolding root
init_words-standard_words = refl

pub digest-standard_digest : (s : Words) → digest s ≡ standard_digest s
unfolding digest
digest-standard_digest s i =
    flatten (map (last_byte i) (s.a ∷ s.b ∷ s.c ∷ s.d ∷ s.e ∷ s.f ∷ s.g ∷ s.h ∷ []))
  where
    whole : (x : ℕ) → x % 256 ≡ x / 1 % 256
    whole x = omega arith

    last_byte : 𝕀 → ℕ → List ℕ
    last_byte i x = (x / 2 ^ 24 % 256) ∷ (x / 2 ^ 16 % 256) ∷ (x / 2 ^ 8 % 256) ∷ whole x i ∷ []

pub length_bytes-big_endian : (n : ℕ) → length_bytes n ≡ big_endian 8 n
unfolding length_bytes
length_bytes-big_endian n i =
    e7 i
    ∷ e6 i
    ∷ e5 i
    ∷ (n / 2 ^ 32 % 256)
    ∷ (n / 2 ^ 24 % 256)
    ∷ (n / 2 ^ 16 % 256)
    ∷ (n / 2 ^ 8 % 256)
    ∷ e0 i
    ∷ []
  where
    e7 : n / 2 ^ 32 / 2 ^ 24 % 256 ≡ n / 2 ^ 56 % 256
    e7 = omega arith

    e6 : n / 2 ^ 32 / 2 ^ 16 % 256 ≡ n / 2 ^ 48 % 256
    e6 = omega arith

    e5 : n / 2 ^ 32 / 2 ^ 8 % 256 ≡ n / 2 ^ 40 % 256
    e5 = omega arith

    e0 : n % 256 ≡ n / 1 % 256
    e0 = omega arith

pub rounds-steps : (ks ws : List ℕ) (s : Words) → rounds ks ws s ≡ steps ks ws s
unfolding rounds round rotr
rounds-steps [] ws s = refl
rounds-steps (k ∷ ks) [] s = refl
rounds-steps (k ∷ ks) (w ∷ ws) s = rounds-steps ks ws (step k w s)
