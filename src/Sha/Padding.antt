-- ===== src/Sha/Padding.antt =====
-- The end of a message in `final` of helpers/sha256.hpp: one more block, or two where the length does
-- not fit behind the rest.
use droneengage_common.Common.{
  ℕ, zero, suc, ◌+◌, ◌-◌, ◌*◌, ◌%◌, ◌^◌, ◌≤◌, ◌<◌, ◌≡◌, refl, sym, ap, ◌∙◌, List, [], ◌∷◌, ◌++◌,
  ltb, arith, All, length, flatten, length-append, append_assoc, append-nil, Bool-cases, inl, inr,
}
use droneengage_common.Sha.Words.{Words, transform}
use droneengage_common.Sha.Stream.{Ctx, zeros, fill, length_bytes, finish_words}

abbrev pub ctx_of : Words → ℕ → List ℕ → Ctx
ctx_of s n block = record { state = s; bitlen = n; block = block }

abbrev pub IsBlock : List ℕ → Type 0
IsBlock block = length block ≡ 64

abbrev pub compress_all : Words → List (List ℕ) → Words
compress_all s [] = s
compress_all s (block ∷ blocks) = compress_all (transform s block) blocks

zeros-add : (m n : ℕ) → zeros m ++ zeros n ≡ zeros (m + n)
zeros-add zero n = ap zeros {x = n} {y = 0 + n} (omega arith)
zeros-add (suc m) n =
    ap (◌∷◌ 0) (zeros-add m n) ∙ ap zeros {x = suc (m + n)} {y = suc m + n} (omega arith)

length-zeros : (n : ℕ) → length (zeros n) ≡ n
length-zeros zero = omega arith
length-zeros (suc n) = omega (arith, length-zeros n)

length-fill : (size : ℕ) (block : List ℕ) → length block ≤ size → length (fill size block) ≡ size
unfolding fill
length-fill size block h =
    omega
      (arith, length-append block (zeros (size - length block)), length-zeros (size - length block))

fill-IsBlock : (rest : List ℕ) → length rest < 64 → IsBlock (fill 64 (rest ++ 0x80 ∷ []))
fill-IsBlock rest h =
    length-fill 64 (rest ++ 0x80 ∷ []) (omega (arith, length-append rest (0x80 ∷ [])))

last-IsBlock :
    (block bits : List ℕ) → length block ≤ 56 → length bits ≡ 8 → IsBlock (fill 56 block ++ bits)
last-IsBlock block bits h eight =
    omega (arith, length-append (fill 56 block) bits, length-fill 56 block h)

-- The bytes of the end, where they make one block.
one_block :
    (rest bits : List ℕ)
    → length rest < 56
    → (fill 56 (rest ++ 0x80 ∷ []) ++ bits) ++ []
      ≡ rest ++ (0x80 ∷ (zeros ((119 - length rest) % 64) ++ bits))
unfolding fill
one_block rest bits h =
    append-nil _
    ∙ append_assoc (rest ++ 0x80 ∷ []) _ bits
    ∙ append_assoc rest (0x80 ∷ []) _
    ∙ ap (λ n. rest ++ (0x80 ∷ (zeros n ++ bits))) {x = 56 - length (rest ++ 0x80 ∷ [])}
        {y = (119 - length rest) % 64} (omega (arith, length-append rest (0x80 ∷ [])))

-- The same, where they make two.
two_blocks :
    (rest bits : List ℕ)
    → 56 ≤ length rest
    → length rest < 64
    → fill 64 (rest ++ 0x80 ∷ []) ++ ((fill 56 [] ++ bits) ++ [])
      ≡ rest ++ (0x80 ∷ (zeros ((119 - length rest) % 64) ++ bits))
unfolding fill
two_blocks rest bits low high =
    ap (◌++◌ (fill 64 (rest ++ 0x80 ∷ []))) (append-nil (zeros 56 ++ bits))
    ∙ append_assoc (rest ++ 0x80 ∷ []) (zeros (64 - length (rest ++ 0x80 ∷ []))) _
    ∙ append_assoc rest (0x80 ∷ []) _
    ∙ ap (λ t. rest ++ (0x80 ∷ t))
        (sym (append_assoc (zeros (64 - length (rest ++ 0x80 ∷ []))) (zeros 56) bits)
          ∙ ap (λ t. t ++ bits) (zeros-add (64 - length (rest ++ 0x80 ∷ [])) 56))
    ∙ ap (λ n. rest ++ (0x80 ∷ (zeros n ++ bits))) {x = 64 - length (rest ++ 0x80 ∷ []) + 56}
        {y = (119 - length rest) % 64} (omega (arith, length-append rest (0x80 ∷ [])))

length-length_bytes : (n : ℕ) → length (length_bytes n) ≡ 8
unfolding length_bytes
length-length_bytes n = refl

-- The blocks that the end of a message makes, and what `final` makes of it.
pub record Tail (rest : List ℕ) (s : Words) (n : ℕ) : Type 0 where
  pub blocks : List (List ℕ)
  pub whole : All IsBlock blocks
  pub joined :
      flatten blocks
      ≡ rest
        ++ (0x80
            ∷ (zeros ((119 - length rest) % 64) ++ length_bytes ((n + length rest * 8) % 2 ^ 64)))
  pub hashed : finish_words (ctx_of s n rest) ≡ compress_all s blocks

pub tail : (rest : List ℕ) (s : Words) (n : ℕ) → length rest < 64 → Tail rest s n
unfolding finish_words
tail rest s n h =
    let bits = length_bytes ((n + length rest * 8) % 2 ^ 64) in
    let eight = length-length_bytes ((n + length rest * 8) % 2 ^ 64) in
    let longer = length-append rest (0x80 ∷ []) in
    elim (Bool-cases (ltb 56 (length (rest ++ 0x80 ∷ [])))) [
      | inl e ↦
          let low : 56 ≤ length rest = ground (arith, longer, e) in
          record {
            blocks = fill 64 (rest ++ 0x80 ∷ []) ∷ (fill 56 [] ++ bits) ∷ [];
            whole = (fill-IsBlock rest h, (last-IsBlock [] bits (omega arith) eight, tt));
            joined = two_blocks rest bits low h;
            hashed = rw e refl;
          }
      | inr e ↦
          let low : length rest < 56 = ground (arith, longer, e) in
          record {
            blocks = (fill 56 (rest ++ 0x80 ∷ []) ++ bits) ∷ [];
            whole = (last-IsBlock (rest ++ 0x80 ∷ []) bits (omega (arith, longer)) eight, tt);
            joined = one_block rest bits low;
            hashed = rw e refl;
          }
    ]
