-- ===== src/Sha/Blocks.antt =====
-- The hash of helpers/sha256.hpp against its description in FIPS 180: pad the message, cut it into blocks of 64
-- bytes, and compress one after the other.
use droneengage_common.Common.{
  ℕ, zero, suc, ◌+◌, ◌-◌, ◌*◌, ◌%◌, ◌^◌, ◌≤◌, ◌<◌, ◌≡◌, refl, sym, ap, subst, ◌∙◌, List, [], ◌∷◌,
  ◌++◌, ltb, arith, All, length, take, drop, flatten, length-append, flatten-append, All-append,
  length-drop, take-append-drop, append_assoc, append-nil, Bool-cases, inl, inr,
}
use droneengage_common.Sha.Words.{Words, transform}
use droneengage_common.Sha.Standard.{
  big_endian, IsHashed, standard_words, standard_digest, init_words-standard_words,
  digest-standard_digest, length_bytes-big_endian,
}
use droneengage_common.Sha.Schedule.{compress_all-IsHashed}
use droneengage_common.Sha.Padding.{ctx_of, IsBlock, compress_all, Tail, tail}
use droneengage_common.Sha.Stream.{
  Ctx, init, init_words, push, update, zeros, length_bytes, digest, finish_words, final, sha256,
}

-- The padded message: a bit 1, the fewest zeros that leave 8 bytes of the last block, and the length in bits.
abbrev pub padded : List ℕ → List ℕ
padded bytes =
    bytes
    ++ (0x80 ∷ (zeros ((119 - length bytes % 64) % 64) ++ big_endian 8 (length bytes * 8 % 2 ^ 64)))

update-append : (ctx : Ctx) (xs ys : List ℕ) → update ctx (xs ++ ys) ≡ update (update ctx xs) ys
unfolding update
update-append ctx [] ys = refl
update-append ctx (x ∷ xs) ys = update-append (push x ctx) xs ys

push_short :
    (s : Words) (n : ℕ) (block : List ℕ) (x : ℕ)
    → length block < 63
    → push x (ctx_of s n block) ≡ ctx_of s n (block ++ x ∷ [])
unfolding push
push_short s n block x h = ground (arith, length-append block (x ∷ []))

push_full :
    (s : Words) (n : ℕ) (block : List ℕ) (x : ℕ)
    → length block ≡ 63
    → push x (ctx_of s n block) ≡ ctx_of (transform s (block ++ x ∷ [])) ((n + 512) % 2 ^ 64) []
unfolding push
push_full s n block x h = ground (arith, length-append block (x ∷ []))

-- Bytes that do not fill the buffer are put in it.
update_short :
    (s : Words) (n : ℕ) (block xs : List ℕ)
    → length block + length xs < 64
    → update (ctx_of s n block) xs ≡ ctx_of s n (block ++ xs)
unfolding update
update_short s n block [] h = rw (append-nil block) refl
update_short s n block (x ∷ xs) h = rw (push_short s n block x (omega arith)) (
    update_short s n (block ++ x ∷ []) xs (omega (arith, length-append block (x ∷ [])))
    ∙ rw (append_assoc block (x ∷ []) xs) refl)

-- Bytes that fill it make one block.
update_full :
    (s : Words) (n : ℕ) (block : List ℕ) (x : ℕ) (xs : List ℕ)
    → length block + length xs ≡ 63
    → update (ctx_of s n block) (x ∷ xs)
      ≡ ctx_of (transform s (block ++ x ∷ xs)) ((n + 512) % 2 ^ 64) []
unfolding update
update_full s n block x [] h = push_full s n block x (omega arith)
update_full s n block x (y ∷ xs) h = rw (push_short s n block x (omega arith)) (
    update_full s n (block ++ x ∷ []) y xs (omega (arith, length-append block (x ∷ [])))
    ∙ rw (append_assoc block (x ∷ []) (y ∷ xs)) refl)

-- Whole blocks are compressed one after the other; `k` were before them.
update-flatten :
    (s : Words) (k : ℕ) (blocks : List (List ℕ))
    → All IsBlock blocks
    → update (ctx_of s (k * 512 % 2 ^ 64) []) (flatten blocks)
      ≡ ctx_of (compress_all s blocks) ((k + length blocks) * 512 % 2 ^ 64) []
update-flatten s k [] h = unfold update in ap (λ m. ctx_of s m []) (omega arith)
update-flatten s k ([] ∷ blocks) (h, hs) = absurd (omega arith)
update-flatten s k ((x ∷ xs) ∷ blocks) (h, hs) =
    rw
      (
        update-append (ctx_of s (k * 512 % 2 ^ 64) []) (x ∷ xs) (flatten blocks),
        update_full s (k * 512 % 2 ^ 64) [] x xs (omega arith),
      )
      (ap (λ m. update (ctx_of (transform s (x ∷ xs)) m []) (flatten blocks)) (omega arith)
        ∙ update-flatten (transform s (x ∷ xs)) (suc k) blocks hs
        ∙ ap (λ m. ctx_of (compress_all (transform s (x ∷ xs)) blocks) m []) (omega arith))

-- A message is its whole blocks, and a rest that fills no block.
record Split (bytes : List ℕ) : Type 0 where
  blocks : List (List ℕ)
  rest : List ℕ
  whole : All IsBlock blocks
  joined : flatten blocks ++ rest ≡ bytes
  short : length rest < 64

split : (rounds : ℕ) (bytes : List ℕ) → length bytes ≤ rounds → Split bytes
split zero [] h = record { blocks = []; rest = []; whole = tt; joined = refl; short = omega arith }
split zero (x ∷ bytes) h = absurd (omega arith)
split (suc rounds) bytes h = elim (Bool-cases (ltb (length bytes) 64)) [
  | inl e ↦ record {
    blocks = [];
    rest = bytes;
    whole = tt;
    joined = refl;
    short = ground (arith, e);
  }
  | inr e ↦
      let long : 64 ≤ length bytes = ground (arith, e) in
      let later = split rounds (drop 64 bytes) (omega (arith, length-drop 64 bytes)) in
      record {
        blocks = take 64 bytes ∷ later.blocks;
        rest = later.rest;
        whole = (
          omega (
            arith,
            ap length (take-append-drop 64 bytes),
            length-append (take 64 bytes) (drop 64 bytes),
            length-drop 64 bytes,
          ),
          later.whole,
        );
        joined =
            append_assoc (take 64 bytes) (flatten later.blocks) later.rest
            ∙ ap (◌++◌ (take 64 bytes)) later.joined
            ∙ take-append-drop 64 bytes;
        short = later.short;
      }
]

compress_all-append :
    (s : Words) (xs ys : List (List ℕ))
    → compress_all s (xs ++ ys) ≡ compress_all (compress_all s xs) ys
compress_all-append s [] ys = refl
compress_all-append s (x ∷ xs) ys = compress_all-append (transform s x) xs ys

length-flatten :
    (blocks : List (List ℕ)) → All IsBlock blocks → length (flatten blocks) ≡ length blocks * 64
length-flatten [] h = omega arith
length-flatten (b ∷ bs) (h, hs) = omega (arith, length-flatten bs hs, length-append b (flatten bs))

module _ (bytes : List ℕ) (cut : Split bytes) where
  abbrev bits_before : ℕ
  bits_before = length cut.blocks * 512 % 2 ^ 64

  abbrev words_before : Words
  words_before = compress_all init_words cut.blocks

  padding : ℕ → ℕ → List ℕ
  padding n bits = 0x80 ∷ (zeros n ++ length_bytes bits)

  flatten-padded :
      (end : Tail cut.rest words_before bits_before)
      → flatten (cut.blocks ++ end.blocks) ≡ padded bytes
  unfolding padding
  flatten-padded end =
      let n = (119 - length cut.rest) % 64 in
      let bits = (bits_before + length cut.rest * 8) % 2 ^ 64 in
      let size : length bytes ≡ length cut.blocks * 64 + length cut.rest = omega (
        arith,
        ap length cut.joined,
        length-append (flatten cut.blocks) cut.rest,
        length-flatten cut.blocks cut.whole,
      ) in
      flatten-append cut.blocks end.blocks
      ∙ ap (◌++◌ (flatten cut.blocks)) end.joined
      ∙ sym (append_assoc (flatten cut.blocks) cut.rest _)
      ∙ ap (λ t. t ++ padding n bits) cut.joined
      ∙ ap (λ m. bytes ++ padding m bits) {x = n} {y = (119 - length bytes % 64) % 64}
          (omega (arith, size, cut.short))
      ∙ ap (λ m. bytes ++ padding ((119 - length bytes % 64) % 64) m) {x = bits}
          {y = length bytes * 8 % 2 ^ 64} (omega (arith, size))
      ∙ ap (λ m. bytes ++ (0x80 ∷ (zeros ((119 - length bytes % 64) % 64) ++ m)))
          (length_bytes-big_endian (length bytes * 8 % 2 ^ 64))

  finish_words-compress_all :
      (end : Tail cut.rest words_before bits_before)
      → finish_words (update init bytes) ≡ compress_all init_words (cut.blocks ++ end.blocks)
  finish_words-compress_all end =
      ap (λ t. finish_words (update init t)) (sym cut.joined)
      ∙ ap finish_words (
          update-append init (flatten cut.blocks) cut.rest
          ∙ ap (λ c. update c cut.rest) (update-flatten init_words 0 cut.blocks cut.whole)
          ∙ ap (λ n. update (ctx_of words_before n []) cut.rest)
              {x = (0 + length cut.blocks) * 512 % 2 ^ 64} {y = bits_before} (omega arith)
          ∙ update_short words_before bits_before [] cut.rest (omega (arith, cut.short)))
      ∙ end.hashed
      ∙ sym (compress_all-append init_words cut.blocks end.blocks)

-- The hash of a text is the one of FIPS 180: the padded message is cut into blocks of 64 bytes, each of which changes the
-- words by the 64 steps on its message schedule, from the fractions of the square roots of primes on and with those of
-- cube roots as constants, and the words that come out are the hash, the high byte of each first.
pub sha256-IsHashed :
    (bytes : List ℕ)
    → (blocks : List (List ℕ)) × (words : Words) × All IsBlock blocks
      × (flatten blocks ≡ padded bytes)
      × IsHashed standard_words blocks words
      × (sha256 bytes ≡ standard_digest words)
unfolding sha256 final
sha256-IsHashed bytes =
    let cut = split (length bytes) bytes (omega arith) in
    let end = tail cut.rest (words_before bytes cut) (bits_before bytes cut) cut.short in
    let blocks = cut.blocks ++ end.blocks in
    let whole = All-append IsBlock cut.blocks end.blocks cut.whole end.whole in
    (
      blocks,
      compress_all init_words blocks,
      whole,
      flatten-padded bytes cut end,
      subst (λ s. IsHashed s blocks (compress_all init_words blocks)) init_words-standard_words
          (compress_all-IsHashed init_words blocks whole),
      ap digest (finish_words-compress_all bytes cut end)
          ∙ digest-standard_digest (compress_all init_words blocks),
    )
