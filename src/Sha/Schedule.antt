-- ===== src/Sha/Schedule.antt =====
-- The words of a block in `transform` of helpers/sha256.hpp, against the message schedule of FIPS 180.
use droneengage_common.Common.{
  ℕ, zero, suc, ◌+◌, ◌-◌, ◌*◌, ◌≤◌, ◌<◌, ◌≡◌, refl, sym, ap, subst, ◌∙◌, List, [], ◌∷◌, ◌++◌, arith,
  length, nth, length-append, inl, inr, All, Bool-cases, ◌==◌,
}
use droneengage_common.Sha.Words.{
  Words, rotr, block_words, next_word, extend, transform, add_words, k_words,
}
use droneengage_common.Sha.Standard.{
  IsSchedule, IsHashed, expand, word, steps, sums, standard_constants, rounds-steps,
  k_words-standard_constants,
}
use droneengage_common.Sha.Padding.{IsBlock, compress_all}

nth-append_left : (xs ys : List ℕ) (i : ℕ) → i < length xs → nth 0 (xs ++ ys) i ≡ nth 0 xs i
nth-append_left [] ys i h = absurd (omega (arith, h))
nth-append_left (x ∷ xs) ys zero h = refl
nth-append_left (x ∷ xs) ys (suc i) h = nth-append_left xs ys i (omega (arith, h))

nth-snoc : (xs : List ℕ) (y : ℕ) → nth 0 (xs ++ y ∷ []) (length xs) ≡ y
nth-snoc [] y = refl
nth-snoc (x ∷ xs) y = nth-snoc xs y

next_word-expand :
    (w : List ℕ)
    → next_word w
      ≡ expand
          (nth 0 w (length w - 16))
          (nth 0 w (length w - 15))
          (nth 0 w (length w - 7))
          (nth 0 w (length w - 2))
unfolding next_word rotr
next_word-expand w = refl

-- The words that `extend` adds.
record IsExtended (n : ℕ) (w r : List ℕ) : Type 0 where
  size : length r ≡ n + length w
  kept : (i : ℕ) → i < length w → nth 0 r i ≡ nth 0 w i
  later :
      (t : ℕ)
      → length w ≤ t + 16
      → t + 16 < n + length w
      → nth 0 r (t + 16) ≡ expand (nth 0 r t) (nth 0 r (t + 1)) (nth 0 r (t + 9)) (nth 0 r (t + 14))

extend-IsExtended : (n : ℕ) (w : List ℕ) → 16 ≤ length w → IsExtended n w (extend n w)
unfolding extend
extend-IsExtended zero w long = record {
  size = omega arith;
  kept = λ i h. refl;
  later = λ t low high. absurd (omega (arith, low, high));
}
extend-IsExtended (suc n) w long =
    let v = w ++ next_word w ∷ [] in
    let size : length v ≡ suc (length w) = omega (arith, length-append w (next_word w ∷ [])) in
    let ih = extend-IsExtended n v (omega (arith, size, long)) in
    let kept : (i : ℕ) → i < length w → nth 0 (extend n v) i ≡ nth 0 w i =
      λ i h. ih.kept i (omega (arith, size, h)) ∙ nth-append_left w (next_word w ∷ []) i h in
    let at_index : (i t : ℕ) → i ≡ t → t < length w → nth 0 w i ≡ nth 0 (extend n v) t =
      λ i t e h. ap (nth 0 w) e ∙ sym (kept t h) in
    record {
      size = omega (arith, ih.size, size);
      kept = kept;
      later = λ t low high. elim (Bool-cases (t + 16 == length w)) [
        | inl e ↦
            let last : t + 16 ≡ length w = ground (arith, e) in
            let a = at_index (length w - 16) t (omega (arith, last)) (omega (arith, last)) in
            let b = at_index (length w - 15) (t + 1) (omega (arith, last)) (omega (arith, last)) in
            let c = at_index (length w - 7) (t + 9) (omega (arith, last)) (omega (arith, last)) in
            let d = at_index (length w - 2) (t + 14) (omega (arith, last)) (omega (arith, last)) in
            ap (nth 0 (extend n v)) last
            ∙ ih.kept (length w) (omega (arith, size))
            ∙ nth-snoc w (next_word w)
            ∙ next_word-expand w
            ∙ (λ i. expand (a i) (b i) (c i) (d i))
        | inr e ↦ ih.later t (ground (arith, e, low, size)) (omega (arith, high, size))
      ];
    }

length-block_words :
    (n : ℕ) (block : List ℕ) → length block ≡ 4 * n → length (block_words block) ≡ n
unfolding block_words
length-block_words zero [] h = omega arith
length-block_words zero (a ∷ block) h = absurd (omega (arith, h))
length-block_words (suc n) [] h = absurd (omega (arith, h))
length-block_words (suc n) (a ∷ []) h = absurd (omega (arith, h))
length-block_words (suc n) (a ∷ b ∷ []) h = absurd (omega (arith, h))
length-block_words (suc n) (a ∷ b ∷ c ∷ []) h = absurd (omega (arith, h))
length-block_words (suc n) (a ∷ b ∷ c ∷ d ∷ block) h =
    omega (arith, length-block_words n block (omega (arith, h)))

nth-block_words :
    (t : ℕ) (block : List ℕ)
    → t * 4 + 3 < length block
    → nth 0 (block_words block) t
      ≡ word
          (nth 0 block (t * 4 + 0))
          (nth 0 block (t * 4 + 1))
          (nth 0 block (t * 4 + 2))
          (nth 0 block (t * 4 + 3))
unfolding block_words
nth-block_words t [] h = absurd (omega (arith, h))
nth-block_words t (a ∷ []) h = absurd (omega (arith, h))
nth-block_words t (a ∷ b ∷ []) h = absurd (omega (arith, h))
nth-block_words t (a ∷ b ∷ c ∷ []) h = absurd (omega (arith, h))
nth-block_words zero (a ∷ b ∷ c ∷ d ∷ block) h = refl
nth-block_words (suc t) (a ∷ b ∷ c ∷ d ∷ block) h =
    nth-block_words t block (omega (arith, h))
    ∙ (λ i. word (later 0 i) (later 1 i) (later 2 i) (later 3 i))
  where
    later : (k : ℕ) → nth 0 block (t * 4 + k) ≡ nth 0 (a ∷ b ∷ c ∷ d ∷ block) (suc t * 4 + k)
    later k =
        ap (nth 0 (a ∷ b ∷ c ∷ d ∷ block)) {x = suc (suc (suc (suc (t * 4 + k))))}
          {y = suc t * 4 + k} (omega arith)

transform-IsSchedule :
    (block : List ℕ) → IsBlock block → IsSchedule block (extend 48 (block_words block))
transform-IsSchedule block whole =
    let size = length-block_words 16 block (omega (arith, whole)) in
    let e = extend-IsExtended 48 (block_words block) (omega (arith, size)) in
    record {
      size = omega (arith, e.size, size);
      first = λ t h.
          e.kept t (omega (arith, size, h)) ∙ nth-block_words t block (omega (arith, whole, h));
      later = λ t h. e.later t (omega (arith, size)) (omega (arith, size, h));
    }

transform-sums :
    (s : Words) (block : List ℕ)
    → transform s block ≡ sums s (steps standard_constants (extend 48 (block_words block)) s)
unfolding transform add_words
transform-sums s block =
    let w = extend 48 (block_words block) in
    ap (sums s) (rounds-steps k_words w s ∙ ap (λ ks. steps ks w s) k_words-standard_constants)

-- The blocks are compressed as the standard says.
pub compress_all-IsHashed :
    (s : Words) (blocks : List (List ℕ))
    → All IsBlock blocks
    → IsHashed s blocks (compress_all s blocks)
compress_all-IsHashed s [] h = refl
compress_all-IsHashed s (block ∷ blocks) (whole, h) = (
  extend 48 (block_words block),
  transform-IsSchedule block whole,
  subst (λ t. IsHashed t blocks (compress_all (transform s block) blocks)) (transform-sums s block)
      (compress_all-IsHashed (transform s block) blocks h),
)
