-- ===== src/Common/Order.antt =====
-- The order of texts, and maps with their keys in order.
use Prim.Native.Nat.{ℕ, Ordering, compare as compare_ℕ}
use Prim.Native.Char.{Char, code}
use Prim.Native.String.{String, [], ◌∷◌, compare, then as lexical}
use Prim.Native.String.compare
use mathlib.Core.Path.{◌≡◌, refl, sym, ap, ◌∙◌}
use mathlib.Core.Logic.{◌⊎◌, inl, inr}
use mathlib.Core.Bool.{Bool, true, false, ◌&&◌, ◌||◌}
use native.Mathlib.Omega.{arith}
use text.Mathlib.TextPositions.{compare_refl}
use text.Mathlib.Text.{◌==◌ as str_eq}
use text.Mathlib.TextEquality.{codes_equal, eq_iff}
use mathlib.Core.Option.{none}
use mathlib.Core.List.{List}
use droneengage_common.Common.Tests.{ltb, ◌==◌, Bool-cases, if_rule}
use droneengage_common.Common.Assoc.{Assoc, lookup, insert, str_lt}

abbrev is_less : Ordering → Bool
is_less Ordering.lt = true
is_less _ = false

abbrev is_same : Ordering → Bool
is_same Ordering.eq = true
is_same _ = false

is_less-lexical : (o r : Ordering) → is_less (lexical o r) ≡ (is_less o || (is_same o && is_less r))
is_less-lexical Ordering.lt r = refl
is_less-lexical Ordering.eq r = refl
is_less-lexical Ordering.gt r = refl

str_lt-less : (s t : String) → str_lt s t ≡ is_less (compare s t)
str_lt-less s t = by_cases (compare s t)
  where
    by_cases :
        (o : Ordering) → (elim o as (λ x. Bool) [ Ordering.lt ↦ true | _ ↦ false ]) ≡ is_less o
    by_cases Ordering.lt = refl
    by_cases Ordering.eq = refl
    by_cases Ordering.gt = refl

-- By the first characters, and where they are equal by the rest.
str_lt-cons :
    (c d : Char) (s t : String)
    → str_lt (c ∷ s) (d ∷ t) ≡ (ltb (code c) (code d) || ((code c == code d) && str_lt s t))
str_lt-cons c d s t =
    str_lt-less (c ∷ s) (d ∷ t)
    ∙ ap is_less (compare.cons-cons c d s t)
    ∙ is_less-lexical (compare_ℕ (code c) (code d)) (compare s t)
    ∙ ground (arith, str_lt-less s t)

str_lt-nil-cons : (d : Char) (t : String) → str_lt [] (d ∷ t) ≡ true
str_lt-nil-cons d t = str_lt-less [] (d ∷ t) ∙ ap is_less (compare.nil-cons d t)

str_lt-cons-nil : (c : Char) (s : String) → str_lt (c ∷ s) [] ≡ false
str_lt-cons-nil c s = str_lt-less (c ∷ s) [] ∙ ap is_less (compare.cons-nil c s)

pub str_lt_irrefl : (s : String) → str_lt s s ≡ false
str_lt_irrefl s = str_lt-less s s ∙ ap is_less (compare_refl s)

joined :
    (d e f : ℕ) (x y z : Bool)
    → (ltb d e || ((d == e) && x)) ≡ true
    → (ltb e f || ((e == f) && y)) ≡ true
    → (x ≡ true → y ≡ true → z ≡ true)
    → (ltb d f || ((d == f) && z)) ≡ true
joined d e f x y z p q r = ground (arith, p, q, r)

pub str_lt_trans : (a b c : String) → str_lt a b ≡ true → str_lt b c ≡ true → str_lt a c ≡ true
str_lt_trans a [] [] h k = absurd (ground (arith, k))
str_lt_trans [] [] (e ∷ c) h k = absurd (ground (arith, h))
str_lt_trans (d ∷ a) [] (e ∷ c) h k = absurd (ground (arith, h, str_lt-cons-nil d a))
str_lt_trans a (e ∷ b) [] h k = absurd (ground (arith, k, str_lt-cons-nil e b))
str_lt_trans [] (e ∷ b) (f ∷ c) h k = str_lt-nil-cons f c
str_lt_trans (d ∷ a) (e ∷ b) (f ∷ c) h k =
    let p = sym (str_lt-cons d e a b) ∙ h in
    let q = sym (str_lt-cons e f b c) ∙ k in
    str_lt-cons d f a c
    ∙ joined (code d) (code e) (code f) (str_lt a b) (str_lt b c) (str_lt a c) p q
        (str_lt_trans a b c)

-- One of two texts that differ is the smaller one.
pub str_lt_total : (a b : String) → (a ≡ b) ⊎ ((str_lt a b ≡ true) ⊎ (str_lt b a ≡ true))
str_lt_total [] [] = inl refl
str_lt_total [] (d ∷ b) = inr (inl (str_lt-nil-cons d b))
str_lt_total (c ∷ a) [] = inr (inr (str_lt-nil-cons c a))
str_lt_total (c ∷ a) (d ∷ b) = elim (Bool-cases (ltb (code c) (code d))) [
  | inl e ↦ inr (inl (str_lt-cons c d a b ∙ ground (arith, e)))
  | inr e ↦ elim (Bool-cases (ltb (code d) (code c))) [
    | inl f ↦ inr (inr (str_lt-cons d c b a ∙ ground (arith, f)))
    | inr f ↦ elim (str_lt_total a b) [
      | inl p ↦
          let same : compare_ℕ (code c) (code d) ≡ Ordering.eq = ground (arith, e, f) in
          inl (λ i. codes_equal c d same i ∷ p i)
      | inr (inl p) ↦ inr (inl (str_lt-cons c d a b ∙ ground (arith, e, f, p)))
      | inr (inr p) ↦ inr (inr (str_lt-cons d c b a ∙ ground (arith, e, f, p)))
    ]
  ]
]

module _ {ℓ} {V : Type ℓ} where
  -- Every key is behind the one that is given.
  abbrev pub IsAbove : String → Assoc V → Type 0
  IsAbove key List.[] = Unit
  IsAbove key (List.◌∷◌ (k, v) m) = (str_lt key k ≡ true) × IsAbove key m

  -- The keys are in order, and differ.
  abbrev pub IsSorted : Assoc V → Type 0
  IsSorted List.[] = Unit
  IsSorted (List.◌∷◌ (k, v) m) = IsAbove k m × IsSorted m

  IsAbove-trans : (a b : String) (m : Assoc V) → str_lt a b ≡ true → IsAbove b m → IsAbove a m
  IsAbove-trans a b List.[] h k = tt
  IsAbove-trans a b (List.◌∷◌ (j, v) m) h (x, k) = (str_lt_trans a b j h x, IsAbove-trans a b m h k)

  pub lookup-IsAbove : (k : String) (m : Assoc V) → IsAbove k m → lookup k m ≡ none
  unfolding lookup
  lookup-IsAbove k List.[] h = refl
  lookup-IsAbove k (List.◌∷◌ (j, v) m) (x, h) = elim (Bool-cases (str_eq j k)) [
    | inl e ↦
        let z : false ≡ true = sym (str_lt_irrefl k) ∙ ap (str_lt k) (sym ((eq_iff j k).0 e)) ∙ x in
        absurd (ground (arith, z))
    | inr e ↦ rw e (lookup-IsAbove k m h)
  ]

  insert-IsAbove :
      (key k : String) (v : V) (m : Assoc V)
      → str_lt key k ≡ true
      → IsAbove key m
      → IsAbove key (insert k v m)
  unfolding insert
  insert-IsAbove key k v List.[] h a = (h, tt)
  insert-IsAbove key k v (List.◌∷◌ (j, w) m) h (x, a) =
      if_rule (IsAbove key) (str_eq j k) _ _ (λ e. (x, a))
        (λ e.
          if_rule (IsAbove key) (str_lt k j) _ _ (λ f. (h, (x, a)))
            (λ f. (x, insert-IsAbove key k v m h a)))

  pub insert-IsSorted : (k : String) (v : V) (m : Assoc V) → IsSorted m → IsSorted (insert k v m)
  unfolding insert
  insert-IsSorted k v List.[] h = (tt, tt)
  insert-IsSorted k v (List.◌∷◌ (j, w) m) (a, h) =
      if_rule IsSorted (str_eq j k) _ _ (λ e. (a, h))
        (λ e.
          if_rule IsSorted (str_lt k j) _ _ (λ f. ((f, IsAbove-trans k j m f a), (a, h)))
            (λ f. (insert-IsAbove j k v m (behind j k e f) a, insert-IsSorted k v m h)))
    where
      behind : (j k : String) → str_eq j k ≡ false → str_lt k j ≡ false → str_lt j k ≡ true
      behind j k e f = elim (str_lt_total j k) [
        | inl p ↦ absurd (ground (arith, e, (eq_iff j k).1 p))
        | inr (inl p) ↦ p
        | inr (inr p) ↦ absurd (ground (arith, f, p))
      ]
