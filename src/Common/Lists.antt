-- ===== src/Common/Lists.antt =====
-- Lists measured and cut by native numbers, under the library's names.
use Prim.Native.Nat.{ℕ, zero, suc, ◌+◌, ◌-◌, ◌≤◌, ◌<◌}
use mathlib.Core.Path.{◌≡◌, refl, ap, sym, subst, ◌∙◌}
use mathlib.Core.Logic.{◌≢◌, ◌⊎◌, inl, inr, Lift}
use mathlib.Core.List.{List, [], ◌∷◌, ◌++◌, append_assoc, append-nil}
use native.Mathlib.Omega.{arith}
use native.Mathlib.Nat.{zero-add, suc-add}

module _ {ℓ} {A : Type ℓ} where
  abbrev pub length : List A → ℕ
  length [] = 0
  length (x ∷ xs) = suc (length xs)

  abbrev pub take : ℕ → List A → List A
  take zero xs = []
  take (suc n) [] = []
  take (suc n) (x ∷ xs) = x ∷ take n xs

  abbrev pub drop : ℕ → List A → List A
  drop zero xs = xs
  drop (suc n) [] = []
  drop (suc n) (x ∷ xs) = drop n xs

  -- The members of a list, one after the other.
  abbrev pub flatten : List (List A) → List A
  flatten [] = []
  flatten (x ∷ xs) = x ++ flatten xs

  pub length-append : (xs ys : List A) → length (xs ++ ys) ≡ length xs + length ys
  length-append [] ys = omega arith
  length-append (x ∷ xs) ys = omega (arith, length-append xs ys)

  pub take-append-drop : (n : ℕ) (xs : List A) → take n xs ++ drop n xs ≡ xs
  take-append-drop zero xs = refl
  take-append-drop (suc n) [] = refl
  take-append-drop (suc n) (x ∷ xs) = ap (◌∷◌ x) (take-append-drop n xs)

  pub take-add : (n k : ℕ) (xs : List A) → take (n + k) xs ≡ take n xs ++ take k (drop n xs)
  take-add zero k xs = rw zero-add
  take-add (suc n) k [] = rw suc-add (ends k)
    where
      ends : (k : ℕ) → ◌≡◌ {A = List A} [] (take k [])
      ends zero = refl
      ends (suc k) = refl
  take-add (suc n) k (x ∷ xs) = rw suc-add (ap (◌∷◌ x) (take-add n k xs))

  pub length-drop : (n : ℕ) (xs : List A) → length (drop n xs) ≡ length xs - n
  length-drop zero xs = omega arith
  length-drop (suc n) [] = omega arith
  length-drop (suc n) (x ∷ xs) = omega (arith, length-drop n xs)

  pub take-eq_of_le : (n : ℕ) (xs : List A) → length xs ≤ n → take n xs ≡ xs
  take-eq_of_le zero [] h = refl
  take-eq_of_le zero (x ∷ xs) h = absurd (omega arith)
  take-eq_of_le (suc n) [] h = refl
  take-eq_of_le (suc n) (x ∷ xs) h = ap (◌∷◌ x) (take-eq_of_le n xs (omega arith))

  pub length-take-le : (n : ℕ) (xs : List A) → length (take n xs) ≤ n
  length-take-le zero xs = omega arith
  length-take-le (suc n) [] = omega arith
  length-take-le (suc n) (x ∷ xs) = omega (arith, length-take-le n xs)

  pub length-ne_zero : (xs : List A) → xs ≢ [] → 0 < length xs
  length-ne_zero [] h = absurd (h refl)
  length-ne_zero (x ∷ xs) h = omega arith

  pub flatten-append : (xs ys : List (List A)) → flatten (xs ++ ys) ≡ flatten xs ++ flatten ys
  flatten-append [] ys = refl
  flatten-append (x ∷ xs) ys = ap (◌++◌ x) (flatten-append xs ys) ∙ sym (append_assoc x _ _)

  pub flatten-snoc : (xs : List (List A)) (y : List A) → flatten (xs ++ y ∷ []) ≡ flatten xs ++ y
  flatten-snoc xs y = flatten-append xs (y ∷ []) ∙ ap (◌++◌ (flatten xs)) (append-nil y)

  -- `All P xs`: every member satisfies `P`.
  abbrev pub All {κ} : (A → Type κ) → List A → Type κ
  All P [] = Unit {κ}
  All P (x ∷ xs) = P x × All P xs

  -- `xs[n]`, and out of range the default.
  abbrev pub nth : A → List A → ℕ → A
  nth a [] n = a
  nth a (x ∷ xs) zero = x
  nth a (x ∷ xs) (suc n) = nth a xs n

  -- `xs[n] = f (xs[n])`, and out of range nothing.
  abbrev pub modify_nth : (A → A) → ℕ → List A → List A
  modify_nth f n [] = []
  modify_nth f zero (x ∷ xs) = f x ∷ xs
  modify_nth f (suc n) (x ∷ xs) = x ∷ modify_nth f n xs

  abbrev pub IsIn : A → List A → Type ℓ
  IsIn x [] = Lift {0, ℓ} ⊥
  IsIn x (y ∷ ys) = (x ≡ y) ⊎ IsIn x ys

  pub All-append {κ} : (P : A → Type κ) (xs ys : List A) → All P xs → All P ys → All P (xs ++ ys)
  All-append P [] ys a b = b
  All-append P (x ∷ xs) ys (h, a) b = (h, All-append P xs ys a b)

  pub All-map {κ κ'} :
      (P : A → Type κ) (Q : A → Type κ') (xs : List A) → ((x : A) → P x → Q x) → All P xs → All Q xs
  All-map P Q [] f a = tt
  All-map P Q (x ∷ xs) f (h, a) = (f x h, All-map P Q xs f a)

  pub IsIn-nth : (a : A) (xs : List A) (n : ℕ) → n < length xs → IsIn (nth a xs n) xs
  IsIn-nth a [] n h = absurd (omega arith)
  IsIn-nth a (x ∷ xs) zero h = inl refl
  IsIn-nth a (x ∷ xs) (suc n) h = inr (IsIn-nth a xs n (omega arith))

  pub all-IsIn {κ} : (P : A → Type κ) (xs : List A) → All P xs → (x : A) → IsIn x xs → P x
  all-IsIn P [] a x i = absurd i.lower
  all-IsIn P (y ∷ xs) (h, a) x (inl e) = subst P (sym e) h
  all-IsIn P (y ∷ xs) (h, a) x (inr i) = all-IsIn P xs a x i

  pub IsIn-append_left : (x : A) (xs ys : List A) → IsIn x xs → IsIn x (xs ++ ys)
  IsIn-append_left x [] ys i = absurd i.lower
  IsIn-append_left x (y ∷ xs) ys (inl e) = inl e
  IsIn-append_left x (y ∷ xs) ys (inr i) = inr (IsIn-append_left x xs ys i)

  pub IsIn-append_right : (x : A) (xs ys : List A) → IsIn x ys → IsIn x (xs ++ ys)
  IsIn-append_right x [] ys i = i
  IsIn-append_right x (y ∷ xs) ys i = inr (IsIn-append_right x xs ys i)
