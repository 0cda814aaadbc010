-- ===== src/Track/Indices.antt =====
-- The index lists of `TrackManager::update` of helpers/track_manager.hpp.
use droneengage_common.Common.{
  ℕ, zero, suc, ◌+◌, ◌<◌, ◌≡◌, Bool, true, List, [], ◌∷◌, arith, length, nth, Bool-cases, ltb, inl,
  inr,
}
use droneengage_common.Track.Associate.{indices}

module _ {A : Type 0} (p : A → Bool) (fallback : A) where
  -- The `k`-th index of the list names a member that passes the test.
  pub record IsIndex (xs : List A) (i k : ℕ) : Type 0 where
    pub place : ℕ
    pub read : nth 0 (indices p i xs) k ≡ i + place
    pub inside : place < length xs
    pub passes : p (nth fallback xs place) ≡ true

  IsIndex-later :
      (x : A) (xs : List A) (i k l : ℕ)
      → nth 0 (indices p i (x ∷ xs)) k ≡ nth 0 (indices p (suc i) xs) l
      → IsIndex xs (suc i) l
      → IsIndex (x ∷ xs) i k
  IsIndex-later x xs i k l h a = record {
    place = suc a.place;
    read = omega (arith, h, a.read);
    inside = omega (arith, a.inside);
    passes = a.passes;
  }

  IsIndex-here : (x : A) (xs : List A) (i : ℕ) → p x ≡ true → IsIndex (x ∷ xs) i 0
  unfolding indices
  IsIndex-here x xs i e = record {
    place = 0;
    read = ground (arith, e);
    inside = omega arith;
    passes = e;
  }

  pub indices-IsIndex : (xs : List A) (i k : ℕ) → k < length (indices p i xs) → IsIndex xs i k
  unfolding indices
  indices-IsIndex [] i k h = absurd (omega arith)
  indices-IsIndex (x ∷ xs) i zero h = elim (Bool-cases (p x)) [
    | inl e ↦ IsIndex-here x xs i e
    | inr e ↦
        IsIndex-later x xs i 0 0 (ground (arith, e))
          (indices-IsIndex xs (suc i) 0 (ground (arith, e)))
  ]
  indices-IsIndex (x ∷ xs) i (suc k) h = elim (Bool-cases (p x)) [
    | inl e ↦
        IsIndex-later x xs i (suc k) k (ground (arith, e))
          (indices-IsIndex xs (suc i) k (ground (arith, e)))
    | inr e ↦
        IsIndex-later x xs i (suc k) (suc k) (ground (arith, e))
          (indices-IsIndex xs (suc i) (suc k) (ground (arith, e)))
  ]

  ascends :
      (xs : List A) (i k l : ℕ)
      → k < l
      → l < length (indices p i xs)
      → nth 0 (indices p i xs) k < nth 0 (indices p i xs) l
  unfolding indices
  ascends [] i k l h g = absurd (omega arith)
  ascends (x ∷ xs) i k zero h g = absurd (omega arith)
  ascends (x ∷ xs) i zero (suc l) h g = elim (Bool-cases (p x)) [
    | inl e ↦ rw e (omega (arith, (indices-IsIndex xs (suc i) l (ground (arith, e))).read))
    | inr e ↦ rw e (ascends xs (suc i) 0 (suc l) h (ground (arith, e)))
  ]
  ascends (x ∷ xs) i (suc k) (suc l) h g = elim (Bool-cases (p x)) [
    | inl e ↦ rw e (ascends xs (suc i) k l (omega arith) (ground (arith, e)))
    | inr e ↦ rw e (ascends xs (suc i) (suc k) (suc l) h (ground (arith, e)))
  ]

  pub indices-injective :
      (xs : List A) (i k l : ℕ)
      → k < length (indices p i xs)
      → l < length (indices p i xs)
      → nth 0 (indices p i xs) k ≡ nth 0 (indices p i xs) l
      → k ≡ l
  indices-injective xs i k l hk hl e = elim (Bool-cases (ltb k l)) [
    | inl h ↦ absurd (omega (arith, e, ascends xs i k l (ground (arith, h)) hl))
    | inr h ↦ elim (Bool-cases (ltb l k)) [
      | inl g ↦ absurd (omega (arith, e, ascends xs i l k (ground (arith, g)) hk))
      | inr g ↦ ground (arith, h, g)
    ]
  ]
