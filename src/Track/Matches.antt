-- ===== src/Track/Matches.antt =====
-- The association of `TrackManager::update` of helpers/track_manager.hpp: who is matched with whom.
use droneengage_common.Common.{
  ℕ, ◌≡◌, ◌⊎◌, inl, inr, true, false, some, arith, ◌==◌, Bool-cases, subst, sym,
}
use droneengage_common.Track.Assign.{update_at}
use droneengage_common.Track.Associate.{Association}

-- The two vectors of the association agree: a track is matched exactly if one detection has it, and
-- what has been matched satisfies `P`.
pub record IsAssociated (P : (d t : ℕ) → Type 0) (s : Association) : Type 0 where
  pub valid : (d t : ℕ) → s.det_track d ≡ some t → P d t
  pub once : (d e t : ℕ) → s.det_track d ≡ some t → s.det_track e ≡ some t → d ≡ e
  pub marked : (d t : ℕ) → s.det_track d ≡ some t → s.track_matched t ≡ true
  pub has : (t : ℕ) → s.track_matched t ≡ true → (d : ℕ) × (s.det_track d ≡ some t)

abbrev pub match_pair : Association → (d t : ℕ) → Association
match_pair s d t = record {
  det_track = update_at s.det_track d (some t);
  track_matched = update_at s.track_matched t true;
}

module _ (P Q : (d t : ℕ) → Type 0) (s : Association) (a : IsAssociated P s)
    (weaker : (d t : ℕ) → P d t → Q d t) where
  pub weaken-IsAssociated : IsAssociated Q s
  weaken-IsAssociated = record {
    valid = λ d t e. weaker d t (a.valid d t e);
    once = a.once;
    marked = a.marked;
    has = a.has;
  }

  module _ (d t : ℕ) (new_d : (k : ℕ) → P d k → ⊥) (new_t : (k : ℕ) → P k t → ⊥) (q : Q d t) where
    match_pair-cases :
        (e k : ℕ)
        → (match_pair s d t).det_track e ≡ some k
        → ((e ≡ d) × (t ≡ k)) ⊎ (((e == d) ≡ false) × (s.det_track e ≡ some k))
    match_pair-cases e k h = elim (Bool-cases (e == d)) [
      | inl g ↦ inl (ground (arith, g), ground (arith, g, h))
      | inr g ↦ inr (g, ground (arith, g, h))
    ]

    once_after :
        (e f k : ℕ)
        → ((e ≡ d) × (t ≡ k)) ⊎ (((e == d) ≡ false) × (s.det_track e ≡ some k))
        → ((f ≡ d) × (t ≡ k)) ⊎ (((f == d) ≡ false) × (s.det_track f ≡ some k))
        → e ≡ f
    once_after e f k (inl (g, h)) (inl (i, j)) = omega arith
    once_after e f k (inl (g, h)) (inr (i, j)) =
        absurd (new_t f (subst (P f) (sym h) (a.valid f k j)))
    once_after e f k (inr (g, h)) (inl (i, j)) =
        absurd (new_t e (subst (P e) (sym j) (a.valid e k h)))
    once_after e f k (inr (g, h)) (inr (i, j)) = a.once e f k h j

    has_after :
        (k : ℕ)
        → (match_pair s d t).track_matched k ≡ true
        → (e : ℕ) × ((match_pair s d t).det_track e ≡ some k)
    has_after k h = elim (Bool-cases (k == t)) [
      | inl g ↦ (d, ground (arith, g))
      | inr g ↦ old (a.has k (ground (arith, g, h)))
    ]
      where
        old :
            ((e : ℕ) × (s.det_track e ≡ some k))
            → (e : ℕ) × ((match_pair s d t).det_track e ≡ some k)
        old (e, h) = elim (Bool-cases (e == d)) [
          | inl g ↦ absurd (new_d k (subst (λ i. P i k) (ground (arith, g)) (a.valid e k h)))
          | inr g ↦ (e, ground (arith, g, h))
        ]

    -- A new pair.
    pub match_pair-IsAssociated : IsAssociated Q (match_pair s d t)
    match_pair-IsAssociated = record {
      valid = λ e k h. elim (match_pair-cases e k h) [
        | inl (g, i) ↦ subst (λ x. Q x k) (sym g) (subst (Q d) i q)
        | inr (g, i) ↦ weaker e k (a.valid e k i)
      ];
      once = λ e f k h g. once_after e f k (match_pair-cases e k h) (match_pair-cases f k g);
      marked = λ e k h. elim (match_pair-cases e k h) [
        | inl (g, i) ↦ ground (arith, i)
        | inr (g, i) ↦ ground (arith, a.marked e k i)
      ];
      has = has_after;
    }
