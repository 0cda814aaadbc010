-- ===== src/Common/Options.antt =====
-- What a chain of `Option` results that succeeds says of its first result.
use mathlib.Core.Path.{◌≡◌, refl, ap}
use mathlib.Core.Logic.{◌⊎◌, inl, inr}
use mathlib.Core.Option.{Option, none, some}
use native.Mathlib.Omega.{arith}

module _ {ℓ κ} {A : Type ℓ} {B : Type κ} where
  abbrev pub on_some : Option A → (A → Option B) → Option B
  on_some w k = elim w [ none ↦ none | some x ↦ k x ]

  pub on_some-inverse :
      (w : Option A) (k : A → Option B) (t : B)
      → on_some w k ≡ some t
      → (x : A) × (w ≡ some x) × (k x ≡ some t)
  on_some-inverse none k t h = absurd (ground arith)
  on_some-inverse (some x) k t h = (x, refl, h)

pub option_cases {ℓ} : {A : Type ℓ} (w : Option A) → (w ≡ none) ⊎ ((x : A) × (w ≡ some x))
option_cases none = inl refl
option_cases (some x) = inr (x, refl)

-- A chain of results with an error on the left.
module _ {ℓ κ μ} {E : Type ℓ} {A : Type κ} {B : Type μ} where
  abbrev pub on_right : E ⊎ A → (A → E ⊎ B) → E ⊎ B
  on_right w k = elim w [ inl e ↦ inl e | inr x ↦ k x ]

  pub on_right-step : (w : E ⊎ A) (x : A) (k : A → E ⊎ B) → w ≡ inr x → on_right w k ≡ k x
  on_right-step w x k h = ap (λ y. on_right y k) h

  pub on_right-inverse :
      (w : E ⊎ A) (k : A → E ⊎ B) (t : B)
      → on_right w k ≡ inr t
      → (x : A) × (w ≡ inr x) × (k x ≡ inr t)
  on_right-inverse (inl e) k t h = absurd (ground arith)
  on_right-inverse (inr x) k t h = (x, refl, h)
