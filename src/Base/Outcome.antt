-- ===== src/Base/Outcome.antt =====
-- What a Go function does at run time: it returns a value, or it panics (a slice index out of range,
-- a closed channel closed again).
use d_utils.Base.{◌≡◌, refl, ◌⊎◌, inl, inr}

pub data Outcome {ℓ} (A : Type ℓ) : Type ℓ where
  returns : A → Outcome A
  panics : Outcome A

infixl 5 ◌>>=◌
abbrev pub ◌>>=◌ {ℓ κ} : {A : Type ℓ} {B : Type κ} → Outcome A → (A → Outcome B) → Outcome B
returns a >>= f = f a
panics >>= f = panics

pub returns_inj {ℓ} : {A : Type ℓ} (x y : A) → returns x ≡ returns y → x ≡ y
returns_inj x y e = cc

pub Outcome-cases {ℓ} : {A : Type ℓ} (o : Outcome A) → (o ≡ panics) ⊎ ((x : A) × (o ≡ returns x))
Outcome-cases panics = inl refl
Outcome-cases (returns x) = inr (x, refl)
