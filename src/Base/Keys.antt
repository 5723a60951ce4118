-- ===== src/Base/Keys.antt =====
-- Keys: a type with a Boolean test that decides equality.
use Prim.Native.Nat.{ℕ}
use Prim.Native.String.{String}
use mathlib.Core.Path.{◌≡◌, refl}
use mathlib.Core.Logic.{◌↔◌}
use mathlib.Core.Bool.{Bool, true}
use text.Mathlib.Text.{◌==◌ as str_eq}
use text.Mathlib.TextEquality.{eq_iff}
use d_utils.Base.Tests.{nat_eqb, nat_eqb_iff}

pub record Keyed {ℓ} (K : Type ℓ) : Type ℓ where
  pub same_key : K → K → Bool
  pub same_key_iff : (j k : K) → (same_key j k ≡ true) ↔ (j ≡ k)

instance abbrev pub string_key : Keyed String
string_key = record { same_key_iff = eq_iff; same_key = str_eq }

instance abbrev pub nat_key : Keyed ℕ
nat_key = record { same_key_iff = nat_eqb_iff; same_key = nat_eqb }

module _ {ℓ} {K : Type ℓ} ⦃keyed : Keyed K⦄ where
  infix 50 ◌==◌
  abbrev pub ◌==◌ : K → K → Bool
  j == k = keyed.same_key j k

  pub same_key_refl : (k : K) → (k == k) ≡ true
  same_key_refl k = (keyed.same_key_iff k k).1 refl
