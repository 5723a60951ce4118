-- ===== src/Base/Word.antt =====
-- `int64`: integers with the wrap-around of two's complement.
use d_utils.Base.{ℕ, ◌+◌, ◌-◌, ◌%◌, ◌≤◌, ◌<◌, ◌≡◌, arith}
use d_utils.Base.Int.{ℤ, pos, negsuc, pos_part, neg_part, sub_ℕ, ◌+ℤ◌, ◌-ℤ◌}

abbrev pub half_range : ℕ
half_range = 9_223_372_036_854_775_808

abbrev pub full_range : ℕ
full_range = 18_446_744_073_709_551_616

-- The values of `int64`.
abbrev pub InInt64 : ℤ → Type 0
InInt64 a = (pos_part a < half_range) × (neg_part a ≤ half_range)

-- The `int64` with the same low 64 bits.
unfoldable pub wrap64 : ℤ → ℤ
wrap64 a =
    sub_ℕ ((pos_part a + half_range + (full_range - neg_part a % full_range)) % full_range)
      half_range

abbrev pub max_int64 : ℤ
max_int64 = pos 9_223_372_036_854_775_807

abbrev pub min_int64 : ℤ
min_int64 = negsuc 9_223_372_036_854_775_807

-- `a + b`, `a - b` and `-a` on `int64`.
unfoldable pub add64 : ℤ → ℤ → ℤ
add64 a b = wrap64 (a +ℤ b)

unfoldable pub sub64 : ℤ → ℤ → ℤ
sub64 a b = wrap64 (a -ℤ b)

pub wrap64_of_InInt64 : (a : ℤ) → InInt64 a → wrap64 a ≡ a
unfolding wrap64
wrap64_of_InInt64 a h = ground arith

pub wrap64-InInt64 : (a : ℤ) → InInt64 (wrap64 a)
unfolding wrap64
wrap64-InInt64 a = ground arith

pub add64_exact : (a b : ℤ) → InInt64 (a +ℤ b) → add64 a b ≡ a +ℤ b
unfolding add64
add64_exact a b h = wrap64_of_InInt64 (a +ℤ b) h

pub sub64_exact : (a b : ℤ) → InInt64 (a -ℤ b) → sub64 a b ≡ a -ℤ b
unfolding sub64
sub64_exact a b h = wrap64_of_InInt64 (a -ℤ b) h
