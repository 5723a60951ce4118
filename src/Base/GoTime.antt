-- ===== src/Base/GoTime.antt =====
-- `time.Time` and `time.Duration` of Go's standard library. A time is its distance in nanoseconds
-- from the zero time (1 January of year 1, UTC); a duration is an `int64` of nanoseconds.
use d_utils.Base.{◌≡◌, arith, ℕ, ◌-◌, ◌%◌, Bool, if◌then◌else◌}
use d_utils.Base.Int.{
  ◌≤ℤ◌, -ℤ_parts, +ℤ_parts, ℤ, pos, negsuc, pos_part, ◌+ℤ◌, ◌-ℤ◌, ltb_ℤ, leb_ℤ, eqb_ℤ,
}
use d_utils.Base.Word.{InInt64, wrap64, max_int64, min_int64}

abbrev pub Time : Type 0
Time = ℤ

abbrev pub Duration : Type 0
Duration = ℤ

-- The distance from the zero time to the Unix epoch: 62135596800 seconds.
abbrev pub unix_epoch : ℤ
unix_epoch = pos 62_135_596_800_000_000_000

abbrev pub second : ℕ
second = 1_000_000_000

abbrev pub before : Time → Time → Bool
before t u = ltb_ℤ t u

abbrev pub is_zero : Time → Bool
is_zero t = eqb_ℤ t (pos 0)

unfoldable pub add : Time → Duration → Time
add t d = t +ℤ d

-- `t.Sub(u)` saturates at the ends of `int64`.
unfoldable pub sub : Time → Time → Duration
sub t u =
    let d = t -ℤ u in
    if ltb_ℤ max_int64 d then max_int64 else if ltb_ℤ d min_int64 then min_int64 else d

unfoldable pub unix_nano : Time → ℤ
unix_nano t = wrap64 (t -ℤ unix_epoch)

-- The remainder of a floored division by a positive `d`.
abbrev pub floor_mod : ℤ → ℕ → ℕ
floor_mod (pos n) d = n % d
floor_mod (negsuc n) d = d - 1 - n % d

-- `t.Truncate(d)`: rounded down to a multiple of `d` since the zero time; `t` itself for `d <= 0`.
unfoldable pub truncate : Time → Duration → Time
truncate t d = if leb_ℤ d (pos 0) then t else t -ℤ pos (floor_mod t (pos_part d))

pub sub_mono : (t u v : Time) → t ≤ℤ u → sub t v ≤ℤ sub u v
unfolding sub
sub_mono t u v h = ground (arith, -ℤ_parts t v, -ℤ_parts u v)

pub sub_self : (t : Time) → sub t t ≡ pos 0
unfolding sub ◌-ℤ◌
sub_self t = ground arith

-- Below the saturation the difference is exact.
pub sub_exact : (t u : Time) → InInt64 (t -ℤ u) → sub t u ≡ t -ℤ u
unfolding sub
sub_exact t u h = ground arith

-- An interval has passed since `t` exactly from `t.Add(interval)` on, saturation or not.
pub interval_passed :
    (t u : Time) (i : Duration) → InInt64 i → t ≤ℤ u → leb_ℤ i (sub u t) ≡ leb_ℤ (add t i) u
unfolding sub add
interval_passed t u i h o = ground (arith, -ℤ_parts u t, +ℤ_parts t i)
