-- ===== src/Debug/Sizes.antt =====
-- debug/debug.go: `formatSize` and `addCommas`.
use d_utils.Base.{
  ℕ, zero, suc, ◌+◌, ◌-◌, ◌*◌, ◌/◌, ◌%◌, ◌^◌, ◌≤◌, ◌<◌, ◌≡◌, refl, ap, ◌∙◌, [], ◌∷◌, ◌++◌, Option,
  none, some, leb, ltb, if◌then◌else◌, length, length-append, drop, get_elem?, get_elem?-some_of_lt,
  true, false, arith, Bool-cases, inl, inr,
}
use native.Mathlib.Nat.{pow-suc, mul-le-mul_right, pow-le-pow_right}
use d_utils.Base.Outcome.{Outcome, returns, panics}
use d_utils.Base.Text.{Text, codes}
use d_utils.Base.Decimal.{digits}

-- The arguments of the two calls of `Sprintf`: `scaled n d c` is n / d to one decimal, with the letter
-- of the unit.
pub data SizeText : Type 0 where
  plain : ℕ → SizeText
  scaled : ℕ → ℕ → ℕ → SizeText

-- The loop: `div`, in 64 bits, and `exp` behind it.
unfoldable pub scale : ℕ → ℕ → ℕ → ℕ → ℕ × ℕ
scale zero n div exp = (div, exp)
scale (suc fuel) n div exp =
    let rest = scale fuel (n / 1024) (div * 1024 % 2 ^ 64) (suc exp) in
    if leb 1024 n then rest else (div, exp)

abbrev with_letter : ℕ → ℕ → Option ℕ → Outcome SizeText
with_letter size div none = panics
with_letter size div (some c) = returns (scaled size div c)

-- `"KMGTPE"[exp]` panics out of range.
unfoldable pub format_size : ℕ → Outcome SizeText
format_size size =
    let r = scale 7 (size / 1024) 1024 0 in
    if ltb size 1024
    then returns (plain size)
    else with_letter size r.0 (get_elem? (codes "KMGTPE") r.1)

-- The recursion is on the number of digits, so that the second call is the last.
unfoldable pub add_commas : ℕ → ℕ → Text
add_commas zero n = digits 20 n
add_commas (suc fuel) n =
    let str = digits 20 n in
    let rest = add_commas fuel (length str - 3) in
    if leb (length str) 3 then str else rest ++ (b',' ∷ drop (length str - 3) str)

-- The unit divides the size less than 1024 times.
abbrev IsUnit : ℕ → ℕ × ℕ → Type 0
IsUnit size r = (r.0 ≡ 1024 ^ suc (r.1)) × (r.0 ≤ size) × (size < 1024 * r.0)

scale-IsUnit :
    (fuel size n div exp : ℕ)
    → div ≡ 1024 ^ suc exp
    → n * div ≤ size
    → size < suc n * div
    → 1 ≤ n
    → n < 1024 ^ fuel
    → size < 2 ^ 64
    → IsUnit size (scale fuel n div exp)
unfolding scale
scale-IsUnit zero size n div exp unit low high some_left fits bound = absurd (omega arith)
scale-IsUnit (suc fuel) size n div exp unit low high some_left fits bound =
    elim (Bool-cases (leb 1024 n)) [
      | inr last ↦
          let few : suc n ≤ 1024 = ground arith in
          rw last (
            unit,
            omega (arith, low, mul-le-mul_right div some_left),
            omega (arith, high, mul-le-mul_right div few),
          )
      | inl more ↦
          let q = n / 1024 in
          let many : 1024 ≤ n = ground arith in
          let below : q * 1024 ≤ n = omega arith in
          let above : suc n ≤ suc q * 1024 = omega arith in
          let wide : div * 1024 ≤ size = omega (arith, low, mul-le-mul_right div many) in
          let fit : div * 1024 % 2 ^ 64 ≡ div * 1024 = omega (arith, wide) in
          rw (more, fit)
            (scale-IsUnit fuel size q (div * 1024) (suc exp)
              (omega (arith, unit, pow-suc 1024 (suc exp)))
              (omega (arith, low, mul-le-mul_right div below))
              (omega (arith, high, mul-le-mul_right div above)) (ground arith)
              (omega (arith, fits, pow-suc 1024 fuel)) bound)
    ]

-- The unit is one of the six that have a letter.
exponent_small : (size : ℕ) (r : ℕ × ℕ) → IsUnit size r → size < 2 ^ 64 → r.1 < 6
exponent_small size r unit bound = elim (Bool-cases (ltb (r.1) 6)) [
  | inl few ↦ ground arith
  | inr many ↦
      let h : 7 ≤ suc (r.1) = ground arith in
      let large : 1024 ^ 7 ≤ 1024 ^ suc (r.1) = pow-le-pow_right (omega arith) h in
      absurd (omega (arith, large, unit.0, unit.1, bound))
]

-- Every size of 64 bits is printed without a panic, and without an overflow of the divisor: below 1024
-- as it is, and else over the power of 1024 that it reaches and that the letter stands for, whose next
-- one is above it.
pub format_size-scaled :
    (size : ℕ)
    → size < 2 ^ 64
    → (size < 1024 → format_size size ≡ returns (plain size))
      × (1024 ≤ size
          → (exp c : ℕ) × (get_elem? (codes "KMGTPE") exp ≡ some c)
            × (format_size size ≡ returns (scaled size (1024 ^ suc exp) c))
            × (1024 ^ suc exp ≤ size)
            × (size < 1024 * 1024 ^ suc exp))
format_size-scaled size bound = (
  λ small. (unfold format_size in ground arith),
  λ large.
      let r = scale 7 (size / 1024) 1024 0 in
      let is_unit : IsUnit size r =
        scale-IsUnit 7 size (size / 1024) 1024 0 refl (omega arith) (omega arith) (omega arith)
          (omega arith) bound in
      let (c, e) =
        get_elem?-some_of_lt (codes "KMGTPE") (r.1) (exponent_small size r is_unit bound) in
      let big : ltb size 1024 ≡ false = ground arith in
      (
        r.1,
        c,
        e,
        unfold format_size in
            rw big
              (ap (with_letter size (r.0)) e ∙ ap (λ d. returns (scaled size d c)) (is_unit.0)),
        omega (arith, is_unit.0, is_unit.1),
        omega (arith, is_unit.0, is_unit.2),
      ),
)

digits_short : (fuel n k : ℕ) → n < 10 ^ suc k → length (digits fuel n) ≤ suc k
unfolding digits
digits_short zero n k h = omega arith
digits_short (suc fuel) n zero h =
    let one : ltb n 10 ≡ true = ground (arith, h) in rw one (omega arith)
digits_short (suc fuel) n (suc k) h =
    let shorter = digits_short fuel (n / 10) k (omega (arith, h, pow-suc 10 (suc k))) in
    elim (Bool-cases (ltb n 10)) [
      | inl one ↦ rw one (omega arith)
      | inr more ↦
          rw more
            (omega (arith, shorter, length-append (digits fuel (n / 10)) ((b'0' + n % 10) ∷ [])))
    ]

-- Two calls are enough for every number of 64 bits.
add_commas_twice : (fuel n : ℕ) → n < 2 ^ 64 → add_commas (suc (suc fuel)) n ≡ add_commas 2 n
unfolding add_commas
add_commas_twice fuel n h =
    let few : length (digits 20 n) ≤ 20 = digits_short 20 n 19 (omega arith) in
    let last : length (digits 20 (length (digits 20 n) - 3)) ≤ 3 =
      digits_short 20 (length (digits 20 n) - 3) 2 (omega (arith, few)) in
    let stops : leb (length (digits 20 (length (digits 20 n) - 3))) 3 ≡ true =
      ground (arith, last) in
    rw stops refl
