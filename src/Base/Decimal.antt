-- ===== src/Base/Decimal.antt =====
-- `strconv.FormatInt` and `strconv.ParseInt` to base 10, for `int64`.
use d_utils.Base.{
  ℕ, zero, suc, ◌+◌, ◌-◌, ◌*◌, ◌/◌, ◌%◌, ◌^◌, ◌≤◌, ◌<◌, ◌≡◌, ◌≢◌, refl, ◌∙◌, ◌&&◌, [], ◌∷◌, ◌++◌,
  Option, none, some, leb, ltb, nat_eqb, if◌then◌else◌, All, All-append, arith, Bool-cases, inl,
  inr,
}
use mathlib.Core.List.{cons-ne-nil, concat-ne-nil}
use native.Mathlib.Nat.{pow-suc}
use d_utils.Base.Int.{ℤ, pos, negsuc}
use d_utils.Base.Word.{InInt64, half_range}
use d_utils.Base.Text.{Text, Lacks}

-- The digits of a number, given at least as many rounds as it has digits.
unfoldable pub digits : ℕ → ℕ → Text
digits zero n = []
digits (suc fuel) n =
    let high = digits fuel (n / 10) in
    if ltb n 10 then (b'0' + n) ∷ [] else high ++ ((b'0' + n % 10) ∷ [])

-- A 64-bit number has at most 20 digits.
unfoldable pub format_int : ℤ → Text
format_int (pos n) = digits 20 n
format_int (negsuc n) = b'-' ∷ digits 20 (suc n)

-- The value of a text of digits, behind the digits of `n`.
unfoldable pub scan : Text → ℕ → Option ℕ
scan [] n = some n
scan (c ∷ s) n =
    let rest = scan s (n * 10 + (c - b'0')) in if leb b'0' c && leb c b'9' then rest else none

-- `ParseUint` refuses the empty text.
abbrev unsigned : Text → Option ℕ
unsigned [] = none
unsigned (c ∷ s) = scan (c ∷ s) 0

abbrev positive : Option ℕ → Option ℤ
positive none = none
positive (some n) = if ltb n half_range then some (pos n) else none

-- `-n`, for `n` up to the size of the least `int64`.
abbrev negative : Option ℕ → Option ℤ
negative none = none
negative (some zero) = some (pos 0)
negative (some (suc n)) = if ltb n half_range then some (negsuc n) else none

-- `none` is an error, of the syntax or of the range.
unfoldable pub parse_int : Text → Option ℤ
parse_int [] = none
parse_int (c ∷ s) =
    if nat_eqb c b'+'
    then positive (unsigned s)
    else if nat_eqb c b'-'
    then negative (unsigned s)
    else positive (unsigned (c ∷ s))

scan-append : (s t : Text) (n k : ℕ) → scan s n ≡ some k → scan (s ++ t) n ≡ scan t k
unfolding scan
scan-append [] t n k h = ground arith
scan-append (c ∷ s) t n k h = ground (arith, scan-append s t (n * 10 + (c - b'0')) k)

scan-digits : (fuel n : ℕ) → n < 10 ^ fuel → scan (digits fuel n) 0 ≡ some n
unfolding digits
scan-digits zero n h = unfold scan in ground arith
scan-digits (suc fuel) n h = elim (Bool-cases (ltb n 10)) [
  | inl one ↦ rw one (unfold scan in ground arith)
  | inr more ↦ rw more (
      scan-append (digits fuel (n / 10)) _ 0 (n / 10)
        (scan-digits fuel (n / 10) (omega (arith, h, pow-suc 10 fuel)))
      ∙ unfold scan in ground arith)
]

abbrev IsDigit : ℕ → Type 0
IsDigit c = (b'0' ≤ c) × (c ≤ b'9')

digits-All : (fuel n : ℕ) → All IsDigit (digits fuel n)
unfolding digits
digits-All zero n = tt
digits-All (suc fuel) n = elim (Bool-cases (ltb n 10)) [
  | inl one ↦ rw one (ground arith)
  | inr more ↦
      rw more (All-append IsDigit (digits fuel (n / 10)) _ (digits-All fuel (n / 10)) (omega arith))
]

digits-ne-nil : (fuel n : ℕ) → digits (suc fuel) n ≢ []
unfolding digits
digits-ne-nil fuel n = elim (Bool-cases (ltb n 10)) [
  | inl one ↦ rw one (cons-ne-nil (b'0' + n) [])
  | inr more ↦ rw more (concat-ne-nil (b'0' + n % 10) (digits fuel (n / 10)))
]

-- The digits have a first one.
digits_cons : (fuel n : ℕ) → (c : ℕ) × (s : Text) × (digits (suc fuel) n ≡ c ∷ s) × IsDigit c
digits_cons fuel n = first (digits (suc fuel) n) (digits-All (suc fuel) n) (digits-ne-nil fuel n)
  where
    first : (t : Text) → All IsDigit t → t ≢ [] → (c : ℕ) × (s : Text) × (t ≡ c ∷ s) × IsDigit c
    first [] all ne = absurd (ne refl)
    first (c ∷ s) all ne = (c, s, refl, all.0)

unsigned-digits : (n : ℕ) → n < 10 ^ 20 → unsigned (digits 20 n) ≡ some n
unsigned-digits n h = let (c, s, e, d) = digits_cons 19 n in rw e (rw e at (scan-digits 20 n h))

All-Lacks : (sep : ℕ) (s : Text) → b'9' < sep → All IsDigit s → Lacks sep s
All-Lacks sep [] h all = tt
All-Lacks sep (c ∷ s) h all = (ground arith, All-Lacks sep s h all.1)

digits-Lacks : (sep fuel n : ℕ) → b'9' < sep → Lacks sep (digits fuel n)
digits-Lacks sep fuel n h = All-Lacks sep (digits fuel n) h (digits-All fuel n)

-- Every `int64` is read back from its decimal print.
pub parse_int-format_int : (n : ℤ) → InInt64 n → parse_int (format_int n) ≡ some n
unfolding format_int parse_int
parse_int-format_int (pos n) h =
    let (c, s, e, d) = digits_cons 19 n in
    rw e (ground (arith, rw e at (unsigned-digits n (omega arith))))
parse_int-format_int (negsuc n) h = rw (unsigned-digits (suc n) (omega arith)) (ground arith)

pub format_int-Lacks : (sep : ℕ) (n : ℤ) → b'9' < sep → Lacks sep (format_int n)
unfolding format_int
format_int-Lacks sep (pos n) h = digits-Lacks sep 20 n h
format_int-Lacks sep (negsuc n) h = (ground arith, digits-Lacks sep 20 (suc n) h)

All-Lacks_below : (sep : ℕ) (s : Text) → sep < b'0' → All IsDigit s → Lacks sep s
All-Lacks_below sep [] h all = tt
All-Lacks_below sep (c ∷ s) h all = (ground arith, All-Lacks_below sep s h all.1)

pub format_int-Lacks_comma : (n : ℤ) → Lacks b',' (format_int n)
unfolding format_int
format_int-Lacks_comma (pos n) = All-Lacks_below b',' (digits 20 n) (omega arith) (digits-All 20 n)
format_int-Lacks_comma (negsuc n) =
    (refl, All-Lacks_below b',' (digits 20 (suc n)) (omega arith) (digits-All 20 (suc n)))

pub format_int_cons : (n : ℤ) → (c : ℕ) × (s : Text) × (format_int n ≡ c ∷ s)
unfolding format_int
format_int_cons (pos n) = let (c, s, e, d) = digits_cons 19 n in (c, s, e)
format_int_cons (negsuc n) = (b'-', digits 20 (suc n), refl)
