-- ===== src/Base/Text.antt =====
-- Texts as lists of character codes, where the code looks inside them: `strings.Split`,
-- `strings.TrimSuffix` and `filepath.Ext` of Go's standard library.
use Prim.Native.Char.{code}
use d_utils.Base.{
  ℕ, suc, ◌+◌, ◌-◌, ◌≡◌, ◌↔◌, refl, Bool, true, false, ◌&&◌, ◌||◌, List, [], ◌∷◌, ◌++◌, String,
  nat_eqb, leb, if◌then◌else◌, length, length-append, take, drop, All, Keyed, arith,
}

abbrev pub Text : Type 0
Text = List ℕ

abbrev pub codes : String → Text
codes String.[] = []
codes (String.◌∷◌ c s) = code c ∷ codes s

abbrev pub text_eqb : Text → Text → Bool
text_eqb [] [] = true
text_eqb [] (d ∷ t) = false
text_eqb (c ∷ s) [] = false
text_eqb (c ∷ s) (d ∷ t) = nat_eqb c d && text_eqb s t

pub text_eqb_iff : (s t : Text) → (text_eqb s t ≡ true) ↔ (s ≡ t)
text_eqb_iff [] [] = (λ _. refl, λ _. refl)
text_eqb_iff [] (d ∷ t) = (λ h. cc, λ h. cc)
text_eqb_iff (c ∷ s) [] = (λ h. cc, λ h. cc)
text_eqb_iff (c ∷ s) (d ∷ t) = ground (arith, text_eqb_iff s t)

instance abbrev pub text_key : Keyed Text
text_key = record { same_key = text_eqb; same_key_iff = text_eqb_iff }

-- `c` in front of the first part.
abbrev onto_first : ℕ → List Text → List Text
onto_first c [] = (c ∷ []) ∷ []
onto_first c (p ∷ ps) = (c ∷ p) ∷ ps

unfoldable pub split : ℕ → Text → List Text
split sep [] = [] ∷ []
split sep (c ∷ s) = let rest = split sep s in if nat_eqb c sep then [] ∷ rest else onto_first c rest

-- `strings.TrimSuffix(s, suffix)`
unfoldable pub trim_suffix : Text → Text → Text
trim_suffix suffix s =
    let n = length s - length suffix in
    if leb (length suffix) (length s) && text_eqb (drop n s) suffix then take n s else s

-- `filepath.Ext` of a name without a slash: from the last dot on, and nothing without one.
unfoldable pub ext : Text → Text
ext [] = []
ext (c ∷ s) = elim (ext s) [ d ∷ e ↦ d ∷ e | [] ↦ if nat_eqb c b'.' then c ∷ s else [] ]

abbrev pub Lacks : ℕ → Text → Type 0
Lacks sep = All (λ c. nat_eqb c sep ≡ false)

pub split-append :
    (sep : ℕ) (p s : Text) → Lacks sep p → split sep (p ++ (sep ∷ s)) ≡ p ∷ split sep s
unfolding split
split-append sep [] s h = ground arith
split-append sep (c ∷ p) s h = rw (h.0, split, split-append sep p s h.1) refl

pub split_one : (sep : ℕ) (p : Text) → Lacks sep p → split sep p ≡ p ∷ []
unfolding split
split_one sep [] h = refl
split_one sep (c ∷ p) h = ground (arith, split_one sep p h.1, h.0)

length-onto_first :
    (c : ℕ) (ps : List Text) (n : ℕ) → length ps ≡ suc n → length (onto_first c ps) ≡ suc n
length-onto_first c [] n h = ground arith
length-onto_first c (p ∷ ps) n h = h

-- How often the separator stands in a text.
abbrev pub count : ℕ → Text → ℕ
count sep [] = 0
count sep (c ∷ s) = (if nat_eqb c sep then 1 else 0) + count sep s

pub length-split : (sep : ℕ) (s : Text) → length (split sep s) ≡ suc (count sep s)
unfolding split
length-split sep [] = refl
length-split sep (c ∷ s) =
    ground (arith, length-split sep s, length-onto_first c (split sep s) (count sep s))

pub count-append : (sep : ℕ) (s t : Text) → count sep (s ++ t) ≡ count sep s + count sep t
count-append sep [] t = omega arith
count-append sep (c ∷ s) t = omega (arith, count-append sep s t)

drop-append : (s t : Text) → drop (length s) (s ++ t) ≡ t
drop-append [] t = refl
drop-append (c ∷ s) t = drop-append s t

take-append : (s t : Text) → take (length s) (s ++ t) ≡ s
take-append [] t = refl
take-append (c ∷ s) t = rw (take-append s t) refl

pub trim_suffix-append : (s t : Text) → trim_suffix t (s ++ t) ≡ s
unfolding trim_suffix
trim_suffix-append s t =
    let n : length (s ++ t) - length t ≡ length s = omega (arith, length-append s t) in
    let fits : leb (length t) (length (s ++ t)) ≡ true = ground (arith, length-append s t) in
    let ends : text_eqb (drop (length s) (s ++ t)) t ≡ true =
      (text_eqb_iff (drop (length s) (s ++ t)) t).1 (drop-append s t) in
    rw (n, fits, ends) (take-append s t)

pub ext-append : (s : Text) (d : ℕ) (e t : Text) → ext t ≡ d ∷ e → ext (s ++ t) ≡ d ∷ e
unfolding ext
ext-append [] d e t h = h
ext-append (c ∷ s) d e t h = rw (ext-append s d e t h) refl

-- `unicode.IsSpace`
abbrev pub is_space : ℕ → Bool
is_space c =
    leb 0x9 c && leb c 0xd
    || nat_eqb c 0x20
    || nat_eqb c 0x85
    || nat_eqb c 0xa0
    || nat_eqb c 0x1680
    || leb 0x2000 c && leb c 0x200a
    || nat_eqb c 0x2028
    || nat_eqb c 0x2029
    || nat_eqb c 0x202f
    || nat_eqb c 0x205f
    || nat_eqb c 0x3000

unfoldable pub trim_left : Text → Text
trim_left [] = []
trim_left (c ∷ s) = let rest = trim_left s in if is_space c then rest else c ∷ s

unfoldable pub trim_right : Text → Text
trim_right [] = []
trim_right (c ∷ s) = elim (trim_right s) [
  | d ∷ t ↦ c ∷ (d ∷ t)
  | [] ↦ if is_space c then [] else c ∷ []
]

-- `strings.TrimSpace`
abbrev pub trim_space : Text → Text
trim_space s = trim_right (trim_left s)

-- A text without spaces has nothing to trim.
pub trim_space_plain : (s : Text) → All (λ c. is_space c ≡ false) s → trim_space s ≡ s
unfolding trim_left trim_right
trim_space_plain s h = rw (left s h) (right s h)
  where
    left : (s : Text) → All (λ c. is_space c ≡ false) s → trim_left s ≡ s
    left [] h = refl
    left (c ∷ s) h = rw (left s h.1, h.0) refl

    right : (s : Text) → All (λ c. is_space c ≡ false) s → trim_right s ≡ s
    right [] h = refl
    right (c ∷ []) h = rw (h.0) refl
    right (c ∷ (d ∷ s)) h = rw (right (d ∷ s) h.1) refl
