-- ===== src/Debug/Filter.antt =====
-- debug/debug.go: `FilterConfig`, `shouldIncludeGoroutine` and the loop of `DumpGoroutineStack`.
use d_utils.Base.{
  ◌≡◌, ◌↔◌, refl, ◌⊎◌, inl, inr, Bool, true, false, not, ◌&&◌, ◌||◌, List, [], ◌∷◌, ◌++◌, nat_eqb,
  if◌then◌else◌, arith, Bool-cases,
}
use d_utils.Base.Int.{pos, ltb_ℤ}
use d_utils.Base.GoTime.{Duration}
use d_utils.Base.Text.{Text, codes}
use d_utils.Base.Contains.{contains, contains_iff, Occurs}

pub record FilterConfig : Type 0 where
  pub exclude_patterns : List Text
  pub include_patterns : List Text
  pub min_duration : Duration
  pub states : List Text

-- The loops over patterns: whether one of them is in the stack.
unfoldable pub contains_any : Text → List Text → Bool
contains_any stack [] = false
contains_any stack (p ∷ ps) = if contains stack p then true else contains_any stack ps

-- `len(ps) > 0`
abbrev pub is_given : List Text → Bool
is_given [] = false
is_given (p ∷ ps) = true

abbrev pub in_brackets : List Text → List Text
in_brackets [] = []
in_brackets (state ∷ states) = (b'[' ∷ state) ∷ in_brackets states

unfoldable pub should_include_goroutine : Text → FilterConfig → Bool
should_include_goroutine stack config =
    if contains_any stack config.exclude_patterns
    then false
    else if is_given config.include_patterns && not (contains_any stack config.include_patterns)
    then false
    else if is_given config.states && not (contains_any stack (in_brackets config.states))
    then false
    else if ltb_ℤ (pos 0) config.min_duration && contains stack (codes "[sleep]")
    then (if contains stack (codes "minutes") || contains stack (codes "hours") then true else true)
    else true

-- `bytes.Split(dump, "\n\n")`; `part` is what stands before in the current part.
unfoldable pub split_dump : Text → Text → List Text
split_dump part [] = part ∷ []
split_dump part (c ∷ []) = (part ++ (c ∷ [])) ∷ []
split_dump part (c ∷ (d ∷ s)) =
    let here = split_dump [] s in
    let later = split_dump (part ++ (c ∷ [])) (d ∷ s) in
    if nat_eqb c b'\n' && nat_eqb d b'\n' then part ∷ here else later

unfoldable pub print_each : List Text → FilterConfig → List Text
print_each [] config = []
print_each ([] ∷ stacks) config = print_each stacks config
print_each ((c ∷ stack) ∷ stacks) config =
    let rest = print_each stacks config in
    if should_include_goroutine (c ∷ stack) config then (c ∷ stack) ∷ rest else rest

-- The stacks that `DumpGoroutineStack` prints, of what `runtime.Stack` has written.
unfoldable pub dump_goroutine_stack : Text → FilterConfig → List Text
dump_goroutine_stack dump config = print_each (split_dump [] dump) config

-- One of the texts stands in the stack.
abbrev pub SomeOccurs : Text → List Text → Type 0
SomeOccurs stack [] = ⊥
SomeOccurs stack (p ∷ ps) = Occurs stack p ⊎ SomeOccurs stack ps

contains_any_iff :
    (stack : Text) (ps : List Text) → (contains_any stack ps ≡ true) ↔ SomeOccurs stack ps
unfolding contains_any
contains_any_iff stack ps = (there ps, back ps)
  where
    there : (ps : List Text) → contains_any stack ps ≡ true → SomeOccurs stack ps
    there [] h = absurd (cc h)
    there (p ∷ ps) h = elim (Bool-cases (contains stack p)) [
      | inl here ↦ inl ((contains_iff stack p).0 here)
      | inr not_here ↦ inr (there ps (rw (not_here, contains_any) at h))
    ]

    back : (ps : List Text) → SomeOccurs stack ps → contains_any stack ps ≡ true
    back [] h = absurd h
    back (p ∷ ps) (inl here) = rw ((contains_iff stack p).1 here) refl
    back (p ∷ ps) (inr later) = ground (arith, back ps later)

-- Nothing is asked for, or one of the texts stands in the stack.
abbrev pub Passes : Text → List Text → Type 0
Passes stack ps = (ps ≡ []) ⊎ SomeOccurs stack ps

-- The tests of the code, behind each other.
unfoldable blocks : Text → List Text → Bool
blocks stack ps = is_given ps && not (contains_any stack ps)

blocks-Passes : (stack : Text) (ps : List Text) → (blocks stack ps ≡ false) ↔ Passes stack ps
unfolding blocks
blocks-Passes stack [] = (λ h. inl refl, λ h. refl)
blocks-Passes stack (p ∷ ps) = (
  λ h. inr ((contains_any_iff stack (p ∷ ps)).0 (ground arith)),
  λ h. elim h [
    | inl e ↦ absurd (cc e)
    | inr found ↦ rw ((contains_any_iff stack (p ∷ ps)).1 found) refl
  ],
)

excluded_iff :
    (stack : Text) (ps : List Text) → (contains_any stack ps ≡ false) ↔ (¬ SomeOccurs stack ps)
excluded_iff stack ps = (
  λ h found. cc (h, (contains_any_iff stack ps).1 found),
  λ h. elim (Bool-cases (contains_any stack ps)) [
    | inl found ↦ absurd (h ((contains_any_iff stack ps).0 found))
    | inr not_found ↦ not_found
  ],
)

tests_iff :
    (stack : Text) (config : FilterConfig)
    → (should_include_goroutine stack config ≡ true) ↔ (
        (contains_any stack config.exclude_patterns ≡ false)
        × (blocks stack config.include_patterns ≡ false)
        × (blocks stack (in_brackets config.states) ≡ false))
unfolding should_include_goroutine blocks
tests_iff stack config = (λ h. ground arith, λ h. ground arith)

-- A stack is shown if and only if no excluded text stands in it and, where texts are to be included
-- or states are given, one of the texts and one of the states behind an opening bracket stand in it.
-- The least duration plays no part.
pub should_include_goroutine_iff :
    (stack : Text) (config : FilterConfig)
    → (should_include_goroutine stack config ≡ true) ↔ (
        ¬ (SomeOccurs stack config.exclude_patterns)
        × Passes stack config.include_patterns
        × Passes stack (in_brackets config.states))
should_include_goroutine_iff stack config =
    let (there, back) = tests_iff stack config in
    (
      λ h.
          let (a, b, c) = there h in
          (
            (excluded_iff stack config.exclude_patterns).0 a,
            (blocks-Passes stack config.include_patterns).0 b,
            (blocks-Passes stack (in_brackets config.states)).0 c,
          ),
      λ p. back (
        (excluded_iff stack config.exclude_patterns).1 p.0,
        (blocks-Passes stack config.include_patterns).1 p.1,
        (blocks-Passes stack (in_brackets config.states)).1 p.2,
      ),
    )
