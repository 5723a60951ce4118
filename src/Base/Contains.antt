-- ===== src/Base/Contains.antt =====
-- `strings.Contains` of Go's standard library.
use d_utils.Base.{
  ◌≡◌, ◌↔◌, refl, ap, Bool, true, false, ◌&&◌, ◌||◌, [], ◌∷◌, ◌++◌, nat_eqb, arith, Bool-cases, inl,
  inr,
}
use d_utils.Base.Text.{Text}

abbrev has_prefix : Text → Text → Bool
has_prefix [] s = true
has_prefix (c ∷ p) [] = false
has_prefix (c ∷ p) (d ∷ s) = nat_eqb c d && has_prefix p s

-- `strings.Contains(s, p)`
unfoldable pub contains : Text → Text → Bool
contains [] p = has_prefix p []
contains (c ∷ s) p = has_prefix p (c ∷ s) || contains s p

-- The text stands somewhere in the other.
abbrev pub Occurs : Text → Text → Type 0
Occurs stack p = (before : Text) × (after : Text) × (stack ≡ before ++ (p ++ after))

has_prefix_iff : (p s : Text) → (has_prefix p s ≡ true) ↔ ((after : Text) × (s ≡ p ++ after))
has_prefix_iff p s = (there p s, back p s)
  where
    there : (p s : Text) → has_prefix p s ≡ true → (after : Text) × (s ≡ p ++ after)
    there [] s h = (s, refl)
    there (c ∷ p) [] h = absurd (cc h)
    there (c ∷ p) (d ∷ s) h =
        let same : c ≡ d = ground (arith, h) in
        let (after, e) = there p s (ground (arith, h)) in (after, cc (same, e))

    back : (p s : Text) → (after : Text) × (s ≡ p ++ after) → has_prefix p s ≡ true
    back [] s h = refl
    back (c ∷ p) [] (after, e) = absurd (cc e)
    back (c ∷ p) (d ∷ s) (after, e) =
        let same : c ≡ d = cc e in let rest = back p s (after, cc e) in ground (arith, same, rest)

pub contains_iff : (s p : Text) → (contains s p ≡ true) ↔ Occurs s p
unfolding contains
contains_iff s p = (there s, back s)
  where
    there : (s : Text) → contains s p ≡ true → Occurs s p
    there [] h = let (after, e) = (has_prefix_iff p []).0 h in ([], after, e)
    there (c ∷ s) h = elim (Bool-cases (has_prefix p (c ∷ s))) [
      | inl here ↦ let (after, e) = (has_prefix_iff p (c ∷ s)).0 here in ([], after, e)
      | inr not_here ↦
          let (before, after, e) = there s (rw (not_here, contains) at h) in
          (c ∷ before, after, ap (λ (t : Text). c ∷ t) e)
    ]

    back : (s : Text) → Occurs s p → contains s p ≡ true
    back [] ([], after, e) = (has_prefix_iff p []).1 (after, e)
    back [] (c ∷ before, after, e) = absurd (cc e)
    back (c ∷ s) ([], after, e) = rw ((has_prefix_iff p (c ∷ s)).1 (after, e)) refl
    back (c ∷ s) (d ∷ before, after, e) = ground (arith, back s (before, after, cc e))
