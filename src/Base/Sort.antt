-- ===== src/Base/Sort.antt =====
-- `sort.Slice` of Go's standard library on distinct integers, in ascending order: on a list without
-- repetitions there is one result, whatever algorithm finds it.
use d_utils.Base.{
  ◌≡◌, refl, Bool, List, [], ◌∷◌, if◌then◌else◌, All, filter_by, All-filter_by, arith, Bool-cases,
  inl, inr,
}
use mathlib.Core.List.{Perm}
use mathlib.Core.List.Perm
use d_utils.Base.Int.{ℤ, leb_ℤ, ◌≤ℤ◌}

unfoldable pub insert_asc : ℤ → List ℤ → List ℤ
insert_asc x [] = x ∷ []
insert_asc x (y ∷ ys) = if leb_ℤ x y then x ∷ (y ∷ ys) else y ∷ insert_asc x ys

unfoldable pub sort_asc : List ℤ → List ℤ
unfolding insert_asc
sort_asc [] = []
sort_asc (x ∷ xs) = insert_asc x (sort_asc xs)

abbrev pub IsAscending : List ℤ → Type 0
IsAscending [] = Unit {0}
IsAscending (x ∷ xs) = All (λ (y : ℤ). x ≤ℤ y) xs × IsAscending xs

insert_asc-All :
    (a x : ℤ) (ys : List ℤ)
    → a ≤ℤ x
    → All (λ (y : ℤ). a ≤ℤ y) ys
    → All (λ (y : ℤ). a ≤ℤ y) (insert_asc x ys)
unfolding insert_asc
insert_asc-All a x [] h all = (h, tt)
insert_asc-All a x (y ∷ ys) h all = ground (arith, insert_asc-All a x ys h all.1)

All-le : (a b : ℤ) (ys : List ℤ) → a ≤ℤ b → All (λ (y : ℤ). b ≤ℤ y) ys → All (λ (y : ℤ). a ≤ℤ y) ys
All-le a b [] h all = tt
All-le a b (y ∷ ys) h all = (omega (arith, h, all.0), All-le a b ys h all.1)

insert_asc-IsAscending : (x : ℤ) (ys : List ℤ) → IsAscending ys → IsAscending (insert_asc x ys)
unfolding insert_asc
insert_asc-IsAscending x [] h = (tt, tt)
insert_asc-IsAscending x (y ∷ ys) h =
    ground (arith, insert_asc-IsAscending x ys h.1, insert_asc-All y x ys, All-le x y ys)

pub sort_asc-IsAscending : (xs : List ℤ) → IsAscending (sort_asc xs)
unfolding sort_asc
sort_asc-IsAscending [] = tt
sort_asc-IsAscending (x ∷ xs) = insert_asc-IsAscending x (sort_asc xs) (sort_asc-IsAscending xs)

insert_asc-Perm : (x : ℤ) (ys : List ℤ) → Perm (insert_asc x ys) (x ∷ ys)
unfolding insert_asc
insert_asc-Perm x [] = Perm.refl _
insert_asc-Perm x (y ∷ ys) = elim (Bool-cases (leb_ℤ x y)) [
  | inl le ↦ rw le (Perm.refl _)
  | inr gt ↦ rw gt (Perm.trans (Perm.cons y (insert_asc-Perm x ys)) (Perm.swap _ _ _))
]

pub sort_asc-Perm : (xs : List ℤ) → Perm (sort_asc xs) xs
unfolding sort_asc
sort_asc-Perm [] = Perm.refl _
sort_asc-Perm (x ∷ xs) =
    Perm.trans (insert_asc-Perm x (sort_asc xs)) (Perm.cons x (sort_asc-Perm xs))

insert_asc_below : (x : ℤ) (ys : List ℤ) → All (λ (y : ℤ). x ≤ℤ y) ys → insert_asc x ys ≡ x ∷ ys
unfolding insert_asc
insert_asc_below x [] h = refl
insert_asc_below x (y ∷ ys) h = ground (arith, h.0)

module _ (keep : ℤ → Bool) where
  filter_by-insert_asc :
      (x : ℤ) (ys : List ℤ)
      → IsAscending ys
      → filter_by keep (insert_asc x ys)
        ≡ (if keep x then insert_asc x (filter_by keep ys) else filter_by keep ys)
  unfolding insert_asc
  filter_by-insert_asc x [] h = ground arith
  filter_by-insert_asc x (y ∷ ys) h = elim (Bool-cases (leb_ℤ x y)) [
    | inl le ↦
        let above =
          All-filter_by (λ (z : ℤ). x ≤ℤ z) keep (y ∷ ys)
            (ground arith, All-le x y ys (ground arith) h.0) in
        rw le (ground (arith, insert_asc_below x (filter_by keep (y ∷ ys)) above))
    | inr gt ↦ ground (arith, filter_by-insert_asc x ys h.1)
  ]

  -- Sorting what passes a test is passing what is sorted.
  pub sort_asc-filter_by :
      (xs : List ℤ) → sort_asc (filter_by keep xs) ≡ filter_by keep (sort_asc xs)
  unfolding sort_asc
  sort_asc-filter_by [] = refl
  sort_asc-filter_by (x ∷ xs) =
      ground (
        arith,
        sort_asc-filter_by xs,
        filter_by-insert_asc x (sort_asc xs) (sort_asc-IsAscending xs),
      )
