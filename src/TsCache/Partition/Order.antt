-- ===== src/TsCache/Partition/Order.antt =====
-- Lists of items in order: where an item stands, the abstract view of a list as a map from timestamps
-- to items, and the reference insertion.
use d_utils.Base.{
  ℕ, zero, suc, ◌+◌, ◌≡◌, refl, Bool, true, false, List, [], ◌∷◌, Option, none, some, All,
  if◌then◌else◌, drop, arith, filter_by, All-filter_by, Bool-cases, inl, inr, get_elem?,
}
use d_utils.Base.Int.{ℤ, int_key, ◌<ℤ◌, ◌≤ℤ◌, eqb_ℤ, leb_ℤ, eqb_ℤ_iff}
use d_utils.Base.Search.{rank, IsUpward}
use d_utils.TsCache.Partition.Items.{Item, IsSorted}
use d_utils.TsCache.Partition.{insert_at, at_least, above}

-- A place in the tail of a list, counted from its head.
abbrev pub next : Option ℕ → Option ℕ
next none = none
next (some k) = some (suc k)

-- A place `k` in the part of a list from `r` on is place `r + k` of the list.
abbrev pub shifted : ℕ → Option ℕ → Option ℕ → Option ℕ
shifted r absent none = absent
shifted r absent (some k) = some (r + k)

next-shifted :
    (r : ℕ) (o absent : Option ℕ) → next (shifted r absent o) ≡ shifted (suc r) (next absent) o
next-shifted r none absent = refl
next-shifted r (some k) absent = ground arith

pred_next : (o : Option ℕ) (i : ℕ) → next o ≡ some i → (k : ℕ) × (o ≡ some k) × (i ≡ suc k)
pred_next none i h = absurd (cc)
pred_next (some k) i h = (k, refl, ground arith)

module _ {ℓ} {T : Type ℓ} where
  -- The abstract view: the item with a timestamp.
  unfoldable pub find : ℤ → List (Item T) → Option (Item T)
  find t [] = none
  find t (x ∷ xs) = if eqb_ℤ x.timestamp t then some x else find t xs

  unfoldable pub index_of : ℤ → List (Item T) → Option ℕ
  index_of t [] = none
  index_of t (x ∷ xs) = if eqb_ℤ x.timestamp t then some 0 else next (index_of t xs)

  pub get_elem?-index_of :
      (t : ℤ) (xs : List (Item T)) (i : ℕ)
      → index_of t xs ≡ some i
      → (x : Item T) × (get_elem? xs i ≡ some x) × (find t xs ≡ some x) × (x.timestamp ≡ t)
  unfolding index_of find
  get_elem?-index_of t [] i h = cc
  get_elem?-index_of t (x ∷ xs) i h = elim (Bool-cases (eqb_ℤ x.timestamp t)) [
    | inl here ↦ (x, ground arith, ground arith, (eqb_ℤ_iff x.timestamp t).0 here)
    | inr there ↦
        let (k, at', e) = pred_next (index_of t xs) i (ground arith) in
        let (y, got, found, same) = get_elem?-index_of t xs k at' in
        (y, ground arith, ground arith, same)
  ]

  pub find-none_of_index_of : (t : ℤ) (xs : List (Item T)) → index_of t xs ≡ none → find t xs ≡ none
  unfolding index_of find
  find-none_of_index_of t [] h = refl
  find-none_of_index_of t (x ∷ xs) h = ground (arith, find-none_of_index_of t xs)

  -- The items of a sorted list from some place on lie above those before it.
  abbrev pub Above : ℤ → List (Item T) → Type 0
  Above t = All (λ y. t <ℤ y.timestamp)

  Above-trans : (s t : ℤ) (xs : List (Item T)) → s <ℤ t → Above t xs → Above s xs
  Above-trans s t [] h a = tt
  Above-trans s t (x ∷ xs) h a = (omega arith, Above-trans s t xs h a.1)

  pub index_of-Above : (t : ℤ) (xs : List (Item T)) → Above t xs → index_of t xs ≡ none
  unfolding index_of
  index_of-Above t [] a = refl
  index_of-Above t (x ∷ xs) a = ground (arith, index_of-Above t xs a.1)

  pub index_of-Above_eq :
      (s t : ℤ) (xs : List (Item T)) → Above s xs → eqb_ℤ s t ≡ true → index_of t xs ≡ none
  index_of-Above_eq s t xs a e = rw (← ((eqb_ℤ_iff s t).0 e)) (index_of-Above s xs a)

  pub find-Above : (t : ℤ) (xs : List (Item T)) → Above t xs → find t xs ≡ none
  unfolding find
  find-Above t [] a = refl
  find-Above t (x ∷ xs) a = ground (arith, find-Above t xs a.1)

  Above-drop : (t : ℤ) (n : ℕ) (xs : List (Item T)) → Above t xs → Above t (drop n xs)
  Above-drop t zero xs a = a
  Above-drop t (suc n) [] a = tt
  Above-drop t (suc n) (x ∷ xs) a = Above-drop t n xs a.1

  at_least_of_Above :
      (t s : ℤ) (xs : List (Item T))
      → leb_ℤ t s ≡ true
      → Above s xs
      → All (λ y. at_least t y ≡ true) xs
  at_least_of_Above t s [] h a = tt
  at_least_of_Above t s (x ∷ xs) h a = (ground arith, at_least_of_Above t s xs h a.1)

  pub at_least-IsUpward : (t : ℤ) (xs : List (Item T)) → IsSorted xs → IsUpward (at_least t) xs
  at_least-IsUpward t [] h = tt
  at_least-IsUpward t (x ∷ xs) h =
      (λ e. at_least_of_Above t x.timestamp xs e h.0, at_least-IsUpward t xs h.1)

  above_of_Above :
      (t s : ℤ) (xs : List (Item T)) → t ≤ℤ s → Above s xs → All (λ y. above t y ≡ true) xs
  above_of_Above t s [] h a = tt
  above_of_Above t s (x ∷ xs) h a = (ground arith, above_of_Above t s xs h a.1)

  pub above-IsUpward : (t : ℤ) (xs : List (Item T)) → IsSorted xs → IsUpward (above t) xs
  above-IsUpward t [] h = tt
  above-IsUpward t (x ∷ xs) h =
      (λ e. above_of_Above t x.timestamp xs (ground arith) h.0, above-IsUpward t xs h.1)

  pub filter_by-IsSorted :
      (p : Item T → Bool) (xs : List (Item T)) → IsSorted xs → IsSorted (filter_by p xs)
  filter_by-IsSorted p [] h = tt
  filter_by-IsSorted p (x ∷ xs) h = elim (Bool-cases (p x)) [
    | inl e ↦ rw e (All-filter_by _ p xs h.0, filter_by-IsSorted p xs h.1)
    | inr e ↦ rw e (filter_by-IsSorted p xs h.1)
  ]

  -- The reference insertion: before the first item that is not earlier.
  unfoldable pub insert_sorted : Item T → List (Item T) → List (Item T)
  insert_sorted item [] = item ∷ []
  insert_sorted item (x ∷ xs) =
      if at_least item.timestamp x then item ∷ (x ∷ xs) else x ∷ insert_sorted item xs

  pub insert_at-rank :
      (item : Item T) (xs : List (Item T))
      → insert_at xs (rank (at_least item.timestamp) xs) item ≡ insert_sorted item xs
  unfolding rank insert_sorted
  insert_at-rank item [] = refl
  insert_at-rank item (x ∷ xs) = ground (arith, insert_at-rank item xs)

  All-insert_sorted {κ} :
      (P : Item T → Type κ) (item : Item T) (xs : List (Item T))
      → P item
      → All P xs
      → All P (insert_sorted item xs)
  unfolding insert_sorted
  All-insert_sorted P item [] h a = (h, tt)
  All-insert_sorted P item (x ∷ xs) h a = elim (Bool-cases (at_least item.timestamp x)) [
    | inl e ↦ rw e (h, a)
    | inr e ↦ rw e (a.0, All-insert_sorted P item xs h a.1)
  ]

  absent_head :
      (item x : Item T) (xs : List (Item T))
      → index_of item.timestamp (x ∷ xs) ≡ none
      → (eqb_ℤ x.timestamp item.timestamp ≡ false) × (index_of item.timestamp xs ≡ none)
  unfolding index_of
  absent_head item x xs h = (ground arith, ground arith)

  pub insert_sorted-IsSorted :
      (item : Item T) (xs : List (Item T))
      → IsSorted xs
      → index_of item.timestamp xs ≡ none
      → IsSorted (insert_sorted item xs)
  unfolding insert_sorted
  insert_sorted-IsSorted item [] h new = (tt, tt)
  insert_sorted-IsSorted item (x ∷ xs) h new =
      let (other, new') = absent_head item x xs new in
      elim (Bool-cases (at_least item.timestamp x)) [
        | inl e ↦
            let lt : item.timestamp <ℤ x.timestamp = ground arith in
            rw e ((lt, Above-trans item.timestamp x.timestamp xs lt h.0), h)
        | inr e ↦ rw e (
          All-insert_sorted _ item xs (ground arith) h.0,
          insert_sorted-IsSorted item xs h.1 new',
        )
      ]

  pub find-insert_sorted :
      (t : ℤ) (item : Item T) (xs : List (Item T))
      → index_of item.timestamp xs ≡ none
      → find t (insert_sorted item xs) ≡ (if eqb_ℤ item.timestamp t then some item else find t xs)
  unfolding insert_sorted find
  find-insert_sorted t item [] new = refl
  find-insert_sorted t item (x ∷ xs) new =
      let (other, new') = absent_head item x xs new in
      ground (
        arith,
        find-insert_sorted t item xs new',
        eqb_ℤ_iff x.timestamp t,
        eqb_ℤ_iff item.timestamp t,
        eqb_ℤ_iff x.timestamp item.timestamp,
      )

  -- Where the items stand after an insertion: those from the new one on have moved.
  pub index_of-insert_sorted :
      (t : ℤ) (item : Item T) (xs : List (Item T))
      → IsSorted xs
      → index_of item.timestamp xs ≡ none
      → let r = rank (at_least item.timestamp) xs in
        index_of t (insert_sorted item xs)
        ≡ shifted r (index_of t xs) (index_of t (drop r (insert_sorted item xs)))
  unfolding insert_sorted index_of rank
  index_of-insert_sorted t item [] h new = ground arith
  index_of-insert_sorted t item (x ∷ xs) h new =
      let (other, new') = absent_head item x xs new in
      elim (Bool-cases (at_least item.timestamp x)) [
        | inl e ↦ rw e (ground arith)
        | inr e ↦
            let r = rank (at_least item.timestamp) xs in
            let later : Above x.timestamp (drop r (insert_sorted item xs)) =
              Above-drop x.timestamp r _ (All-insert_sorted _ item xs (ground arith) h.0) in
            rw e (
              ground (
                arith,
                index_of-insert_sorted t item xs h.1 new',
                index_of-Above_eq x.timestamp t (drop r (insert_sorted item xs)) later,
                next-shifted r (index_of t (drop r (insert_sorted item xs))) (index_of t xs),
              ))
      ]
