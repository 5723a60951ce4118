-- ===== src/TsCache/Iterator/Pending.antt =====
-- tscache/iterator.go: `Next` against the items that are still to come.
use d_utils.Base.{
  ℕ, zero, suc, ◌+◌, ◌<◌, ◌≡◌, refl, sym, ◌∙◌, Bool, true, false, List, [], ◌∷◌, ◌++◌, Option, none,
  some, length, get_elem?, drop, length-drop, ◌≤◌, filter_by, arith, Option-cases, Bool-cases, inl,
  inr, if◌then◌else◌,
}
use mathlib.Core.List.{head?, tail}
use d_utils.Base.Int.{ℤ, int_key}
use d_utils.TsCache.Partition.Items.{Item}
use d_utils.TsCache.Store.{Store}
use d_utils.TsCache.Iterator.{Iterator, skip, advance, is_wanted, items_at, rounds, next_loop, next}

module _ {ℓ} {A : Type ℓ} where
  drop-get_elem? :
      (xs : List A) (i : ℕ) {x : A} → get_elem? xs i ≡ some x → drop i xs ≡ x ∷ drop (suc i) xs
  drop-get_elem? [] i h = cc
  drop-get_elem? (y ∷ ys) zero h = ground arith
  drop-get_elem? (y ∷ ys) (suc i) h = drop-get_elem? ys i h

  if-append :
      (b : Bool) (x : A) (xs ys : List A)
      → (if b then x ∷ xs else xs) ++ ys ≡ (if b then x ∷ (xs ++ ys) else xs ++ ys)
  if-append true x xs ys = refl
  if-append false x xs ys = refl

  drop_past : (xs : List A) (i : ℕ) → get_elem? xs i ≡ none → drop i xs ≡ []
  drop_past [] zero h = refl
  drop_past [] (suc i) h = refl
  drop_past (y ∷ ys) zero h = cc
  drop_past (y ∷ ys) (suc i) h = drop_past ys i h

module _ {ℓ} {T : Type ℓ} (c : Store T) (now : ℤ → ℤ → ℤ) where
  -- What the iterator returns of the partitions with the starts, in their order.
  unfoldable pub visited : ℤ → ℤ → List ℤ → List (Item T)
  visited start end [] = []
  visited start end (s ∷ ss) =
      filter_by (is_wanted now start end s) (items_at c s) ++ visited start end ss

  -- What is still to come from the place in the first of the partitions on.
  abbrev pub to_come : ℤ → ℤ → ℕ → List ℤ → List (Item T)
  to_come start end i [] = []
  to_come start end i (s ∷ ss) =
      filter_by (is_wanted now start end s) (drop i (items_at c s)) ++ visited start end ss

  abbrev pub pending : Iterator → List (Item T)
  pending it = to_come it.start it.end it.curr_item_idx (drop it.curr_part_idx it.partitions)

  abbrev cost_at : ℕ → List ℤ → ℕ
  cost_at i [] = 0
  cost_at i (s ∷ ss) = suc (length (drop i (items_at c s))) + rounds c ss

  abbrev cost : Iterator → ℕ
  cost it = cost_at it.curr_item_idx (drop it.curr_part_idx it.partitions)

  pub to_come-zero :
      (start end : ℤ) (ss : List ℤ) → to_come start end zero ss ≡ visited start end ss
  unfolding visited
  to_come-zero start end [] = refl
  to_come-zero start end (s ∷ ss) = refl

  cost_zero : (ss : List ℤ) → cost_at zero ss ≡ rounds c ss
  cost_zero [] = refl
  cost_zero (s ∷ ss) = refl

  -- The same range and partitions.
  abbrev pub SameTask : Iterator → Iterator → Type 0
  SameTask it it' = (it'.partitions ≡ it.partitions) × (it'.start ≡ it.start) × (it'.end ≡ it.end)

  -- The first item to come is returned, and the others are still to come.
  abbrev pub Answers : Iterator → Option (Iterator × Option (Item T)) → Type ℓ
  Answers it r =
      (it' : Iterator) × (r ≡ some (it', head? (pending it)))
      × (pending it' ≡ tail (pending it))
      × SameTask it it'

  -- A round that only moves on.
  Answers-moved :
      (it it1 : Iterator) (r : Option (Iterator × Option (Item T)))
      → pending it1 ≡ pending it
      → SameTask it it1
      → Answers it1 r
      → Answers it r
  Answers-moved it it1 r e same (it', got, left, same') =
      (it', rw (← e) got, rw (← e) left, (cc, cc, cc))

  module _ (it : Iterator) (s : ℤ) (here : get_elem? it.partitions it.curr_part_idx ≡ some s) where
    left : drop it.curr_part_idx it.partitions ≡ s ∷ drop (suc it.curr_part_idx) it.partitions
    left = drop-get_elem? it.partitions it.curr_part_idx here

    pending_here :
        pending it
        ≡ filter_by (is_wanted now it.start it.end s) (drop it.curr_item_idx (items_at c s))
          ++ visited it.start it.end (drop (suc it.curr_part_idx) it.partitions)
    pending_here = rw left refl

    cost_here :
        cost it
        ≡ suc (length (drop it.curr_item_idx (items_at c s)))
          + rounds c (drop (suc it.curr_part_idx) it.partitions)
    cost_here = rw left refl

    -- Leaving a partition with no more items.
    pending-skip : drop it.curr_item_idx (items_at c s) ≡ [] → pending (skip it) ≡ pending it
    pending-skip over = to_come-zero it.start it.end _ ∙ sym (pending_here ∙ (rw over refl))

    cost-skip : cost (skip it) < cost it
    cost-skip = rw cost_here (rw cost_zero (omega arith))

    module _ (x : Item T) (found : get_elem? (items_at c s) it.curr_item_idx ≡ some x) where
      abbrev rest_items : List (Item T)
      rest_items = drop (suc it.curr_item_idx) (items_at c s)

      pending-advance : pending it ≡ (
          if is_wanted now it.start it.end s x
          then x ∷ pending (advance it)
          else pending (advance it))
      pending-advance = rw left (
          rw (drop-get_elem? (items_at c s) it.curr_item_idx found) (
            if-append (is_wanted now it.start it.end s x) x
              (filter_by (is_wanted now it.start it.end s) rest_items) _))

      cost-advance : cost (advance it) < cost it
      cost-advance =
          rw left (rw (drop-get_elem? (items_at c s) it.curr_item_idx found) (omega arith))

  module _ (n : ℕ) (it : Iterator) where
    next_loop_over :
        get_elem? it.partitions it.curr_part_idx ≡ none
        → next_loop (suc n) c now it ≡ some (it, none)
    unfolding next_loop
    next_loop_over h = ground arith

    module _ (s : ℤ) (here : get_elem? it.partitions it.curr_part_idx ≡ some s) where
      next_loop_left :
          get_elem? (items_at c s) it.curr_item_idx ≡ none
          → next_loop (suc n) c now it ≡ next_loop n c now (skip it)
      unfolding next_loop
      next_loop_left h = ground arith

      next_loop_at :
          (x : Item T)
          → get_elem? (items_at c s) it.curr_item_idx ≡ some x
          → next_loop (suc n) c now it ≡ (
              if is_wanted now it.start it.end s x
              then some (advance it, some x)
              else next_loop n c now (advance it))
      unfolding next_loop
      next_loop_at x h = ground arith

  next_loop-Answers : (n : ℕ) (it : Iterator) → cost it < n → Answers it (next_loop n c now it)
  next_loop-Answers zero it h = absurd (omega arith)
  next_loop-Answers (suc n) it h = elim (Option-cases (get_elem? it.partitions it.curr_part_idx)) [
    | inl over ↦
        let empty = drop_past it.partitions it.curr_part_idx over in
        (it, next_loop_over n it over ∙ (rw empty refl), (rw empty refl), (refl, refl, refl))
    | inr (s, here) ↦ elim (Option-cases (get_elem? (items_at c s) it.curr_item_idx)) [
      | inl left_over ↦ rw (next_loop_left n it s here left_over) (
          Answers-moved it (skip it) _
            (pending-skip it s here (drop_past (items_at c s) it.curr_item_idx left_over))
            (refl, refl, refl) (next_loop-Answers n (skip it) (omega (arith, cost-skip it s here))))
      | inr (x, found) ↦
          let ahead = pending-advance it s here x found in
          elim (Bool-cases (is_wanted now it.start it.end s x)) [
            | inl wanted ↦ (
              advance it,
              next_loop_at n it s here x found ∙ (rw (wanted, ahead) (rw wanted refl)),
              rw ahead (rw wanted refl),
              (refl, refl, refl),
            )
            | inr other ↦
                rw (next_loop_at n it s here x found, other)
                  (Answers-moved it (advance it) _ (sym (ahead ∙ (rw other refl)))
                    (refl, refl, refl)
                    (next_loop-Answers n (advance it)
                      (omega (arith, cost-advance it s here x found))))
          ]
    ]
  ]

  rounds-drop-le : (n : ℕ) (ss : List ℤ) → rounds c (drop n ss) ≤ rounds c ss
  rounds-drop-le zero ss = omega arith
  rounds-drop-le (suc n) [] = omega arith
  rounds-drop-le (suc n) (s ∷ ss) = omega (arith, rounds-drop-le n ss)

  cost_at-le : (i : ℕ) (ss : List ℤ) → cost_at i ss ≤ rounds c ss
  cost_at-le i [] = omega arith
  cost_at-le i (s ∷ ss) = omega (arith, length-drop i (items_at c s))

  -- The fuel of `Next` is enough.
  pub next-Answers : (it : Iterator) → Answers it (next c now it)
  unfolding next
  next-Answers it = next_loop-Answers _ it (
      omega (
        arith,
        cost_at-le it.curr_item_idx (drop it.curr_part_idx it.partitions),
        rounds-drop-le it.curr_part_idx it.partitions,
      ))
