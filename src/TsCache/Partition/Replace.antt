-- ===== src/TsCache/Partition/Replace.antt =====
-- tscache/partition.go: an item stored over the one with its timestamp.
use d_utils.Base.{
  ℕ, zero, suc, ◌<◌, ◌≡◌, refl, true, false, List, [], ◌∷◌, some, if◌then◌else◌, length, arith, All,
  All_get, set,
}
use d_utils.Base.Int.{ℤ, eqb_ℤ, eqb_ℤ_iff}
use d_utils.TsCache.Partition.Items.{Item, IsSorted}
use d_utils.TsCache.Partition.Order.{find, index_of, get_elem?-index_of}

module _ {ℓ} {T : Type ℓ} where
  All-set {κ} :
      (P : Item T → Type κ) (item : Item T) (xs : List (Item T)) (i : ℕ)
      → P item
      → All P xs
      → All P (set xs i item)
  All-set P item [] i h a = tt
  All-set P item (x ∷ xs) zero h a = (h, a.1)
  All-set P item (x ∷ xs) (suc i) h a = (a.0, All-set P item xs i h a.1)

  -- What `index_of` says of a list by cases on the index.
  index_of_zero :
      (t : ℤ) (x : Item T) (xs : List (Item T))
      → index_of t (x ∷ xs) ≡ some 0
      → eqb_ℤ x.timestamp t ≡ true
  unfolding index_of
  index_of_zero t x xs h = ground arith

  index_of-suc :
      (t : ℤ) (x : Item T) (xs : List (Item T)) (i : ℕ)
      → index_of t (x ∷ xs) ≡ some (suc i)
      → (eqb_ℤ x.timestamp t ≡ false) × (index_of t xs ≡ some i)
  unfolding index_of
  index_of-suc t x xs i h = ground arith

  pub index_of-lt : (t : ℤ) (xs : List (Item T)) (i : ℕ) → index_of t xs ≡ some i → i < length xs
  unfolding index_of
  index_of-lt t [] i h = absurd (cc)
  index_of-lt t (x ∷ xs) zero h = omega arith
  index_of-lt t (x ∷ xs) (suc i) h = omega (arith, index_of-lt t xs i (index_of-suc t x xs i h).1)

  pub set-IsSorted :
      (item : Item T) (xs : List (Item T)) (i : ℕ)
      → IsSorted xs
      → index_of item.timestamp xs ≡ some i
      → IsSorted (set xs i item)
  set-IsSorted item [] i h e = tt
  set-IsSorted item (x ∷ xs) zero h e =
      let same = (eqb_ℤ_iff x.timestamp item.timestamp).0 (index_of_zero item.timestamp x xs e) in
      (rw (← same) h.0, h.1)
  set-IsSorted item (x ∷ xs) (suc i) h e =
      let (other, e') = index_of-suc item.timestamp x xs i e in
      let (y, got, found, same) = get_elem?-index_of item.timestamp xs i e' in
      (
        All-set _ item xs i (rw (← same) (All_get _ xs i h.0 got)) h.0,
        set-IsSorted item xs i h.1 e',
      )

  pub index_of-set :
      (t : ℤ) (item : Item T) (xs : List (Item T)) (i : ℕ)
      → index_of item.timestamp xs ≡ some i
      → index_of t (set xs i item) ≡ index_of t xs
  unfolding index_of
  index_of-set t item [] i e = refl
  index_of-set t item (x ∷ xs) zero e =
      let same = (eqb_ℤ_iff x.timestamp item.timestamp).0 (index_of_zero item.timestamp x xs e) in
      rw same
  index_of-set t item (x ∷ xs) (suc i) e =
      rw (index_of-set t item xs i (index_of-suc item.timestamp x xs i e).1)

  pub find-set :
      (t : ℤ) (item : Item T) (xs : List (Item T)) (i : ℕ)
      → index_of item.timestamp xs ≡ some i
      → find t (set xs i item) ≡ (if eqb_ℤ item.timestamp t then some item else find t xs)
  unfolding find
  find-set t item [] i e = absurd (unfold index_of in cc)
  find-set t item (x ∷ xs) zero e =
      let same = (eqb_ℤ_iff x.timestamp item.timestamp).0 (index_of_zero item.timestamp x xs e) in
      ground (arith, same)
  find-set t item (x ∷ xs) (suc i) e =
      let (other, e') = index_of-suc item.timestamp x xs i e in
      ground (
        arith,
        find-set t item xs i e',
        eqb_ℤ_iff x.timestamp t,
        eqb_ℤ_iff item.timestamp t,
        eqb_ℤ_iff x.timestamp item.timestamp,
      )
