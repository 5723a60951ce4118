-- ===== src/Base/Search.antt =====
-- `sort.Search` of Go's standard library: a binary search over [0, n) for a monotone test.
use d_utils.Base.{
  List, [], ◌∷◌, none, some, All, length, get_elem?, refl, if◌then◌else◌, ℕ, zero, suc, ◌+◌, ◌-◌,
  ◌/◌, ◌≤◌, ◌<◌, ◌≡◌, Bool, true, false, arith, ltb, Bool-cases, inl, inr,
}

-- The loop `for i < j`, with the rounds left as fuel.
search_loop : ℕ → (ℕ → Bool) → ℕ → ℕ → ℕ
search_loop zero f i j = i
search_loop (suc n) f i j = elim (ltb i j) [
  | true ↦ elim (f ((i + j) / 2)) [
    | true ↦ search_loop n f i ((i + j) / 2)
    | false ↦ search_loop n f ((i + j) / 2 + 1) j
  ]
  | false ↦ i
]

-- `n` rounds are enough, since each one shortens the range.
unfoldable pub search : ℕ → (ℕ → Bool) → ℕ
unfolding search_loop
search n f = search_loop n f 0 n

-- The least index in [0, n] from which on the test holds.
pub record Bounds (f : ℕ → Bool) (n r : ℕ) : Type 0 where
  pub inside : r ≤ n
  pub below : (k : ℕ) → k < r → f k ≡ false
  pub above : (k : ℕ) → r ≤ k → k < n → f k ≡ true

module _ (f : ℕ → Bool) (n : ℕ) (mono : (k m : ℕ) → k ≤ m → m < n → f k ≡ true → f m ≡ true) where
  below_mid : (m : ℕ) → m < n → f m ≡ false → (k : ℕ) → k < m + 1 → f k ≡ false
  below_mid m h e k a = elim (Bool-cases (f k)) [
    | inl t ↦ cc (mono k m (omega arith) h t)
    | inr t ↦ t
  ]

  search_loop-Bounds :
      (fuel i j : ℕ)
      → i ≤ j
      → j ≤ n
      → j - i ≤ fuel
      → ((k : ℕ) → k < i → f k ≡ false)
      → ((k : ℕ) → j ≤ k → k < n → f k ≡ true)
      → Bounds f n (search_loop fuel f i j)
  unfolding search_loop
  search_loop-Bounds zero i j p q r lo hi = record {
    inside = omega arith;
    below = lo;
    above = λ k a b. hi k (omega arith) b;
  }
  search_loop-Bounds (suc fuel) i j p q r lo hi = elim (Bool-cases (ltb i j)) [
    | inr done ↦
        rw (done, search_loop)
          (record { inside = omega arith; below = lo; above = λ k a b. hi k (ground arith) b })
    | inl more ↦ elim (Bool-cases (f ((i + j) / 2))) [
      | inl yes' ↦
          rw (more, search_loop, yes')
            (search_loop-Bounds fuel i ((i + j) / 2) (ground arith) (ground arith) (ground arith) lo
              (λ k a b. mono ((i + j) / 2) k a b yes'))
      | inr no' ↦
          rw (more, search_loop, no')
            (search_loop-Bounds fuel ((i + j) / 2 + 1) j (ground arith) q (ground arith)
              (below_mid ((i + j) / 2) (ground arith) no') hi)
    ]
  ]

  pub search-Bounds : Bounds f n (search n f)
  unfolding search
  search-Bounds =
      search_loop-Bounds n 0 n (omega arith) (omega arith) (omega arith)
        (λ k a. absurd (omega arith)) (λ k a b. absurd (omega arith))

-- The result is the only index with these bounds.
pub Bounds-unique : (f : ℕ → Bool) (n r s : ℕ) → Bounds f n r → Bounds f n s → r ≡ s
Bounds-unique f n r s p q =
    ground (arith, p.inside, q.inside, p.below s, q.below r, p.above r, q.above s)

-- A search through a list: the test of `sort.Search` is a predicate on the element at the index. It is
-- called for indices of the list alone.
module _ {ℓ} {A : Type ℓ} (p : A → Bool) where
  abbrev pub probe : List A → ℕ → Bool
  probe xs i = elim (get_elem? xs i) [ none ↦ true | some x ↦ p x ]

  -- Once the predicate holds, it holds to the end.
  abbrev pub IsUpward : List A → Type 0
  IsUpward [] = Unit {0}
  IsUpward (x ∷ xs) = (p x ≡ true → All (λ y. p y ≡ true) xs) × IsUpward xs

  -- How many elements stand before the first that passes.
  unfoldable pub rank : List A → ℕ
  rank [] = 0
  rank (x ∷ xs) = let r = rank xs in if p x then 0 else suc r

  pub rank-le : (xs : List A) → rank xs ≤ length xs
  unfolding rank
  rank-le [] = omega arith
  rank-le (x ∷ xs) = ground (arith, rank-le xs)

  probe_of_All : (xs : List A) (k : ℕ) → All (λ y. p y ≡ true) xs → probe xs k ≡ true
  probe_of_All [] k h = refl
  probe_of_All (x ∷ xs) zero h = h.0
  probe_of_All (x ∷ xs) (suc k) h = probe_of_All xs k h.1

  probe_mono :
      (xs : List A)
      → IsUpward xs
      → (k m : ℕ) → k ≤ m
      → m < length xs
      → probe xs k ≡ true
      → probe xs m ≡ true
  probe_mono [] u k m a b h = refl
  probe_mono (x ∷ xs) u zero zero a b h = h
  probe_mono (x ∷ xs) u zero (suc m) a b h = probe_of_All xs m (u.0 h)
  probe_mono (x ∷ xs) u (suc k) zero a b h = absurd (omega arith)
  probe_mono (x ∷ xs) u (suc k) (suc m) a b h = probe_mono xs u.1 k m (omega arith) (omega arith) h

  probe_below : (xs : List A) (k : ℕ) → k < rank xs → probe xs k ≡ false
  unfolding rank
  probe_below [] k h = absurd (omega arith)
  probe_below (x ∷ xs) zero h = ground arith
  probe_below (x ∷ xs) (suc k) h = ground (arith, probe_below xs k)

  probe_above : (xs : List A) → IsUpward xs → (k : ℕ) → rank xs ≤ k → probe xs k ≡ true
  unfolding rank
  probe_above [] u k h = refl
  probe_above (x ∷ xs) u zero h = ground arith
  probe_above (x ∷ xs) u (suc k) h = elim (Bool-cases (p x)) [
    | inl passes ↦ probe_of_All xs k (u.0 passes)
    | inr fails ↦ probe_above xs u.1 k (ground arith)
  ]

  -- On a list on which the predicate stays true, the binary search finds the first that passes.
  pub search-rank : (xs : List A) → IsUpward xs → search (length xs) (probe xs) ≡ rank xs
  search-rank xs u =
      Bounds-unique (probe xs) (length xs) _ _
        (search-Bounds (probe xs) (length xs) (probe_mono xs u))
        (record {
          inside = rank-le xs;
          below = probe_below xs;
          above = λ k a _. probe_above xs u k a;
        })
