-- ===== src/TsCache/Partition/Nearest.antt =====
-- tscache/partition.go: `getNearest`, and distances of timestamps.
use d_utils.Base.{
  ℕ, zero, suc, ◌-◌, ◌<◌, ◌≡◌, refl, sym, ◌∙◌, false, List, Option, none, some, if◌then◌else◌,
  length, get_elem?, arith, All, All_get, Bool-cases, inl, inr, nat_eqb, get_elem?-some_of_lt,
}
use d_utils.Base.Int.{ℤ}
use d_utils.Base.Search.{rank, rank-le, search-rank}
use d_utils.Base.Outcome.{Outcome, returns, ◌>>=◌}
use d_utils.TsCache.Partition.Items.{Item, IsSorted}
use d_utils.TsCache.Partition.{Partition, at_least, index, closer, get_nearest}
use d_utils.TsCache.Partition.Order.{at_least-IsUpward}
use d_utils.TsCache.Partition.Valid.{IsValid}
use d_utils.TsCache.Partition.Neighbours.{
  IsNearest, before_place, after_place, Fits, closer_lem, All-earlier, All-later, IsNearest-last,
  IsNearest-first,
}

module _ {ℓ} {T : Type ℓ} where
  -- `x` is an item of the list at the least distance from `t`.
  pub record Answers (t : ℤ) (xs : List (Item T)) (x : Item T) : Type ℓ where
    pub place : ℕ
    pub stands : get_elem? xs place ≡ some x
    pub nearest : IsNearest t xs x

  abbrev pub nearest_at : ℤ → List (Item T) → ℕ → Outcome (Option (Item T))
  nearest_at t xs idx =
      let n = length xs in
      if nat_eqb n 0
      then returns none
      else if nat_eqb idx n
      then (index xs (n - 1) >>= λ x. returns (some x))
      else if nat_eqb idx 0
      then (index xs 0 >>= λ x. returns (some x))
      else (index xs idx >>= λ curr.
          index xs (idx - 1) >>= λ prev. returns (some (closer t prev curr)))

  index_get :
      (xs : List (Item T)) (i : ℕ) (x : Item T) → get_elem? xs i ≡ some x → index xs i ≡ returns x
  index_get xs i x e = rw (e, index)

  last_Answers :
      (t : ℤ) (xs : List (Item T)) (k : ℕ)
      → IsSorted xs
      → rank (at_least t) xs ≡ suc k
      → length xs ≡ suc k
      → (x : Item T) × (get_elem? xs k ≡ some x) × Answers t xs x
  last_Answers t xs k h r n =
      let (x, got) = get_elem?-some_of_lt xs k (omega arith) in
      let (lt, b) = before_place t xs k x h r got in
      (
        x,
        got,
        record {
          place = k;
          stands = got;
          nearest = IsNearest-last t xs x lt b (All-earlier t xs (r ∙ sym n));
        },
      )

  first_Answers :
      (t : ℤ) (xs : List (Item T))
      → IsSorted xs
      → rank (at_least t) xs ≡ 0
      → 0 < length xs
      → (x : Item T) × (get_elem? xs 0 ≡ some x) × Answers t xs x
  first_Answers t xs h r n =
      let (x, got) = get_elem?-some_of_lt xs 0 n in
      (
        x,
        got,
        record {
          place = 0;
          stands = got;
          nearest = IsNearest-first t xs x (after_place t xs x h (rw r got)) (All-later t xs h r);
        },
      )

  between_Answers :
      (t : ℤ) (xs : List (Item T)) (k : ℕ)
      → IsSorted xs
      → All (Fits t) xs
      → rank (at_least t) xs ≡ suc k
      → suc k < length xs
      → (prev curr : Item T) → get_elem? xs k ≡ some prev
      → get_elem? xs (suc k) ≡ some curr
      → Answers t xs (closer t prev curr)
  between_Answers t xs k h fits r n prev curr gp gc =
      let l = before_place t xs k prev h r gp in
      let e = after_place t xs curr h (rw r gc) in
      let (near, which) =
        closer_lem t xs prev curr (All_get (Fits t) xs k fits gp)
          (All_get (Fits t) xs (suc k) fits gc) l e in
      elim which [
        | inl is_prev ↦ record { place = k; stands = rw is_prev gp; nearest = near }
        | inr is_curr ↦ record { place = suc k; stands = rw is_curr gc; nearest = near }
      ]

  nearest_at_lem :
      (t : ℤ) (xs : List (Item T)) (idx : ℕ)
      → IsSorted xs
      → All (Fits t) xs
      → rank (at_least t) xs ≡ idx
      → 0 < length xs
      → (x : Item T) × (nearest_at t xs idx ≡ returns (some x)) × Answers t xs x
  nearest_at_lem t xs zero h fits r n =
      let (x, got, answer) = first_Answers t xs h r n in
      let some_items : nat_eqb (length xs) 0 ≡ false = ground arith in
      let not_past : nat_eqb 0 (length xs) ≡ false = ground arith in
      (x, rw (some_items, not_past, index_get xs 0 x got), answer)
  nearest_at_lem t xs (suc k) h fits r n = elim (Bool-cases (nat_eqb (suc k) (length xs))) [
    | inl past ↦
        let full : length xs ≡ suc k = ground arith in
        let (x, got, answer) = last_Answers t xs k h r full in
        let some_items : nat_eqb (length xs) 0 ≡ false = ground arith in
        let last : length xs - 1 ≡ k = omega arith in
        (x, rw (some_items, past, last, index_get xs k x got), answer)
    | inr inside ↦
        let some_items : nat_eqb (length xs) 0 ≡ false = ground arith in
        let below : suc k < length xs = ground (arith, rank-le (at_least t) xs) in
        let (prev, gp) = get_elem?-some_of_lt xs k (omega arith) in
        let (curr, gc) = get_elem?-some_of_lt xs (suc k) below in
        let before : suc k - 1 ≡ k = omega arith in
        let not_first : nat_eqb (suc k) 0 ≡ false = ground arith in
        (
          closer t prev curr,
          rw (
            some_items,
            inside,
            not_first,
            before,
            index_get xs (suc k) curr gc,
            index_get xs k prev gp,
          ),
          between_Answers t xs k h fits r below prev curr gp gc,
        )
  ]

  -- On a valid partition that is not empty `getNearest` returns an item of it at the least distance
  -- from `t`, provided that no difference of `t` and a timestamp of it overflows.
  pub get_nearest_lem :
      (p : Partition T) (t : ℤ)
      → IsValid p
      → All (Fits t) p.items
      → 0 < length p.items
      → (x : Item T) × (get_nearest p t ≡ returns (some x)) × Answers t p.items x
  unfolding get_nearest
  get_nearest_lem p t v fits n =
      rw (search-rank (at_least t) p.items (at_least-IsUpward t p.items v.sorted))
        (nearest_at_lem t p.items (rank (at_least t) p.items) v.sorted fits refl n)
