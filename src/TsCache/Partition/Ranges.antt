-- ===== src/TsCache/Partition/Ranges.antt =====
-- tscache/partition.go: the range query and the rebuilt partitions against plain filters.
use d_utils.Base.{
  ℕ, zero, suc, ltb, lt→ltb, ◌-◌, ◌≤◌, ◌<◌, get_elem?, some, some_inj, All_get, ◌≡◌, refl, Bool,
  true, false, ◌&&◌, List, [], ◌∷◌, drop, filter_by, arith, All, Bool-cases, inl, inr,
}
use d_utils.Base.Int.{ℤ, int_key, leb_ℤ, ◌≤ℤ◌, ◌<ℤ◌}
use d_utils.Base.Search.{rank, search-rank}
use d_utils.Base.Outcome.{returns, panics}
use d_utils.TsCache.Partition.Items.{Item, IsSorted, is_live}
use d_utils.TsCache.Partition.{Partition, at_least, above, collect, get_range}
use d_utils.TsCache.Partition.Order.{Above, at_least-IsUpward, above-IsUpward}
use d_utils.TsCache.Partition.Valid.{IsValid}

sub_zero : (n : ℕ) → n - 0 ≡ n
sub_zero n = omega arith

zero_sub : (n : ℕ) → 0 - n ≡ 0
zero_sub n = omega arith

suc_sub : (n m : ℕ) → suc n - suc m ≡ n - m
suc_sub n m = omega arith

module _ {ℓ} {T : Type ℓ} where
  abbrev pub in_range : ℤ → ℤ → Item T → Bool
  in_range start end x = leb_ℤ start x.timestamp && leb_ℤ x.timestamp end

  -- Past the end of the range nothing is in it.
  filter_by_past :
      (now start end s : ℤ) (xs : List (Item T))
      → leb_ℤ s end ≡ false
      → Above s xs
      → filter_by (λ x. in_range start end x && is_live now x) xs ≡ []
  filter_by_past now start end s [] h a = refl
  filter_by_past now start end s (x ∷ xs) h a =
      ground (arith, filter_by_past now start end s xs h a.1)

  -- From the first item in the range on, `rank (above end)` rounds collect those up to its end.
  collect_tail :
      (now start end : ℤ) (xs : List (Item T))
      → IsSorted xs
      → All (λ y. at_least start y ≡ true) xs
      → collect now (rank (above end) xs) xs
        ≡ returns (filter_by (λ x. in_range start end x && is_live now x) xs)
  unfolding collect rank
  collect_tail now start end [] h a = refl
  collect_tail now start end (x ∷ xs) h a = elim (Bool-cases (above end x)) [
    | inl past ↦
        let out : in_range start end x ≡ false = ground arith in
        rw (past, out, filter_by_past now start end x.timestamp xs (ground arith) h.0)
    | inr inside ↦
        let within : in_range start end x ≡ true = ground arith in
        rw (inside, within, collect_tail now start end xs h.1 a.1)
  ]

  -- The two searches delimit the items to visit.
  collect-drop :
      (now start end : ℤ) (xs : List (Item T))
      → IsSorted xs
      → let i = rank (at_least start) xs in
        collect now (rank (above end) xs - i) (drop i xs)
        ≡ returns (filter_by (λ x. in_range start end x && is_live now x) xs)
  unfolding rank
  collect-drop now start end [] h = unfold collect in refl
  collect-drop now start end (x ∷ xs) h = elim (Bool-cases (at_least start x)) [
    | inl from ↦
        let rest = (at_least-IsUpward start (x ∷ xs) h).0 from in
        let whole = collect_tail now start end (x ∷ xs) h (from, rest) in
        rw (from, sub_zero) (rw from at whole)
    | inr early ↦ elim (Bool-cases (above end x)) [
      | inl past ↦
          rw
            (
              early,
              past,
              zero_sub (suc (rank (at_least start) xs)),
              filter_by_past now start end x.timestamp xs (ground arith) h.0,
            )
            (unfold collect in refl)
      | inr before ↦ rw (early, before, suc_sub) (collect-drop now start end xs h.1)
    ]
  ]

  rank_order :
      (start end : ℤ) (xs : List (Item T))
      → start ≤ℤ end
      → ltb (rank (above end) xs) (rank (at_least start) xs) ≡ false
  unfolding rank
  rank_order start end [] h = refl
  rank_order start end (x ∷ xs) h = ground (arith, rank_order start end xs h)

  -- On a valid partition `getRange`, from a start that is not after the end, returns the items of the
  -- range that have not expired, in order: it does not panic.
  pub get_range-filter_by :
      (now : ℤ) (p : Partition T) (start end : ℤ)
      → IsValid p
      → start ≤ℤ end
      → get_range now p start end
        ≡ returns (filter_by (λ x. in_range start end x && is_live now x) p.items)
  unfolding get_range
  get_range-filter_by now p start end v order =
      rw
        (
          search-rank (at_least start) p.items (at_least-IsUpward start p.items v.sorted),
          search-rank (above end) p.items (above-IsUpward end p.items v.sorted),
          rank_order start end p.items order,
        )
        (collect-drop now start end p.items v.sorted)

  rank_between :
      (start end : ℤ) (xs : List (Item T)) (i : ℕ) (x : Item T)
      → IsSorted xs
      → get_elem? xs i ≡ some x
      → end <ℤ x.timestamp
      → x.timestamp <ℤ start
      → (rank (above end) xs ≤ i) × (i < rank (at_least start) xs)
  unfolding rank
  rank_between start end [] i x h at a b = absurd (cc)
  rank_between start end (y ∷ ys) zero x h at a b =
      let same : y ≡ x = some_inj at in ground (arith, same)
  rank_between start end (y ∷ ys) (suc i) x h at a b =
      let earlier = All_get (λ (z : Item T). y.timestamp <ℤ z.timestamp) ys i h.0 at in
      ground (arith, rank_between start end ys i x h.1 at a b, earlier)

  -- With an item of a valid partition strictly between an end and a later start, `getRange` from the
  -- start to the end panics.
  pub get_range-panics :
      (now : ℤ) (p : Partition T) (start end : ℤ) (i : ℕ) (x : Item T)
      → IsValid p
      → get_elem? p.items i ≡ some x
      → end <ℤ x.timestamp
      → x.timestamp <ℤ start
      → get_range now p start end ≡ panics
  unfolding get_range
  get_range-panics now p start end i x v at a b =
      let between = rank_between start end p.items i x v.sorted at a b in
      let less : ltb (rank (above end) p.items) (rank (at_least start) p.items) ≡ true =
        lt→ltb _ _ (omega (arith, between)) in
      rw
        (
          search-rank (at_least start) p.items (at_least-IsUpward start p.items v.sorted),
          search-rank (above end) p.items (above-IsUpward end p.items v.sorted),
          less,
        )
        refl
