-- ===== src/TsCache/Store/Delete/Visits.antt =====
-- tscache/cache.go: the partitions that the loop of `DeleteRange` visits.
use d_utils.Base.{
  ℕ, zero, suc, ◌+◌, ◌/◌, ◌<◌, ◌≡◌, refl, sym, ◌∙◌, Bool, true, false, ◌||◌, Option, none, some,
  if◌then◌else◌, arith, Bool-cases, Option-cases, inl, inr, ◌==◌,
}
use mathlib.Core.Path.{subst}
use d_utils.Base.Int.{
  ℤ, int_key, eqb_ℤ, eqb_ℤ_iff, pos, pos_part, leb_ℤ, ◌-ℤ◌, ◌+ℤ◌, ◌≤ℤ◌, ◌<ℤ◌, +ℤ_parts, sign_parts,
}
use d_utils.Base.Word.{InInt64, add64, add64_exact, wrap64-InInt64}
use d_utils.Base.GoTime.{Time, Duration, unix_nano}
use d_utils.Base.Dict.{lookup, lookup-insert, lookup-insert_self, lookup-remove, lookup-remove_self}
use d_utils.TsCache.Partition.{Partition}
use d_utils.TsCache.Store.{Store, partition_start}
use d_utils.TsCache.Store.Range.{ordered}
use d_utils.TsCache.Store.Range.Rounds.{Covers, Covers-between}
use d_utils.TsCache.Store.Writes.{IsValid}
use d_utils.TsCache.Store.Delete.Cut.{cut, IsCut, cut-IsCut}
use d_utils.TsCache.Store.Delete.{thin, is_whole, delete_step, remove_range, delete_range}

-- The start is one of `rounds` places, one partition size apart.
unfoldable pub is_visited : ℕ → Duration → ℤ → ℤ → Bool
is_visited zero size at s = false
is_visited (suc rounds) size at s = at == s || is_visited rounds size (at +ℤ size) s

not_visited :
    (rounds : ℕ) (size : Duration) (at s : ℤ)
    → pos 0 <ℤ size
    → s <ℤ at
    → is_visited rounds size at s ≡ false
unfolding is_visited
not_visited zero size at s p h = refl
not_visited (suc rounds) size at s p h =
    let rest = not_visited rounds size (at +ℤ size) s p (omega (arith, p, h, +ℤ_parts at size)) in
    let apart : eqb_ℤ at s ≡ false = ground arith in rw (apart, rest) refl

visited_between :
    (rounds : ℕ) (size : Duration) (at last s : ℤ)
    → pos 0 <ℤ size
    → Covers size last rounds at
    → is_visited rounds size at s ≡ true
    → (at ≤ℤ s) × (s ≤ℤ last)
unfolding is_visited
visited_between zero size at last s p h e = absurd (cc e)
visited_between (suc rounds) size at last s p h e = elim (Bool-cases (at == s)) [
  | inl same ↦
      let here : at ≡ s = (eqb_ℤ_iff at s).0 same in
      let first : at ≤ℤ last = h.0 in
      (subst (λ z. at ≤ℤ z) here (omega arith), subst (λ z. z ≤ℤ last) here first)
  | inr other ↦
      let (low, high) = visited_between rounds size (at +ℤ size) last s p h.1 (rw other at e) in
      (omega (arith, p, low, +ℤ_parts at size), high)
]

module _ {ℓ} {T : Type ℓ} where
  delete_step_here :
      {E : Type ℓ} (size : Duration) (c : Store T) (saved : Partition T → Option E)
      (at start end : ℤ)
      → lookup at (delete_step size c saved at start end).0.partitions
        ≡ cut size at start end (lookup at c.partitions)
  unfolding delete_step
  delete_step_here size c saved at start end = elim (Option-cases (lookup at c.partitions)) [
    | inl absent ↦ rw (absent, delete_step, absent) refl
    | inr (p, present) ↦ elim (Bool-cases (is_whole size at start end)) [
      | inl whole ↦ rw (present, delete_step, whole) (lookup-remove_self at c.partitions)
      | inr part ↦
          rw (present, delete_step, part) (lookup-insert_self at (thin start end p) c.partitions)
    ]
  ]

  delete_step-lookup :
      {E : Type ℓ} (size : Duration) (c : Store T) (saved : Partition T → Option E)
      (at start end s : ℤ)
      → lookup s (delete_step size c saved at start end).0.partitions
        ≡ (if at == s then cut size s start end (lookup s c.partitions) else lookup s c.partitions)
  unfolding delete_step
  delete_step-lookup size c saved at start end s = elim (Bool-cases (at == s)) [
    | inl same ↦ rw same (
        subst
          (λ z.
            lookup z (delete_step size c saved at start end).0.partitions
            ≡ cut size z start end (lookup z c.partitions))
          ((eqb_ℤ_iff at s).0 same) (delete_step_here size c saved at start end))
    | inr other ↦ elim (Option-cases (lookup at c.partitions)) [
      | inl absent ↦ rw (absent, delete_step, other) refl
      | inr (p, present) ↦ elim (Bool-cases (is_whole size at start end)) [
        | inl whole ↦
            rw (present, delete_step, whole, other)
              (lookup-remove at s c.partitions ∙ rw other refl)
        | inr part ↦
            rw (present, delete_step, part, other)
              (lookup-insert at s (thin start end p) c.partitions ∙ rw other refl)
      ]
    ]
  ]

  delete_step-none :
      {E : Type ℓ} (size : Duration) (c : Store T) (saved : Partition T → Option E)
      (at start end : ℤ)
      → ((p : Partition T) → saved p ≡ none)
      → (delete_step size c saved at start end).1 ≡ none
  unfolding delete_step
  delete_step-none size c saved at start end works = elim (Option-cases (lookup at c.partitions)) [
    | inl absent ↦ rw (absent, delete_step) refl
    | inr (p, present) ↦ elim (Bool-cases (is_whole size at start end)) [
      | inl whole ↦ rw (present, delete_step, whole) refl
      | inr part ↦ rw (present, delete_step, part) (works (thin start end p))
    ]
  ]

  after_step :
      {E : Type ℓ} (rounds : ℕ) (size : Duration) (c : Store T) (saved : Partition T → Option E)
      (at start end s : ℤ)
      → pos 0 <ℤ size
      → let found = lookup s (delete_step size c saved at start end).0.partitions in
        (if is_visited rounds size (at +ℤ size) s then cut size s start end found else found) ≡ (
          if is_visited (suc rounds) size at s
          then cut size s start end (lookup s c.partitions)
          else lookup s c.partitions)
  unfolding is_visited
  after_step rounds size c saved at start end s p = elim (Bool-cases (at == s)) [
    | inl same ↦
        let once : is_visited rounds size (at +ℤ size) s ≡ false =
          not_visited rounds size (at +ℤ size) s p (ground (arith, same, +ℤ_parts at size)) in
        rw (same, once) (delete_step-lookup size c saved at start end s ∙ rw same refl)
    | inr other ↦
        let untouched = delete_step-lookup size c saved at start end s ∙ rw other refl in
        rw (other, untouched) refl
  ]

  remove_range-lookup :
      {E : Type ℓ} (n rounds : ℕ) (size : Duration) (c : Store T) (saved : Partition T → Option E)
      (at last start end : ℤ)
      → ((p : Partition T) → saved p ≡ none)
      → pos 0 <ℤ size
      → InInt64 at
      → InInt64 (last +ℤ size)
      → Covers size last rounds at
      → rounds < n
      → (d : Store T) × (remove_range n size c saved at last start end ≡ some (d, none))
        × ((s : ℤ)
            → lookup s d.partitions ≡ (
                if is_visited rounds size at s
                then cut size s start end (lookup s c.partitions)
                else lookup s c.partitions))
  unfolding remove_range is_visited
  remove_range-lookup zero rounds size c saved at last start end works p fits far h more =
      absurd (omega arith)
  remove_range-lookup (suc n) zero size c saved at last start end works p fits far h more =
      let past : leb_ℤ at last ≡ false = ground arith in
      (c, rw (past, remove_range) refl, λ s. refl)
  remove_range-lookup (suc n) (suc rounds) size c saved at last start end works p fits far h more =
      let within : leb_ℤ at last ≡ true = ground (arith, h.0) in
      let next_fits : InInt64 (at +ℤ size) =
        omega (arith, h.0, +ℤ_parts at size, +ℤ_parts last size, sign_parts (at +ℤ size)) in
      let next : add64 at size ≡ at +ℤ size = add64_exact at size next_fits in
      let c1 = (delete_step size c saved at start end).0 in
      let (d, e, after) =
        remove_range-lookup n rounds size c1 saved (at +ℤ size) last start end works p next_fits far
          h.1 (omega arith) in
      (
        d,
        rw (within, remove_range, delete_step-none size c saved at start end works, next, e) refl,
        λ s. after s ∙ after_step rounds size c saved at start end s p,
      )

  -- `DeleteRange` on a valid cache with a positive partition size, between two times whose partitions
  -- are in order, when every `SavePartition` works: the loop ends without an error. Of the partitions
  -- that start one size apart from that of the first time to that of the last, those that lie within the
  -- range, from their start to the next one, are gone, and the others have exactly the items that they
  -- had outside of the range, in order, and are valid; every other partition is as before. The partition
  -- behind the last one starts within `int64`.
  pub delete_range-IsCut :
      {E : Type ℓ} (c : Store T) (start end : Time) (saved : Partition T → Option E)
      → ((p : Partition T) → saved p ≡ none)
      → IsValid c
      → pos 0 <ℤ c.partition_size
      → let times = ordered start end in
        let from = partition_start c times.0 in
        let to = partition_start c times.1 in
        from ≤ℤ to
        → InInt64 (to +ℤ c.partition_size)
        → let visits = suc (pos_part (to -ℤ from) / pos_part c.partition_size) in
          (d : Store T) × (delete_range c start end saved ≡ some (d, none))
          × ((s : ℤ)
              → (is_visited visits c.partition_size from s ≡ true
                  → IsCut c.partition_size s
                      (unix_nano times.0)
                      (unix_nano times.1)
                      (lookup s c.partitions)
                      (lookup s d.partitions))
                × (is_visited visits c.partition_size from s ≡ false
                    → lookup s d.partitions ≡ lookup s c.partitions))
  unfolding delete_range
  delete_range-IsCut c start end saved works valid size ends far =
      let times = ordered start end in
      let from = partition_start c times.0 in
      let to = partition_start c times.1 in
      let q = pos_part (to -ℤ from) / pos_part c.partition_size in
      let covers = Covers-between c.partition_size from to size ends in
      let from_fits : InInt64 from = unfold unix_nano in wrap64-InInt64 _ in
      let (d, e, after) =
        remove_range-lookup (q + 2) (suc q) c.partition_size c saved from to (unix_nano times.0)
          (unix_nano times.1) works size from_fits far covers (omega arith) in
      (
        d,
        e,
        λ s. (
          λ visited.
              let (low, high) =
                visited_between (suc q) c.partition_size from to s size covers visited in
              let fits : InInt64 (s +ℤ c.partition_size) = omega (
                arith,
                low,
                high,
                from_fits,
                far,
                size,
                +ℤ_parts s c.partition_size,
                +ℤ_parts to c.partition_size,
                sign_parts (s +ℤ c.partition_size),
                sign_parts (to +ℤ c.partition_size),
              ) in
              subst
                (IsCut c.partition_size s (unix_nano times.0) (unix_nano times.1)
                  (lookup s c.partitions))
                (sym (after s ∙ rw visited refl))
                (cut-IsCut c.partition_size s (unix_nano times.0) (unix_nano times.1)
                  (lookup s c.partitions) (add64_exact s c.partition_size fits) (valid s)),
          λ unvisited. after s ∙ rw unvisited refl,
        ),
      )
