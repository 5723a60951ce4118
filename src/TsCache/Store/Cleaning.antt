-- ===== src/TsCache/Store/Cleaning.antt =====
-- tscache/cache.go: a round of `cleanup`.
use d_utils.Base.{
  ◌<◌, ◌≡◌, refl, sym, ◌∙◌, true, false, ◌&&◌, [], ◌∷◌, Option, none, some, if◌then◌else◌, arith,
  All, Bool-cases, ◌⊎◌, inl, inr, ◌==◌, length, ltb→lt,
}
use mathlib.Core.Path.{subst}
use d_utils.Base.Int.{ℤ, int_key, eqb_ℤ_iff, eq_of_parts, pos, ltb_ℤ, ◌≤ℤ◌}
use d_utils.Base.Word.{max_int64}
use d_utils.Base.Dict.{Dict, lookup, remove, Distinct}
use d_utils.TsCache.Partition
use d_utils.TsCache.Partition.{Partition}
use d_utils.TsCache.Store.{Store, cleanup_all, oldest_start, drop_oldest, cleanup}

int_antisym : (a b : ℤ) → a ≤ℤ b → b ≤ℤ a → a ≡ b
int_antisym a b h k = ground (arith, eq_of_parts a b)

module _ {ℓ} {T : Type ℓ} where
  -- What the first loop leaves of a partition.
  abbrev pub swept : ℤ → Option (Partition T) → Option (Partition T)
  swept now none = none
  swept now (some p) =
      if (Partition.cleanup now p).1 then some (Partition.cleanup now p).0 else none

  cleanup_all-lookup :
      (now : ℤ → ℤ) (m : Dict ℤ (Partition T)) (s : ℤ)
      → Distinct m
      → lookup s (cleanup_all now m) ≡ swept (now s) (lookup s m)
  unfolding cleanup_all lookup
  cleanup_all-lookup now [] s d = refl
  cleanup_all-lookup now ((start, p) ∷ m) s d = elim (Bool-cases (start == s)) [
    | inl same ↦
        let name = (eqb_ℤ_iff start s).0 same in
        let gone = subst (λ z. lookup z m ≡ none) name d.0 in
        let rest = cleanup_all-lookup now m s d.1 ∙ rw gone refl in
        elim (Bool-cases (Partition.cleanup (now start) p).1) [
          | inl any ↦
              let any' = subst (λ z. (Partition.cleanup (now z) p).1 ≡ true) name any in
              let q =
                subst (λ z. (Partition.cleanup (now start) p).0 ≡ (Partition.cleanup (now z) p).0)
                  name refl in
              rw (any, same, any', q) refl
          | inr empty ↦
              let empty' = subst (λ z. (Partition.cleanup (now z) p).1 ≡ false) name empty in
              rw (empty, same, empty') rest
        ]
    | inr other ↦ elim (Bool-cases (Partition.cleanup (now start) p).1) [
      | inl any ↦ rw (any, other) (cleanup_all-lookup now m s d.1)
      | inr empty ↦ rw (empty, other) (cleanup_all-lookup now m s d.1)
    ]
  ]

  -- All starts are from `s` on.
  abbrev pub From : ℤ → Dict ℤ (Partition T) → Type 0
  From s = All (λ (e : ℤ × Partition T). s ≤ℤ e.0)

  found_in :
      (start o : ℤ) (p : Partition T) (m : Dict ℤ (Partition T))
      → (o ≡ start) ⊎ ((q : Partition T) × (lookup o m ≡ some q))
      → (r : Partition T) × (lookup o ((start, p) ∷ m) ≡ some r)
  unfolding lookup
  found_in start o p m h = elim (Bool-cases (start == o)) [
    | inl same ↦ (p, rw same refl)
    | inr other ↦ elim h [
      | inl e ↦ absurd (ground (arith, other, e))
      | inr (q, at) ↦ (q, rw other at)
    ]
  ]

  -- A start that is no later than `least` and than all starts, and is `least` or one of them.
  abbrev IsOldest : ℤ → Dict ℤ (Partition T) → ℤ → Type ℓ
  IsOldest least m o =
      (o ≤ℤ least) × From o m × ((o ≡ least) ⊎ ((p : Partition T) × (lookup o m ≡ some p)))

  oldest_start-IsOldest :
      (least : ℤ) (m : Dict ℤ (Partition T)) → IsOldest least m (oldest_start least m)
  unfolding oldest_start
  oldest_start-IsOldest least [] = (omega arith, tt, inl refl)
  oldest_start-IsOldest least ((start, p) ∷ m) = elim (Bool-cases (ltb_ℤ start least)) [
    | inl older ↦
        let (a, b, c) = oldest_start-IsOldest start m in
        let step : oldest_start least ((start, p) ∷ m) ≡ oldest_start start m = rw older refl in
        subst (IsOldest least ((start, p) ∷ m)) (sym step) (
          omega (arith, a, ltb→lt _ _ older),
          (a, b),
          inr (found_in start (oldest_start start m) p m c),
        )
    | inr younger ↦
        let (a, b, c) = oldest_start-IsOldest least m in
        let step : oldest_start least ((start, p) ∷ m) ≡ oldest_start least m = rw younger refl in
        subst (IsOldest least ((start, p) ∷ m)) (sym step) (
          a,
          (ground (arith, a, younger), b),
          (elim c [
            | inl e ↦ inl e
            | inr at ↦ inr (found_in start (oldest_start least m) p m (inr at))
          ]),
        )
  ]

  -- All starts fit `int64`.
  abbrev pub UpTo : ℤ → Dict ℤ (Partition T) → Type 0
  UpTo s = All (λ (e : ℤ × Partition T). e.0 ≤ℤ s)

  first_start :
      (m : Dict ℤ (Partition T))
      → 0 < length m
      → UpTo max_int64 m
      → (p : Partition T) × (lookup (oldest_start max_int64 m) m ≡ some p)
  first_start [] h u = absurd (omega arith)
  first_start ((start, p) ∷ m) h u =
      let (a, b, c) = oldest_start-IsOldest max_int64 ((start, p) ∷ m) in
      elim c [
        | inl e ↦
            found_in start _ p m
              (inl (int_antisym _ start b.0 (subst (λ z. start ≤ℤ z) (sym e) u.0)))
        | inr at ↦ at
      ]

  cleanup_all-UpTo :
      (now : ℤ → ℤ) (m : Dict ℤ (Partition T)) (s : ℤ) → UpTo s m → UpTo s (cleanup_all now m)
  unfolding cleanup_all
  cleanup_all-UpTo now [] s u = tt
  cleanup_all-UpTo now ((start, p) ∷ m) s u =
      elim (Bool-cases (Partition.cleanup (now start) p).1) [
        | inl any ↦ rw any (u.0, cleanup_all-UpTo now m s u.1)
        | inr empty ↦ rw empty (cleanup_all-UpTo now m s u.1)
      ]

  -- A round of `cleanup` on a cache whose partitions start within `int64`, one for each start, sweeps
  -- each partition and drops those that are left empty. If more are left than the bound allows, and the
  -- bound is positive, it saves the one that starts first and drops it, and no other; otherwise it drops
  -- none of them and saves none.
  pub cleanup-oldest :
      (c : Store T) (now : ℤ → ℤ) (s : ℤ)
      → Distinct c.partitions
      → UpTo max_int64 c.partitions
      → let m = cleanup_all now c.partitions in
        let over = ltb_ℤ (pos 0) c.max_partitions && ltb_ℤ c.max_partitions (pos (length m)) in
        (lookup s m ≡ swept (now s) (lookup s c.partitions))
        × (over ≡ false → ((cleanup c now).partitions ≡ m) × ((cleanup c now).saves ≡ c.saves))
        × (over ≡ true
            → (first : ℤ) × (p : Partition T) × (lookup first m ≡ some p)
              × From first m
              × ((cleanup c now).partitions ≡ remove first m)
              × ((cleanup c now).saves ≡ p ∷ c.saves))
  unfolding cleanup drop_oldest
  cleanup-oldest c now s d u =
      let m = cleanup_all now c.partitions in
      (
        cleanup_all-lookup now c.partitions s d,
        (λ fits. rw fits (refl, refl)),
        (λ over.
            let some_left : 0 < length m = ground (arith, over) in
            let (p, at) = first_start m some_left (cleanup_all-UpTo now c.partitions max_int64 u) in
            (
              oldest_start max_int64 m,
              p,
              at,
              (oldest_start-IsOldest max_int64 m).1,
              rw (over, at) refl,
              rw (over, at) refl,
            )),
      )
