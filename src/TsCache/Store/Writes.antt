-- ===== src/TsCache/Store/Writes.antt =====
-- tscache/cache.go: `Set` against the reads that follow it.
use d_utils.Base.{
  ◌≡◌, refl, sym, ◌∙◌, Option, none, some, if◌then◌else◌, arith, Bool-cases, Option-cases, inl, inr,
  ◌==◌,
}
use mathlib.Core.Path.{ap, subst}
use d_utils.Base.Int.{ℤ, int_key, eqb_ℤ_iff}
use d_utils.Base.GoTime.{Time, Duration, unix_nano, truncate}
use d_utils.Base.Dict.{lookup, lookup-insert}
use d_utils.Base.Outcome.{Outcome, returns, panics}
use d_utils.TsCache.Partition.{Partition}
use d_utils.TsCache.Partition.Items.{Item, is_live}
use d_utils.TsCache.Partition.Order.{find}
use d_utils.TsCache.Partition.Valid.{insert_item_lem, get-find, new_partition-IsValid}
use d_utils.TsCache.Partition.Valid
use d_utils.TsCache.Store.{
  Store, partition_start, loaded_or_new, get_partition, value_of, get_exact,
}

module _ {ℓ} {T : Type ℓ} where
  abbrev pub IsValid : Store T → Type ℓ
  IsValid c = (start : ℤ) (p : Partition T) → lookup start c.partitions ≡ some p → Valid.IsValid p

  -- What is loaded from the files is a valid partition.
  abbrev pub Loads : Option (Partition T) → Type ℓ
  Loads loaded = (p : Partition T) → loaded ≡ some p → Valid.IsValid p

  loaded_or_new-IsValid :
      (loaded : Option (Partition T)) (start : ℤ) (size : Duration)
      → Loads loaded
      → Valid.IsValid (loaded_or_new loaded start size)
  loaded_or_new-IsValid none start size l = new_partition-IsValid start size
  loaded_or_new-IsValid (some p) start size l = l p refl

  pub get_partition-IsValid :
      (c : Store T) (t : Time) (loaded : Option (Partition T))
      → IsValid c
      → Loads loaded
      → Valid.IsValid (get_partition c t loaded).1
  unfolding get_partition
  get_partition-IsValid c t loaded v l =
      elim (Option-cases (lookup (partition_start c t) c.partitions)) [
        | inl absent ↦
            rw (absent, get_partition) (loaded_or_new-IsValid loaded _ c.partition_size l)
        | inr (p, present) ↦ rw (present, get_partition) (v _ p present)
      ]

  pub get_partition-lookup :
      (c : Store T) (t : Time) (loaded : Option (Partition T)) (s : ℤ)
      → lookup s (get_partition c t loaded).0.partitions ≡ (
          if partition_start c t == s
          then some (get_partition c t loaded).1
          else lookup s c.partitions)
  unfolding get_partition
  get_partition-lookup c t loaded s =
      elim (Option-cases (lookup (partition_start c t) c.partitions)) [
        | inl absent ↦
            rw (absent, get_partition) (lookup-insert (partition_start c t) s _ c.partitions)
        | inr (p, present) ↦ elim (Bool-cases (partition_start c t == s)) [
          | inl same ↦
              rw (present, get_partition, same)
                (subst (λ z. lookup z c.partitions ≡ some p)
                  ((eqb_ℤ_iff (partition_start c t) s).0 same) present)
          | inr other ↦ rw (present, get_partition, other) refl
        ]
      ]

  get_partition-present :
      (c : Store T) (t : Time) (loaded : Option (Partition T)) (p : Partition T)
      → lookup (partition_start c t) c.partitions ≡ some p
      → get_partition c t loaded ≡ (c, p)
  unfolding get_partition
  get_partition-present c t loaded p present = rw (present, get_partition) refl

  pub get_partition-size :
      (c : Store T) (t : Time) (loaded : Option (Partition T))
      → (get_partition c t loaded).0.partition_size ≡ c.partition_size
  unfolding get_partition
  get_partition-size c t loaded = elim (Option-cases (lookup (partition_start c t) c.partitions)) [
    | inl absent ↦ rw (absent, get_partition) refl
    | inr (p, present) ↦ rw (present, get_partition) refl
  ]

  abbrev opened : Option (Partition T) → Option (Partition T) → ℤ → Duration → Partition T
  opened (some p) loaded start size = p
  opened none loaded start size = loaded_or_new loaded start size

  get_partition-opened :
      (c : Store T) (t : Time) (loaded : Option (Partition T))
      → (get_partition c t loaded).1
        ≡ opened
            (lookup (partition_start c t) c.partitions)
            loaded
            (partition_start c t)
            c.partition_size
  unfolding get_partition
  get_partition-opened c t loaded =
      elim (Option-cases (lookup (partition_start c t) c.partitions)) [
        | inl absent ↦ rw (absent, get_partition) refl
        | inr (p, present) ↦ rw (present, get_partition) refl
      ]

  pub get_partition-same :
      (c : Store T) (t u : Time) (loaded : Option (Partition T))
      → partition_start c u ≡ partition_start c t
      → (get_partition c u loaded).1 ≡ (get_partition c t loaded).1
  get_partition-same c t u loaded same =
      get_partition-opened c u loaded
      ∙ ap (λ s. opened (lookup s c.partitions) loaded s c.partition_size) same
      ∙ sym (get_partition-opened c t loaded)

  -- The answer of a read, without the cache behind it.
  abbrev pub answer : Outcome (Store T × Option T) → Outcome (Option T)
  answer (returns (c, v)) = returns v
  answer panics = panics

  abbrev pub seen : ℤ → Option (Item T) → Option T
  seen now none = none
  seen now (some x) = if is_live now x then some x.value else none

  value_of-seen :
      (now : ℤ) (o : Option (Item T))
      → value_of (elim o [ none ↦ none | some x ↦ if is_live now x then some x else none ])
        ≡ seen now o
  value_of-seen now none = refl
  value_of-seen now (some x) = ground arith

  pub answer-get_exact :
      (c : Store T) (u : Time) (now : ℤ) (loaded : Option (Partition T))
      → Valid.IsValid (get_partition c u loaded).1
      → answer (get_exact c u now loaded)
        ≡ returns (seen now (find (unix_nano u) (get_partition c u loaded).1.items))
  unfolding get_exact
  answer-get_exact c u now loaded v =
      rw (get-find now (get_partition c u loaded).1 (unix_nano u) v)
        (ap returns (value_of-seen now (find (unix_nano u) (get_partition c u loaded).1.items)))

  -- A partition that no write has touched reads as before.
  pub answer_untouched :
      (c d : Store T) (u : Time) (now : ℤ) (loaded : Option (Partition T))
      → d.partition_size ≡ c.partition_size
      → lookup (partition_start c u) d.partitions ≡ lookup (partition_start c u) c.partitions
      → IsValid c
      → Loads loaded
      → answer (get_exact d u now loaded) ≡ answer (get_exact c u now loaded)
  answer_untouched c d u now loaded size same v l =
      let start : partition_start d u ≡ partition_start c u =
        ap (λ s. unix_nano (truncate u s)) size in
      let reached : (get_partition d u loaded).1 ≡ (get_partition c u loaded).1 =
        get_partition-opened d u loaded
        ∙ ap (λ s. opened (lookup s d.partitions) loaded s d.partition_size) start
        ∙ ap (λ o. opened o loaded (partition_start c u) d.partition_size) same
        ∙ ap
            (λ z. opened (lookup (partition_start c u) c.partitions) loaded (partition_start c u) z)
            size
        ∙ sym (get_partition-opened c u loaded) in
      let valid = get_partition-IsValid c u loaded v l in
      answer-get_exact d u now loaded (subst Valid.IsValid (sym reached) valid)
      ∙ ap (λ p. returns (seen now (find (unix_nano u) p.items))) reached
      ∙ sym (answer-get_exact c u now loaded valid)

  -- The partition that a write has put in place is the one that is read.
  pub answer_written :
      (c d : Store T) (u : Time) (now : ℤ) (loaded : Option (Partition T)) (q : Partition T)
      → d.partition_size ≡ c.partition_size
      → lookup (partition_start c u) d.partitions ≡ some q
      → Valid.IsValid q
      → answer (get_exact d u now loaded) ≡ returns (seen now (find (unix_nano u) q.items))
  answer_written c d u now loaded q size at v =
      let start : partition_start d u ≡ partition_start c u =
        ap (λ s. unix_nano (truncate u s)) size in
      let reached : (get_partition d u loaded).1 ≡ q =
        ap (λ x. x.1)
          (get_partition-present d u loaded q (ap (λ s. lookup s d.partitions) start ∙ at)) in
      answer-get_exact d u now loaded (subst Valid.IsValid (sym reached) v)
      ∙ ap (λ p. returns (seen now (find (unix_nano u) p.items))) reached
