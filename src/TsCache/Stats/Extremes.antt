-- ===== src/TsCache/Stats/Extremes.antt =====
-- tscache/stats.go: the sums and the extremes of the statistics against all items of the cache.
use d_utils.Base.{
  ℕ, suc, ◌+◌, ◌-◌, ◌*◌, ◌≡◌, refl, sym, ◌∙◌, List, [], ◌∷◌, ◌++◌, Option, none, some, false,
  if◌then◌else◌, length, length-append, get_elem?, All, arith,
}
use mathlib.Core.Path.{ap}
use d_utils.Base.Int.{ℤ, int_key, negsuc, ltb_ℤ, ◌<ℤ◌, ◌≤ℤ◌, eqb_ℤ_iff}
use d_utils.Base.Word.{max_int64}
use d_utils.Base.Dict.{Dict, Distinct, lookup, lookup-insert}
use d_utils.TsCache.Partition.{Partition}
use d_utils.TsCache.Partition.Items.{Item, IsSorted}
use d_utils.Base.GoTime.{Time}
use d_utils.TsCache.Store.{Store, partition_start}
use d_utils.TsCache.Store.Writes.{IsValid}
use d_utils.TsCache.Stats.{
  CacheStats, WalkEntry, initial_stats, older, newer, add_partition, add_partitions, stats,
  PartitionStats, get_partition_stats,
}

-- The least of the numbers and the given one, and the greatest.
abbrev pub least : ℤ → List ℤ → ℤ
least m [] = m
least m (t ∷ ts) = least (if ltb_ℤ t m then t else m) ts

abbrev pub greatest : ℤ → List ℤ → ℤ
greatest m [] = m
greatest m (t ∷ ts) = greatest (if ltb_ℤ m t then t else m) ts

least-append : (m : ℤ) (ts us : List ℤ) → least m (ts ++ us) ≡ least (least m ts) us
least-append m [] us = refl
least-append m (t ∷ ts) us = least-append (if ltb_ℤ t m then t else m) ts us

greatest-append : (m : ℤ) (ts us : List ℤ) → greatest m (ts ++ us) ≡ greatest (greatest m ts) us
greatest-append m [] us = refl
greatest-append m (t ∷ ts) us = greatest-append (if ltb_ℤ m t then t else m) ts us

greatest_skip :
    (m t u : ℤ)
    → t <ℤ u
    → (let k = if ltb_ℤ m t then t else m in if ltb_ℤ k u then u else k)
      ≡ (if ltb_ℤ m u then u else m)
greatest_skip m t u h = ground arith

last_index : (n : ℕ) → suc n - 1 ≡ n
last_index n = omega arith

-- What the loop has added up.
record Sums (before after : CacheStats) (ts : List ℤ) : Type 0 where
  total : after.total_items ≡ before.total_items + length ts
  memory : after.memory_usage ≡ before.memory_usage + length ts * 32
  oldest : after.oldest_timestamp ≡ least before.oldest_timestamp ts
  newest : after.newest_timestamp ≡ greatest before.newest_timestamp ts

Sums-trans : (a b c : CacheStats) (ts us : List ℤ) → Sums a b ts → Sums b c us → Sums a c (ts ++ us)
Sums-trans a b c ts us p q = record {
  total = omega (arith, p.total, q.total, length-append ts us);
  memory = omega (arith, p.memory, q.memory, length-append ts us);
  oldest = q.oldest ∙ ap (λ k. least k us) p.oldest ∙ sym (least-append a.oldest_timestamp ts us);
  newest =
      q.newest ∙ ap (λ k. greatest k us) p.newest ∙ sym (greatest-append a.newest_timestamp ts us);
}

abbrev pub count_of : Option PartitionStats → Option ℕ
count_of none = none
count_of (some st) = some st.item_count

module _ {ℓ} {T : Type ℓ} where
  abbrev pub times : List (Item T) → List ℤ
  times [] = []
  times (x ∷ xs) = x.timestamp ∷ times xs

  length-times : (xs : List (Item T)) → length (times xs) ≡ length xs
  length-times [] = refl
  length-times (x ∷ xs) = omega (arith, length-times xs)

  -- The timestamps of all items of the partitions.
  abbrev pub all_times : Dict ℤ (Partition T) → List ℤ
  all_times [] = []
  all_times ((s, p) ∷ m) = times p.items ++ all_times m

  least_reached :
      (t : ℤ) (xs : List (Item T)) (m : ℤ)
      → All (λ (y : Item T). t <ℤ y.timestamp) xs
      → m ≤ℤ t
      → least m (times xs) ≡ m
  least_reached t [] m h b = refl
  least_reached t (y ∷ ys) m h b =
      let no : ltb_ℤ y.timestamp m ≡ false = ground (arith, h.0) in
      rw (no, least) (least_reached t ys m h.1 b)

  -- The first item of a sorted slice is the earliest.
  older-least :
      (xs : List (Item T)) (m : ℤ) → IsSorted xs → older (get_elem? xs 0) m ≡ least m (times xs)
  older-least [] m h = refl
  older-least (x ∷ xs) m h = sym (least_reached x.timestamp xs _ h.0 (ground arith))

  -- The last item of a sorted slice is the latest.
  newer-greatest :
      (xs : List (Item T)) (m : ℤ)
      → IsSorted xs
      → newer (get_elem? xs (length xs - 1)) m ≡ greatest m (times xs)
  newer-greatest [] m h = refl
  newer-greatest (x ∷ []) m h = refl
  newer-greatest (x ∷ (y ∷ ys)) m h =
      ap (λ i. newer (get_elem? (x ∷ (y ∷ ys)) i) m) (last_index (suc (length ys)))
      ∙ ap (λ i. newer (get_elem? (y ∷ ys) i) m) (sym (last_index (length ys)))
      ∙ newer-greatest (y ∷ ys) m h.1
      ∙ ap (λ k. greatest k (times ys)) (sym (greatest_skip m x.timestamp y.timestamp h.0.0))

  abbrev AllSorted : Dict ℤ (Partition T) → Type 0
  AllSorted [] = Unit {0}
  AllSorted ((s, p) ∷ m) = IsSorted p.items × AllSorted m

  add_partition-Sums :
      (st : CacheStats) (s : ℤ) (p : Partition T)
      → IsSorted p.items
      → Sums st (add_partition st s p) (times p.items)
  unfolding add_partition
  add_partition-Sums st s p h = record {
    total = rw (length-times p.items) refl;
    memory = rw (length-times p.items) refl;
    oldest = older-least p.items st.oldest_timestamp h;
    newest = newer-greatest p.items st.newest_timestamp h;
  }

  add_partitions-Sums :
      (st : CacheStats) (m : Dict ℤ (Partition T))
      → AllSorted m
      → Sums st (add_partitions st m) (all_times m)
  unfolding add_partitions
  add_partitions-Sums st [] h = record {
    total = omega arith;
    memory = omega arith;
    oldest = refl;
    newest = refl;
  }
  add_partitions-Sums st ((s, p) ∷ m) h =
      Sums-trans st (add_partition st s p) _ (times p.items) (all_times m)
        (add_partition-Sums st s p h.0) (add_partitions-Sums (add_partition st s p) m h.1)

  abbrev pub counted : Option (Partition T) → Option ℕ → Option ℕ
  counted none before = before
  counted (some p) before = some (length p.items)

  add_partitions-lookup :
      (st : CacheStats) (m : Dict ℤ (Partition T)) (k : ℤ)
      → Distinct m
      → lookup k (add_partitions st m).partition_stats
        ≡ counted (lookup k m) (lookup k st.partition_stats)
  unfolding add_partitions add_partition lookup
  add_partitions-lookup st [] k d = refl
  add_partitions-lookup st ((s, p) ∷ m) k d = ground (
    arith,
    add_partitions-lookup (add_partition st s p) m k d.1,
    lookup-insert s k (length p.items) st.partition_stats,
    eqb_ℤ_iff s k,
    d.0,
  )

  AllSorted-of_lookup :
      (m : Dict ℤ (Partition T))
      → Distinct m
      → ((s : ℤ) (p : Partition T) → lookup s m ≡ some p → IsSorted p.items)
      → AllSorted m
  unfolding lookup
  AllSorted-of_lookup [] d h = tt
  AllSorted-of_lookup ((s, p) ∷ m) d h = (
    h s p (ground (arith, eqb_ℤ_iff s s)),
    AllSorted-of_lookup m d.1 (λ k q e. h k q (ground (arith, eqb_ℤ_iff s k, d.0, e))),
  )

  -- The statistics of a valid cache that has one partition for each start: the items of all
  -- partitions, 32 bytes for each of them, the least of their timestamps (and of the greatest
  -- `int64`), the greatest of them (and of -1), and for the partition of any time the number of
  -- items that `GetPartitionStats` has for it.
  pub stats_lem :
      (c : Store T) (walked : List WalkEntry)
      → IsValid c
      → Distinct c.partitions
      → let all = all_times c.partitions in
        let st = stats c walked in
        (st.total_items ≡ length all)
        × (st.memory_usage ≡ length all * 32)
        × (st.oldest_timestamp ≡ least max_int64 all)
        × (st.newest_timestamp ≡ greatest (negsuc 0) all)
        × ((t : Time)
            → lookup (partition_start c t) st.partition_stats ≡ count_of (get_partition_stats c t))
  unfolding stats get_partition_stats lookup
  stats_lem c walked v d =
      let sums =
        add_partitions-Sums (initial_stats (length c.partitions)) c.partitions
          (AllSorted-of_lookup c.partitions d (λ s p h. (v s p h).sorted)) in
      (
        omega (arith, sums.total),
        omega (arith, sums.memory),
        sums.oldest,
        sums.newest,
        λ t.
            add_partitions-lookup (initial_stats (length c.partitions)) c.partitions
              (partition_start c t) d
            ∙ ground arith,
      )
