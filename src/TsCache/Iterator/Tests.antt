-- ===== src/TsCache/Iterator/Tests.antt =====
-- tscache/iterator.go, stats.go and cache.go: runs on a cache of two partitions, and the theorems at it.
use d_utils.Base.{ℕ, ◌+◌, ◌*◌, ◌≡◌, refl, [], ◌∷◌, none, some, false, true, arith}
use d_utils.Base.Int.{int_key, pos, ◌+ℤ◌, ◌-ℤ◌}
use d_utils.Base.Word.{wrap64}
use d_utils.Base.GoTime.{Time, unix_nano, truncate}
use d_utils.Base.Dict.{lookup, insert, All-lookup}
use d_utils.Base.Outcome.{returns}
use d_utils.Base.Search.{search}
use d_utils.TsCache.Partition.{Partition, insert_item, insert_new, reindex}
use d_utils.TsCache.Partition.Items.{Item}
use d_utils.TsCache.Partition.Valid.{new_partition-IsValid, inserted-IsValid}
use d_utils.TsCache.Partition.Order.{index_of}
use d_utils.TsCache.Partition.Valid
use d_utils.TsCache.Store.{Store, get_partition, partition_start, set}
use d_utils.TsCache.Store.Writes.{IsValid}
use d_utils.TsCache.Store.Places.{Placed, InPlace, LoadsInPlace, set-InPlace}
use d_utils.TsCache.Iterator.{Iterator}
use d_utils.TsCache.Stats.{stats, file, directory, get_partition_stats}
use d_utils.TsCache.Stats.Extremes.{count_of, stats_lem}

abbrev sample : ℕ → ℕ → Item ℕ
sample t e = record { value = t * 2; timestamp = pos t; expiration = pos e }

abbrev holding : ℕ → Item ℕ → Partition ℕ
holding start x = record {
  items = x ∷ [];
  items_map = some ((x.timestamp, 0) ∷ []);
  start_time = pos start;
  end_time = pos (start + 1000);
}

abbrev early : Partition ℕ
early = holding 0 (sample 30 0)

abbrev late : Partition ℕ
late = holding 2000 (sample 2010 0)

-- The later partition stands first in the map.
abbrev cache : Store ℕ
cache = record {
  partitions = (pos 2000, late) ∷ ((pos 0, early) ∷ []);
  partition_size = pos 1000;
  max_partitions = pos 3;
  flush_immediately = false;
  storage_dir = true;
  saves = [];
}

abbrev epoch : ℕ → Time
epoch n = pos (62_135_596_800_000_000_000 + n)

cache-InPlace : InPlace cache
unfolding ◌+ℤ◌
cache-InPlace = All-lookup (Placed (pos 1000)) cache.partitions ((omega arith), ((omega arith), tt))

made : (start t : ℕ) → Valid.IsValid (holding start (sample t 0))
unfolding lookup index_of
made start t = record { sorted = (tt, tt); made = (_, refl); indexed = λ t'. refl }

cache-IsValid : IsValid cache
cache-IsValid =
    All-lookup (λ s p. Valid.IsValid p) cache.partitions (made 2000 2010, (made 0 30, tt))

stats_lem_example :
    let st = stats cache (directory ∷ (file 120 ∷ [])) in
    (st.total_items ≡ 2)
    × (st.memory_usage ≡ 64)
    × (st.oldest_timestamp ≡ pos 30)
    × (st.newest_timestamp ≡ pos 2010)
    × ((t : Time)
        → lookup (partition_start cache t) st.partition_stats
          ≡ count_of (get_partition_stats cache t))
stats_lem_example =
    stats_lem cache (directory ∷ (file 120 ∷ [])) cache-IsValid
      (unfold lookup in (refl, (refl, tt)))

same_partition : partition_start cache (epoch 7) ≡ pos 0
unfolding unix_nano truncate ◌-ℤ◌ wrap64
same_partition = refl

abbrev filled : Store ℕ
filled = record cache {
  partitions =
      (pos 2000, late)
      ∷ ((
        pos 0,
        record early {
          items = record { value = 9; timestamp = pos 7; expiration = pos 0 } ∷ (sample 30 0 ∷ []);
          items_map = some ((pos 30, 1) ∷ ((pos 7, 0) ∷ []));
        },
      )
          ∷ []);
}

fill : set {E = ℕ} cache (epoch 7) 9 none (pos 40) none none ≡ returns (filled, none)
unfolding set get_partition insert_item insert_new reindex search lookup insert unix_nano truncate
    ◌-ℤ◌ wrap64
fill = refl

set-InPlace_example : InPlace filled
set-InPlace_example =
    set-InPlace {E = ℕ} cache filled (epoch 7) 9 none (pos 40) none none none cache-InPlace
      (unfold LoadsInPlace in λ p e. absurd (cc e)) (omega arith) (unfold ◌-ℤ◌ in omega arith)
      (unfold truncate ◌-ℤ◌ in omega arith) (rw same_partition (unfold ◌+ℤ◌ in omega arith)) fill
