-- ===== src/TsCache/Stats.antt =====
-- tscache/stats.go: the statistics of a cache and of a partition. The map of partitions is visited in
-- the order of its list; counts are numbers. The first and the last item of a slice are read by index
-- where it has any, so `none` from `get_elem?` is the branch for an empty slice.
pub mod Extremes
use d_utils.Base.{
  ℕ, zero, suc, ◌+◌, ◌-◌, ◌*◌, List, [], ◌∷◌, Option, none, some, if◌then◌else◌, length, get_elem?,
}
use d_utils.Base.Int.{ℤ, int_key, pos, negsuc, ltb_ℤ}
use d_utils.Base.Word.{max_int64}
use d_utils.Base.GoTime.{Time}
use d_utils.Base.Dict.{Dict, lookup, insert}
use d_utils.TsCache.Partition.{Partition}
use d_utils.TsCache.Partition.Items.{Item}
use d_utils.TsCache.Store.{Store, partition_start}

pub record CacheStats : Type 0 where
  pub total_items : ℕ
  pub partition_count : ℕ
  pub partition_stats : Dict ℤ ℕ
  pub oldest_timestamp : ℤ
  pub newest_timestamp : ℤ
  pub memory_usage : ℕ
  pub storage_usage : ℕ

-- What `filepath.Walk` hands over for a path below the storage directory.
pub data WalkEntry : Type 0 where
  unreadable directory : WalkEntry
  file : ℕ → WalkEntry

unfoldable pub get_storage_usage : List WalkEntry → ℕ
get_storage_usage [] = 0
get_storage_usage (unreadable ∷ es) = get_storage_usage es
get_storage_usage (directory ∷ es) = get_storage_usage es
get_storage_usage (file size ∷ es) = size + get_storage_usage es

abbrev pub initial_stats : ℕ → CacheStats
initial_stats count = record {
  total_items = 0;
  partition_count = count;
  partition_stats = [];
  oldest_timestamp = max_int64;
  newest_timestamp = negsuc 0;
  memory_usage = 0;
  storage_usage = 0;
}

pub record PartitionStats : Type 0 where
  pub start_time : ℤ
  pub end_time : ℤ
  pub item_count : ℕ
  pub oldest_timestamp : ℤ
  pub newest_timestamp : ℤ
  pub memory_usage : ℕ

module _ {ℓ} {T : Type ℓ} where
  -- `if partition.Items[0].Timestamp < stats.OldestTimestamp`, where there is an item.
  abbrev pub older : Option (Item T) → ℤ → ℤ
  older none oldest = oldest
  older (some x) oldest = if ltb_ℤ x.timestamp oldest then x.timestamp else oldest

  -- `if partition.Items[itemCount-1].Timestamp > stats.NewestTimestamp`
  abbrev pub newer : Option (Item T) → ℤ → ℤ
  newer none newest = newest
  newer (some x) newest = if ltb_ℤ newest x.timestamp then x.timestamp else newest

  -- The body of the loop of `Stats`.
  unfoldable pub add_partition : CacheStats → ℤ → Partition T → CacheStats
  add_partition stats start_time p =
      let item_count = length p.items in
      record stats {
        total_items = stats.total_items + item_count;
        partition_stats = insert start_time item_count stats.partition_stats;
        oldest_timestamp = older (get_elem? p.items 0) stats.oldest_timestamp;
        newest_timestamp = newer (get_elem? p.items (item_count - 1)) stats.newest_timestamp;
        memory_usage = stats.memory_usage + item_count * 32;
      }

  unfoldable pub add_partitions : CacheStats → Dict ℤ (Partition T) → CacheStats
  add_partitions stats [] = stats
  add_partitions stats ((start_time, p) ∷ m) = add_partitions (add_partition stats start_time p) m

  -- The storage is there whenever `NewTimeSeries` made the cache.
  unfoldable pub stats : Store T → List WalkEntry → CacheStats
  stats c walked = record (add_partitions (initial_stats (length c.partitions)) c.partitions) {
    storage_usage = get_storage_usage walked;
  }

  abbrev pub timestamp_or_zero : Option (Item T) → ℤ
  timestamp_or_zero none = pos 0
  timestamp_or_zero (some x) = x.timestamp

  -- `none` is `ErrPartitionNotFound`.
  unfoldable pub get_partition_stats : Store T → Time → Option PartitionStats
  get_partition_stats c t = elim (lookup (partition_start c t) c.partitions) [
    | none ↦ none
    | some p ↦ some (record {
      start_time = p.start_time;
      end_time = p.end_time;
      item_count = length p.items;
      oldest_timestamp = timestamp_or_zero (get_elem? p.items 0);
      newest_timestamp = timestamp_or_zero (get_elem? p.items (length p.items - 1));
      memory_usage = length p.items * 32;
    })
  ]
