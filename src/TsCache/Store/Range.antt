-- ===== src/TsCache/Store/Range.antt =====
-- tscache/cache.go: `GetRange`, whose loop steps from the partition of the one end to that of the other.
-- The loop has as many rounds as fit between the two and one more to stop, and gets that as its fuel;
-- without a positive partition size it would not stop, which is none here.
pub mod Rounds
use d_utils.Base.{
  ℕ, zero, suc, ◌+◌, ◌/◌, Bool, true, false, List, [], ◌∷◌, ◌++◌, Option, none, some, if◌then◌else◌,
}
use d_utils.Base.Int.{ℤ, int_key, pos, pos_part, leb_ℤ, ◌-ℤ◌}
use d_utils.Base.Word.{add64}
use d_utils.Base.GoTime.{Time, Duration, before, unix_nano}
use d_utils.Base.Dict.{lookup}
use d_utils.Base.Outcome.{Outcome, returns, panics}
use d_utils.TsCache.Partition
use d_utils.TsCache.Partition.{Partition}
use d_utils.TsCache.Partition.Items.{Item}
use d_utils.TsCache.Store.{Store, partition_start}

-- The two times in order.
abbrev pub ordered : Time → Time → Time × Time
ordered start end = if before end start then (end, start) else (start, end)

module _ {ℓ} {T : Type ℓ} where
  -- `result = append(result, items...)`, in front of what the later rounds append.
  abbrev pub append_items :
      Outcome (List (Item T)) → Option (Outcome (List (Item T))) → Option (Outcome (List (Item T)))
  append_items panics rest = some panics
  append_items (returns xs) none = none
  append_items (returns xs) (some panics) = some panics
  append_items (returns xs) (some (returns ys)) = some (returns (xs ++ ys))

  -- The loop from `partitionTime` on; `now start` is the reading of the clock for a partition.
  unfoldable pub gather : ℕ → Store T → (ℤ → ℤ) → ℤ → ℤ → ℤ → ℤ → Option (Outcome (List (Item T)))
  gather zero c now partition_time last start end = none
  gather (suc n) c now partition_time last start end =
      let rest = gather n c now (add64 partition_time c.partition_size) last start end in
      if leb_ℤ partition_time last
      then (elim (lookup partition_time c.partitions) [
        | none ↦ rest
        | some p ↦ append_items (Partition.get_range (now partition_time) p start end) rest
      ])
      else some (returns [])

  unfoldable pub get_range : Store T → Time → Time → (ℤ → ℤ) → Option (Outcome (List (Item T)))
  get_range c start end now =
      let (first, last) = ordered start end in
      let from = partition_start c first in
      let to = partition_start c last in
      gather (pos_part (to -ℤ from) / pos_part c.partition_size + 2) c now from to (unix_nano first)
        (unix_nano last)
