-- ===== src/TsCache/Store/Delete.antt =====
-- tscache/cache.go: `DeleteRange`, whose loop is that of `GetRange`, with the same fuel. The partition
-- size does not change; `saved` is what `SavePartition` returns for a partition.
pub mod Cut
pub mod Visits
use d_utils.Base.{
  ℕ, zero, suc, ◌+◌, ◌/◌, Bool, true, false, ◌&&◌, ◌||◌, List, [], ◌∷◌, Option, none, some,
  if◌then◌else◌,
}
use d_utils.Base.Int.{ℤ, int_key, pos_part, leb_ℤ, ltb_ℤ, ◌-ℤ◌}
use d_utils.Base.Word.{add64}
use d_utils.Base.GoTime.{Time, Duration, unix_nano}
use d_utils.Base.Dict.{lookup, remove}
use d_utils.TsCache.Partition.{Partition, rebuild}
use d_utils.TsCache.Partition.Items.{Item}
use d_utils.TsCache.Store.{Store, partition_start, save, write}
use d_utils.TsCache.Store.Range.{ordered}

-- The whole partition is within the range.
abbrev pub is_whole : Duration → ℤ → ℤ → ℤ → Bool
is_whole size partition_time start end =
    leb_ℤ start partition_time && leb_ℤ (add64 partition_time size) end

module _ {ℓ} {T : Type ℓ} where
  -- `item.Timestamp < _start || item.Timestamp > _end`
  abbrev pub is_outside : ℤ → ℤ → Item T → Bool
  is_outside start end x = ltb_ℤ x.timestamp start || ltb_ℤ end x.timestamp

  -- The items of a partition that are outside of the range.
  abbrev pub thin : ℤ → ℤ → Partition T → Partition T
  thin start end p =
      let (kept, m) = rebuild (is_outside start end) p.items [] [] in
      record p { items = kept; items_map = some m }

  -- The body of the loop.
  unfoldable pub delete_step :
      {E : Type ℓ} → Duration → Store T → (Partition T → Option E) → ℤ → ℤ → ℤ → Store T × Option E
  delete_step size c saved partition_time start end = elim (lookup partition_time c.partitions) [
    | none ↦ (c, none)
    | some p ↦
        if is_whole size partition_time start end
        then (record c { partitions = remove partition_time c.partitions }, none)
        else (
          save (write c partition_time (thin start end p)) (thin start end p),
          saved (thin start end p),
        )
  ]

  unfoldable pub remove_range :
      {E : Type ℓ}
      → ℕ
      → Duration
      → Store T
      → (Partition T → Option E)
      → ℤ
      → ℤ
      → ℤ
      → ℤ
      → Option (Store T × Option E)
  remove_range zero size c saved partition_time last start end = none
  remove_range (suc n) size c saved partition_time last start end =
      let (c1, failed) = delete_step size c saved partition_time start end in
      let rest = remove_range n size c1 saved (add64 partition_time size) last start end in
      if leb_ℤ partition_time last
      then (elim failed [ none ↦ rest | some e ↦ some (c1, some e) ])
      else some (c, none)

  unfoldable pub delete_range :
      {E : Type ℓ} → Store T → Time → Time → (Partition T → Option E) → Option (Store T × Option E)
  delete_range c start end saved =
      let (first, last) = ordered start end in
      let from = partition_start c first in
      let to = partition_start c last in
      remove_range (pos_part (to -ℤ from) / pos_part c.partition_size + 2) c.partition_size c saved
        from to (unix_nano first) (unix_nano last)
