-- ===== src/TsCache/Iterator.antt =====
-- tscache/iterator.go: the iterator over a range of times. It keeps the starts of the partitions that
-- it is to visit and two indices, and reads the cache anew in each call of `Next`, which is an
-- argument. `now start timestamp` is the reading of the clock for the item with the timestamp in the
-- partition. An index is at least zero.

pub mod Pending
pub mod Drain
mod Tests
use d_utils.Base.{
  ℕ, zero, suc, ◌+◌, ◌&&◌, List, [], ◌∷◌, Option, none, some, if◌then◌else◌, length, get_elem?,
  filter_by, Bool, true, false,
}
use d_utils.Base.Int.{ℤ, int_key, leb_ℤ, ltb_ℤ}
use d_utils.Base.Word.{add64}
use d_utils.Base.GoTime.{Time, Duration, unix_nano}
use d_utils.Base.Dict.{Dict, lookup, keys}
use d_utils.Base.Sort.{sort_asc}
use d_utils.TsCache.Partition.{Partition}
use d_utils.TsCache.Partition.Items.{Item, is_live}
use d_utils.TsCache.Partition.Ranges.{in_range}
use d_utils.TsCache.Store.{Store}

pub record Iterator : Type 0 where
  pub partitions : List ℤ
  pub curr_part_idx : ℕ
  pub curr_item_idx : ℕ
  pub start : ℤ
  pub end : ℤ

-- `startTime+int64(c.partitionSize) >= _start && startTime <= _end`
unfoldable pub overlaps : Duration → ℤ → ℤ → ℤ → Bool
overlaps size start end start_time = leb_ℤ start (add64 start_time size) && leb_ℤ start_time end

-- The exchange of `NewIterator`, on nanoseconds.
abbrev pub in_order : ℤ → ℤ → ℤ × ℤ
in_order start end = if ltb_ℤ end start then (end, start) else (start, end)

-- `it.currPartIdx++; it.currItemIdx = 0`
abbrev pub skip : Iterator → Iterator
skip it = record it { curr_part_idx = suc it.curr_part_idx; curr_item_idx = zero }

-- `it.currItemIdx++`
abbrev pub advance : Iterator → Iterator
advance it = record it { curr_item_idx = suc it.curr_item_idx }

unfoldable pub reset : Iterator → Iterator
reset it = record it { curr_part_idx = 0; curr_item_idx = 0 }

module _ {ℓ} {T : Type ℓ} where
  unfoldable pub new_iterator : Store T → Time → Time → Iterator
  new_iterator c start end =
      let (from, to) = in_order (unix_nano start) (unix_nano end) in
      record {
        partitions = sort_asc (filter_by (overlaps c.partition_size from to) (keys c.partitions));
        curr_part_idx = 0;
        curr_item_idx = 0;
        start = from;
        end = to;
      }

  -- The tests of `Next` on an item.
  unfoldable pub is_wanted : (ℤ → ℤ → ℤ) → ℤ → ℤ → ℤ → Item T → Bool
  is_wanted now start end partition x =
      in_range start end x && is_live (now partition x.timestamp) x

  -- The loop of `Next`; `none` means that the fuel ran out.
  unfoldable pub next_loop :
      ℕ → Store T → (ℤ → ℤ → ℤ) → Iterator → Option (Iterator × Option (Item T))
  next_loop zero c now it = none
  next_loop (suc n) c now it = elim (get_elem? it.partitions it.curr_part_idx) [
    | none ↦ some (it, none)
    | some start ↦ elim (lookup start c.partitions) [
      | none ↦ next_loop n c now (skip it)
      | some p ↦ elim (get_elem? p.items it.curr_item_idx) [
        | none ↦ next_loop n c now (skip it)
        | some item ↦ elim (is_wanted now it.start it.end start item) [
          | true ↦ some (advance it, some item)
          | false ↦ next_loop n c now (advance it)
        ]
      ]
    ]
  ]

  -- Rounds that are enough: one for each item of the partitions, one to leave each, and one to stop.
  abbrev pub items_at : Store T → ℤ → List (Item T)
  items_at c s = elim (lookup s c.partitions) [ none ↦ [] | some p ↦ p.items ]

  abbrev pub rounds : Store T → List ℤ → ℕ
  rounds c [] = 0
  rounds c (s ∷ ss) = suc (length (items_at c s)) + rounds c ss

  unfoldable pub next : Store T → (ℤ → ℤ → ℤ) → Iterator → Option (Iterator × Option (Item T))
  next c now it = next_loop (suc (rounds c it.partitions)) c now it
