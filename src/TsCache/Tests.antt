-- ===== src/TsCache/Tests.antt =====
-- tscache/partition.go: runs on a small partition, and the theorems at it.
use d_utils.Base.{
  length, ◌&&◌, suc, ◌/◌, ◌+◌, false, Option, ◌==◌, ℕ, ◌*◌, Bool, All, if◌then◌else◌, ◌≡◌, refl,
  true, [], ◌∷◌, none, some, arith,
}
use d_utils.Base.Int.{ltb_ℤ, pos_part, ℤ, pos, int_key, ◌+ℤ◌, ◌-ℤ◌, leb_ℤ, eqb_ℤ}
use d_utils.Base.Dict.{remove, lookup, insert}
use d_utils.Base.Search.{search}
use d_utils.Base.Outcome.{returns, panics}
use d_utils.Base.Word.{add64, sub64, wrap64}
use d_utils.TsCache.Partition.{
  Partition, new_partition, insert_item, insert_new, reindex, get, get_nearest, closer, get_range,
  cleanup,
}
use d_utils.TsCache.Partition.Items.{Item, is_live}
use d_utils.TsCache.Partition.Order.{find}
use d_utils.TsCache.Partition.Valid.{
  IsValid, new_partition-IsValid, inserted-IsValid, insert_item_lem,
}
use d_utils.TsCache.Partition.Ranges.{get_range-filter_by}
use d_utils.TsCache.Partition.Neighbours.{Fits}
use d_utils.TsCache.Partition.Nearest.{get_nearest_lem, Answers}
use d_utils.TsCache.Partition.Cleanup.{cleanup_lem}
use d_utils.Base.GoTime.{Time, unix_nano, truncate}
use d_utils.TsCache.Store
use d_utils.TsCache.Store.{Store, cleanup_all, set, get_exact, partition_start}
use d_utils.TsCache.Store.Writes.{Loads, answer, seen}
use d_utils.TsCache.Store.Range.Rounds.{segments, get_range-segments}
use d_utils.TsCache.Store.Range
use d_utils.TsCache.Store.Delete.{delete_range}
use d_utils.TsCache.Store.Delete.Cut.{IsCut}
use d_utils.TsCache.Store.Delete.Visits.{is_visited, delete_range-IsCut}
use d_utils.TsCache.Store.Cleaning.{swept, From, cleanup-oldest}
use d_utils.TsCache.Store.SetGet.{lives, set-get_exact}

abbrev sample : ℕ → ℕ → Item ℕ
sample t e = record { value = t * 2; timestamp = pos t; expiration = pos e }

abbrev one : Partition ℕ
one = record {
  items = sample 30 0 ∷ [];
  items_map = some ((pos 30, 0) ∷ []);
  start_time = pos 0;
  end_time = pos 1000;
}

abbrev two : Partition ℕ
two = record one {
  items = sample 10 50 ∷ sample 30 0 ∷ [];
  items_map = some ((pos 30, 1) ∷ (pos 10, 0) ∷ []);
}

insert_first : insert_item (new_partition (pos 0) (pos 1000)) (sample 30 0) ≡ returns one
unfolding new_partition insert_item insert_new reindex search lookup insert add64 wrap64 ◌+ℤ◌
insert_first = refl

insert_before : insert_item one (sample 10 50) ≡ returns two
unfolding insert_item insert_new reindex search lookup insert
insert_before = refl

get_expired : get (pos 60) two (pos 10) ≡ returns none
unfolding get lookup is_live
get_expired = refl

nearest_middle : get_nearest two (pos 20) ≡ returns (some (sample 30 0))
unfolding get_nearest search closer sub64 wrap64 ◌-ℤ◌
nearest_middle = refl

-- The partition that is loaded from an empty file has no index map, and no item can be put into it.
insert_nowhere : insert_item (record one { items = []; items_map = none }) (sample 30 0) ≡ panics
unfolding insert_item insert_new lookup
insert_nowhere = refl

one-IsValid : IsValid one
one-IsValid =
    inserted-IsValid _ one (sample 30 0) insert_first (new_partition-IsValid (pos 0) (pos 1000))

two-IsValid : IsValid two
two-IsValid = inserted-IsValid one two (sample 10 50) insert_before one-IsValid

two-Fits : All (Fits (pos 20)) two.items
unfolding ◌-ℤ◌
two-Fits = ground arith

insert_item_lem_example :
    (q : Partition ℕ) × (insert_item two (sample 20 0) ≡ returns q)
    × IsValid q
    × ((t : ℤ)
        → find t q.items ≡ (if eqb_ℤ (pos 20) t then some (sample 20 0) else find t two.items))
insert_item_lem_example = insert_item_lem two (sample 20 0) two-IsValid

get_range-filter_by_example : get_range (pos 40) two (pos 5) (pos 20) ≡ returns (sample 10 50 ∷ [])
unfolding is_live
get_range-filter_by_example =
    get_range-filter_by (pos 40) two (pos 5) (pos 20) two-IsValid (omega arith)

get_nearest_lem_example :
    (x : Item ℕ) × (get_nearest two (pos 20) ≡ returns (some x)) × Answers (pos 20) two.items x
get_nearest_lem_example = get_nearest_lem two (pos 20) two-IsValid two-Fits (omega arith)

abbrev late : Item ℕ → Bool
late x = leb_ℤ (pos 20) x.timestamp

cleanup_lem_example :
    let (q, any) = cleanup (pos 60) two in
    IsValid q
    × (q.items ≡ sample 30 0 ∷ [])
    × (q.start_time ≡ pos 0)
    × (q.end_time ≡ pos 1000)
    × (any ≡ true)
unfolding is_live
cleanup_lem_example = cleanup_lem (pos 60) two two-IsValid

abbrev epoch : ℕ → Time
epoch n = pos (62_135_596_800_000_000_000 + n)

abbrev store : Store ℕ
store = record {
  partitions = (pos 0, two) ∷ [];
  partition_size = pos 1000;
  max_partitions = pos 3;
  flush_immediately = false;
  storage_dir = true;
  saves = [];
}

same_partition : partition_start store (epoch 7) ≡ pos 0
unfolding unix_nano truncate ◌-ℤ◌ wrap64
same_partition = refl

store-IsValid : Store.Writes.IsValid store
unfolding lookup
store-IsValid start p e = ground (arith, two-IsValid)

set-get_exact_example :
    (d : Store ℕ) × (e : Option ℕ) × (set store (epoch 7) 9 (some (pos 50)) (epoch 40) none (some 1)
      ≡ returns (d, e))
    × Store.Writes.IsValid d
    × ((u : Time) (at : ℤ) (l : Option (Partition ℕ))
        → Loads l
        → answer (get_exact d u at l) ≡ (
            if partition_start store (epoch 7) == partition_start store u
            then (if eqb_ℤ (unix_nano (epoch 7)) (unix_nano u)
                then returns (if lives (some (pos 50)) (epoch 40) at then some 9 else none)
                else answer (get_exact store u at none))
            else answer (get_exact store u at l)))
set-get_exact_example =
    set-get_exact store (epoch 7) 9 (some (pos 50)) (epoch 40) none (some 1) store-IsValid
      (λ p e. absurd (cc e))

get_range-segments_example :
    Store.Range.get_range store (epoch 20) (epoch 5) (λ s. pos 40)
    ≡ some (returns (sample 10 50 ∷ []))
unfolding segments unix_nano truncate is_live lookup ◌+ℤ◌ ◌-ℤ◌ wrap64
get_range-segments_example =
    get_range-segments store (epoch 20) (epoch 5) (λ s. pos 40) store-IsValid (omega arith)
      (ground arith) (ground arith) (ground arith)

delete_range-IsCut_example :
    let to = partition_start store (epoch 20) in
    let from = partition_start store (epoch 5) in
    let visits = suc (pos_part (to -ℤ from) / 1000) in
    (d : Store ℕ) × (delete_range {E = ℕ} store (epoch 20) (epoch 5) (λ p. none) ≡ some (d, none))
    × ((s : ℤ)
        → (is_visited visits (pos 1000) from s ≡ true
            → IsCut
                (pos 1000)
                s
                (unix_nano (epoch 5))
                (unix_nano (epoch 20))
                (lookup s store.partitions)
                (lookup s d.partitions))
          × (is_visited visits (pos 1000) from s ≡ false
              → lookup s d.partitions ≡ lookup s store.partitions))
delete_range-IsCut_example =
    delete_range-IsCut store (epoch 20) (epoch 5) (λ p. none) (λ p. refl) store-IsValid
      (omega arith) (unfold unix_nano truncate ◌-ℤ◌ wrap64 in omega arith)
      (unfold unix_nano truncate ◌-ℤ◌ wrap64 ◌+ℤ◌ in omega arith)

abbrev crowded : Store ℕ
crowded = record store { partitions = (pos 1000, one) ∷ (pos 0, two) ∷ []; max_partitions = pos 1 }

cleanup-oldest_example :
    let m = cleanup_all (λ s. pos 60) crowded.partitions in
    let over = ltb_ℤ (pos 0) (pos 1) && ltb_ℤ (pos 1) (pos (length m)) in
    (lookup (pos 0) m ≡ swept (pos 60) (lookup (pos 0) crowded.partitions))
    × (over ≡ false
        → ((Store.cleanup crowded (λ s. pos 60)).partitions ≡ m)
          × ((Store.cleanup crowded (λ s. pos 60)).saves ≡ []))
    × (over ≡ true
        → (first : ℤ) × (p : Partition ℕ) × (lookup first m ≡ some p)
          × From first m
          × ((Store.cleanup crowded (λ s. pos 60)).partitions ≡ remove first m)
          × ((Store.cleanup crowded (λ s. pos 60)).saves ≡ p ∷ []))
cleanup-oldest_example =
    cleanup-oldest crowded (λ s. pos 60) (pos 0) (unfold lookup in (refl, (refl, tt)))
      (omega arith, (omega arith, tt))
