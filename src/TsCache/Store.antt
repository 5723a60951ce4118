-- ===== src/TsCache/Store.antt =====
-- tscache/cache.go: the cache, a map from the start of each partition to the partition. A call that
-- goes through `getPartition` gets a pointer to the partition and works on it behind the cache's lock;
-- the functions below are calls with no other call in between. What `LoadPartition` returns (nothing on
-- an error) and what `SavePartition` returns are arguments, since the files and their encoding are not
-- modelled; `saves` records the partitions that `SavePartition` was called with, the last one first.
pub mod Writes
pub mod SetGet
pub mod Range
pub mod Delete
pub mod Cleaning
pub mod Places
use d_utils.Base.{
  ℕ, Bool, true, false, ◌&&◌, not, List, [], ◌∷◌, Option, none, some, if◌then◌else◌, length, ◌++◌,
}
use d_utils.Base.Int.{ℤ, int_key, pos, ltb_ℤ, leb_ℤ, eqb_ℤ}
use d_utils.Base.Word.{sub64, max_int64}
use d_utils.Base.GoTime.{Time, Duration, add, unix_nano, truncate}
use d_utils.Base.Dict.{Dict, lookup, insert, remove, values}
use d_utils.Base.Outcome.{Outcome, returns, panics, ◌>>=◌}
use d_utils.TsCache.Partition
use d_utils.TsCache.Partition.{Partition, new_partition, insert_item}
use d_utils.TsCache.Partition.Items.{Item}

pub record Store {ℓ} (T : Type ℓ) : Type ℓ where
  pub partitions : Dict ℤ (Partition T)
  pub partition_size : Duration
  pub max_partitions : ℤ
  pub flush_immediately : Bool
  pub storage_dir : Bool
  pub saves : List (Partition T)

-- `ttl ...time.Duration`: the first one, if it is positive.
abbrev pub expiration_of : Option Duration → Time → ℤ
expiration_of none now = pos 0
expiration_of (some ttl) now = if ltb_ℤ (pos 0) ttl then unix_nano (add now ttl) else pos 0

-- `withinRange` of `GetNearest`, for the two timestamps; a range of zero is none.
unfoldable pub within_range : Option Duration → ℤ → ℤ → Bool
within_range none found asked = true
within_range (some range) found asked =
    let diff = sub64 found asked in
    let size = if ltb_ℤ diff (pos 0) then sub64 (pos 0) diff else diff in
    if eqb_ℤ range (pos 0) then true else leb_ℤ size range

module _ {ℓ} {T : Type ℓ} where
  abbrev pub partition_start : Store T → Time → ℤ
  partition_start c t = unix_nano (truncate t c.partition_size)

  -- `partition == nil` behind the load.
  abbrev pub loaded_or_new : Option (Partition T) → ℤ → Duration → Partition T
  loaded_or_new none start size = new_partition start size
  loaded_or_new (some p) start size = p

  unfoldable pub get_partition : Store T → Time → Option (Partition T) → Store T × Partition T
  get_partition c t loaded = elim (lookup (partition_start c t) c.partitions) [
    | some p ↦ (c, p)
    | none ↦
        let p = loaded_or_new loaded (partition_start c t) c.partition_size in
        (record c { partitions = insert (partition_start c t) p c.partitions }, p)
  ]

  abbrev pub save : Store T → Partition T → Store T
  save c p = record c { saves = p ∷ c.saves }

  -- The partition that the pointer points to, behind a write through it.
  abbrev pub write : Store T → ℤ → Partition T → Store T
  write c start p = record c { partitions = insert start p c.partitions }

  -- `Set`: the cache, and the error of the `SavePartition` that it ends with, if it does.
  unfoldable pub set :
      {E : Type ℓ}
      → Store T
      → Time
      → T
      → Option Duration
      → Time
      → Option (Partition T)
      → Option E
      → Outcome (Store T × Option E)
  set c t v ttl now loaded saved =
      let (c1, p) = get_partition c t loaded in
      insert_item p
        (record { value = v; timestamp = unix_nano t; expiration = expiration_of ttl now })
      >>= λ q.
          let c2 = write c1 (partition_start c t) q in
          returns (if c.flush_immediately then (save c2 q, saved) else (c2, none))

  abbrev pub value_of : Option (Item T) → Option T
  value_of none = none
  value_of (some item) = some item.value

  unfoldable pub get_exact :
      Store T → Time → ℤ → Option (Partition T) → Outcome (Store T × Option T)
  get_exact c t now loaded =
      let (c1, p) = get_partition c t loaded in
      Partition.get now p (unix_nano t) >>= λ found. returns (c1, value_of found)

  abbrev pub value_within : Option Duration → ℤ → Option (Item T) → Option T
  value_within range asked none = none
  value_within range asked (some item) =
      if within_range range item.timestamp asked then some item.value else none

  unfoldable pub get_nearest :
      Store T → Time → Option Duration → Option (Partition T) → Outcome (Store T × Option T)
  get_nearest c t range loaded =
      let (c1, p) = get_partition c t loaded in
      Partition.get_nearest p (unix_nano t) >>= λ found.
      returns (c1, value_within range (unix_nano t) found)

  -- The first loop of `cleanup`; `now start` is the reading of the clock for the partition.
  unfoldable pub cleanup_all : (ℤ → ℤ) → Dict ℤ (Partition T) → Dict ℤ (Partition T)
  cleanup_all now [] = []
  cleanup_all now ((start, p) ∷ m) =
      let (q, any) = Partition.cleanup (now start) p in
      let rest = cleanup_all now m in if any then (start, q) ∷ rest else rest

  -- The least start, and the given one if none is less.
  unfoldable pub oldest_start : ℤ → Dict ℤ (Partition T) → ℤ
  oldest_start least [] = least
  oldest_start least ((start, p) ∷ m) = oldest_start (if ltb_ℤ start least then start else least) m

  -- The second part of `cleanup`.
  unfoldable pub drop_oldest : Store T → Store T
  drop_oldest c =
      let oldest = oldest_start max_int64 c.partitions in
      if ltb_ℤ (pos 0) c.max_partitions && ltb_ℤ c.max_partitions (pos (length c.partitions))
      then elim (lookup oldest c.partitions) [
        | none ↦ c
        | some p ↦ save (record c { partitions = remove oldest c.partitions }) p
      ]
      else c

  unfoldable pub cleanup : Store T → (ℤ → ℤ) → Store T
  cleanup c now = drop_oldest (record c { partitions = cleanup_all now c.partitions })

  -- Calls of `SavePartition` for each of the list in turn; the errors are dropped.
  unfoldable pub save_all : Store T → List (Partition T) → Store T
  save_all c [] = c
  save_all c (p ∷ ps) = save_all (save c p) ps

  unfoldable pub flush : Store T → Store T
  flush c = if c.storage_dir then save_all c (values c.partitions) else c

  -- `Clear`: the loop ends at the first error.
  unfoldable pub save_until :
      {E : Type ℓ} → Store T → List (Partition T) → (Partition T → Option E) → Store T × Option E
  save_until c [] saved = (c, none)
  save_until c (p ∷ ps) saved =
      let rest = save_until (save c p) ps saved in
      elim (saved p) [ none ↦ rest | some e ↦ (save c p, some e) ]

  unfoldable pub clear : {E : Type ℓ} → Store T → (Partition T → Option E) → Store T × Option E
  clear c saved = save_until (record c { partitions = [] }) (values c.partitions) saved
