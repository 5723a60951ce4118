-- ===== src/TsCache/Partition.antt =====
-- tscache/partition.go: one partition of the cache, a list of items sorted by timestamp beside a map
-- from timestamps to indices. The methods hold the partition's lock throughout, so each is one step.
-- `time.Now().UnixNano()` is the argument `now`.
pub mod Items
pub mod Order
pub mod Replace
pub mod Valid
pub mod Ranges
pub mod Neighbours
pub mod Nearest
pub mod Cleanup
use d_utils.Base.{
  ℕ, zero, suc, ◌+◌, ◌-◌, Bool, true, false, ◌||◌, List, [], ◌∷◌, ◌++◌, Option, none, some, ltb,
  nat_eqb, if◌then◌else◌, length, get_elem?, set, take, drop,
}
use d_utils.Base.Int.{ℤ, int_key, pos, ltb_ℤ, leb_ℤ, eqb_ℤ}
use d_utils.Base.Word.{add64, sub64}
use d_utils.Base.GoTime.{Duration}
use d_utils.Base.Dict.{Dict, lookup, insert}
use d_utils.Base.Search.{search, probe}
use d_utils.Base.Outcome.{Outcome, returns, panics, ◌>>=◌}
use Items.{Item, is_live}

pub record Partition {ℓ} (T : Type ℓ) : Type ℓ where
  pub items : List (Item T)
  -- a nil map, which can be read but not written, is none
  pub items_map : Option (Dict ℤ ℕ)
  pub start_time : ℤ
  pub end_time : ℤ

-- What a read of the map finds.
abbrev pub entries : Option (Dict ℤ ℕ) → Dict ℤ ℕ
entries none = []
entries (some m) = m

module _ {ℓ} {T : Type ℓ} where
  -- `newPartition`; the initial capacity has no effect on the contents.
  unfoldable pub new_partition : ℤ → Duration → Partition T
  new_partition start duration = record {
    items = [];
    items_map = some [];
    start_time = start;
    end_time = add64 start duration;
  }

  -- The predicates of the searches: `Timestamp >= t` and `Timestamp > t`.
  abbrev pub at_least : ℤ → Item T → Bool
  at_least t x = leb_ℤ t x.timestamp

  abbrev pub above : ℤ → Item T → Bool
  above t x = ltb_ℤ t x.timestamp

  -- `append` of a zero item, `copy` one place up from `idx`, and the store at `idx`.
  abbrev pub insert_at : List (Item T) → ℕ → Item T → List (Item T)
  insert_at items idx item = take idx items ++ (item ∷ drop idx items)

  -- `for i := idx; i < len(p.Items); i++ { p.ItemsMap[p.Items[i].Timestamp] = i }`, over the items
  -- from `idx` on.
  unfoldable pub reindex : ℕ → List (Item T) → Dict ℤ ℕ → Dict ℤ ℕ
  reindex i [] m = m
  reindex i (x ∷ xs) m = reindex (suc i) xs (insert x.timestamp i m)

  -- `p.Items[i]`
  abbrev pub index : List (Item T) → ℕ → Outcome (Item T)
  index items i = elim (get_elem? items i) [ none ↦ panics | some x ↦ returns x ]

  -- `p.Items[idx] = item`
  unfoldable pub store : Partition T → ℕ → Item T → Outcome (Partition T)
  store p idx item =
      if ltb idx (length p.items)
      then returns (record p { items = set p.items idx item })
      else panics

  -- The path of `insert` for a new timestamp. The loop assigns to the map at least once, as the item
  -- stands at `idx`; an assignment to a nil map panics.
  unfoldable pub insert_new : Partition T → Item T → Outcome (Partition T)
  insert_new p item =
      let idx = search (length p.items) (probe (at_least item.timestamp) p.items) in
      let grown = insert_at p.items idx item in
      elim (p.items_map) [
        | none ↦ panics
        | some m ↦
            returns (record p { items = grown; items_map = some (reindex idx (drop idx grown) m) })
      ]

  unfoldable pub insert_item : Partition T → Item T → Outcome (Partition T)
  insert_item p item = elim (lookup item.timestamp (entries p.items_map)) [
    | some idx ↦ store p idx item
    | none ↦ insert_new p item
  ]

  unfoldable pub get : ℤ → Partition T → ℤ → Outcome (Option (Item T))
  get now p t = elim (lookup t (entries p.items_map)) [
    | none ↦ returns none
    | some idx ↦
        index p.items idx >>= λ item. returns (if is_live now item then some item else none)
  ]

  -- The choice between the item before `idx` and the one at `idx`.
  unfoldable pub closer : ℤ → Item T → Item T → Item T
  closer t prev curr =
      if ltb_ℤ (sub64 t prev.timestamp) (sub64 curr.timestamp t) then prev else curr

  unfoldable pub get_nearest : Partition T → ℤ → Outcome (Option (Item T))
  get_nearest p t =
      let n = length p.items in
      let idx = search n (probe (at_least t) p.items) in
      if nat_eqb n 0
      then returns none
      else if nat_eqb idx n
      then (index p.items (n - 1) >>= λ x. returns (some x))
      else if nat_eqb idx 0
      then (index p.items 0 >>= λ x. returns (some x))
      else (index p.items idx >>= λ curr.
          index p.items (idx - 1) >>= λ prev. returns (some (closer t prev curr)))

  -- `for i := startIdx; i < endIdx; i++`: the rounds left, and the items from `i` on.
  unfoldable pub collect : ℤ → ℕ → List (Item T) → Outcome (List (Item T))
  collect now zero xs = returns []
  collect now (suc n) [] = panics
  collect now (suc n) (x ∷ xs) =
      collect now n xs >>= λ rest. returns (if is_live now x then x ∷ rest else rest)

  -- `make` panics on a negative capacity.
  unfoldable pub get_range : ℤ → Partition T → ℤ → ℤ → Outcome (List (Item T))
  get_range now p start end =
      let n = length p.items in
      let i = search n (probe (at_least start) p.items) in
      let j = search n (probe (above end) p.items) in
      let visited = collect now (j - i) (drop i p.items) in if ltb j i then panics else visited

  -- The rebuilt slice and map of `cleanup` and of `DeleteRange`: the items that pass `keep`, each
  -- entered in the map under the length of the slice so far.
  unfoldable pub rebuild :
      (Item T → Bool) → List (Item T) → List (Item T) → Dict ℤ ℕ → List (Item T) × Dict ℤ ℕ
  rebuild keep [] kept m = (kept, m)
  rebuild keep (x ∷ xs) kept m =
      rebuild keep xs (if keep x then kept ++ (x ∷ []) else kept)
        (if keep x then insert x.timestamp (length kept) m else m)

  unfoldable pub cleanup : ℤ → Partition T → Partition T × Bool
  cleanup now p =
      let (kept, m) = rebuild (is_live now) p.items [] [] in
      (record p { items = kept; items_map = some m }, ltb 0 (length kept))
