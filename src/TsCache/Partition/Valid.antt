-- ===== src/TsCache/Partition/Valid.antt =====
-- tscache/partition.go: the invariant of a partition, and what `insert` and `get` do on one that
-- satisfies it.
use d_utils.Base.{
  ℕ, zero, suc, ◌≡◌, refl, sym, ◌∙◌, List, [], ◌∷◌, none, some, if◌then◌else◌, drop, arith,
  Option-cases, inl, inr, set, lt→ltb,
}
use mathlib.Core.Path.{ap, subst}
use d_utils.Base.Int.{ℤ, int_key, eqb_ℤ}
use d_utils.Base.GoTime.{Duration}
use d_utils.Base.Dict.{Dict, lookup, insert, lookup-insert}
use d_utils.Base.Search.{rank, search-rank}
use d_utils.Base.Outcome.{returns, returns_inj}
use d_utils.TsCache.Partition.Items.{Item, IsSorted, is_live}
use d_utils.TsCache.Partition.{
  Partition, entries, new_partition, at_least, reindex, store, insert_new, insert_item, get,
}
use d_utils.TsCache.Partition.Replace.{index_of-lt, set-IsSorted, index_of-set, find-set}
use d_utils.TsCache.Partition.Order.{
  find, index_of, get_elem?-index_of, find-none_of_index_of, index_of-Above_eq, at_least-IsUpward,
  insert_sorted, insert_at-rank, insert_sorted-IsSorted, find-insert_sorted, shifted,
  index_of-insert_sorted,
}

module _ {ℓ} {T : Type ℓ} where
  -- The slice is sorted, and the map, which is not nil, holds the index of each timestamp and nothing
  -- else.
  pub record IsValid (p : Partition T) : Type ℓ where
    pub sorted : IsSorted p.items
    pub made : (m : Dict ℤ ℕ) × (p.items_map ≡ some m)
    pub indexed : (t : ℤ) → lookup t (entries p.items_map) ≡ index_of t p.items

  pub new_partition-IsValid : (start : ℤ) (d : Duration) → IsValid (new_partition {T = T} start d)
  unfolding new_partition index_of lookup
  new_partition-IsValid start d = record { sorted = tt; made = ([], refl); indexed = λ t. refl }

  reindex-lookup :
      (t : ℤ) (i : ℕ) (xs : List (Item T)) (m : Dict ℤ ℕ)
      → IsSorted xs
      → lookup t (reindex i xs m) ≡ shifted i (lookup t m) (index_of t xs)
  unfolding reindex index_of
  reindex-lookup t i [] m h = refl
  reindex-lookup t i (x ∷ xs) m h = ground (
    arith,
    reindex-lookup t (suc i) xs (insert x.timestamp i m) h.1,
    lookup-insert x.timestamp t i m,
    index_of-Above_eq x.timestamp t xs h.0,
  )

  drop-IsSorted : (n : ℕ) (xs : List (Item T)) → IsSorted xs → IsSorted (drop n xs)
  drop-IsSorted zero xs h = h
  drop-IsSorted (suc n) [] h = tt
  drop-IsSorted (suc n) (x ∷ xs) h = drop-IsSorted n xs h.1

  -- An insertion of a new timestamp is the reference insertion on the slice, behind which the map is
  -- made anew from the new item on.
  abbrev inserted : Partition T → Item T → Dict ℤ ℕ → Partition T
  inserted p item m =
      let r = rank (at_least item.timestamp) p.items in
      record p {
        items = insert_sorted item p.items;
        items_map = some (reindex r (drop r (insert_sorted item p.items)) m);
      }

  insert_new-inserted :
      (p : Partition T) (item : Item T) (m : Dict ℤ ℕ)
      → IsSorted p.items
      → p.items_map ≡ some m
      → insert_new p item ≡ returns (inserted p item m)
  unfolding insert_new
  insert_new-inserted p item m sorted made =
      rw
        (
          made,
          search-rank (at_least item.timestamp) p.items
              (at_least-IsUpward item.timestamp p.items sorted),
        )
        (rw (insert_at-rank item p.items) refl)

  inserted-IsValid_new :
      (p : Partition T) (item : Item T) (m : Dict ℤ ℕ)
      → IsValid p
      → p.items_map ≡ some m
      → index_of item.timestamp p.items ≡ none
      → IsValid (inserted p item m)
  inserted-IsValid_new p item m v made new =
      let sorted = insert_sorted-IsSorted item p.items v.sorted new in
      record {
        sorted = sorted;
        made = (_, refl);
        indexed = λ t.
            reindex-lookup t _ _ m (drop-IsSorted _ _ sorted)
            ∙ (rw (ap (λ o. lookup t (entries o)) (sym made) ∙ v.indexed t)
                (sym (index_of-insert_sorted t item p.items v.sorted new)));
      }

  -- `insert` on a valid partition, whose items are sorted and whose index map is there and has the index
  -- of each of them, never panics and keeps it valid. Under the inserted timestamp then stands the item,
  -- and under any other timestamp what stood there before.
  pub insert_item_lem :
      (p : Partition T) (item : Item T)
      → IsValid p
      → (q : Partition T) × (insert_item p item ≡ returns q)
        × IsValid q
        × ((t : ℤ)
            → find t q.items ≡ (if eqb_ℤ item.timestamp t then some item else find t p.items))
  unfolding insert_item
  insert_item_lem p item v = elim (Option-cases (index_of item.timestamp p.items)) [
    | inl new ↦
        let (m, made) = v.made in
        (
          inserted p item m,
          rw (v.indexed item.timestamp, new, insert_item)
              (insert_new-inserted p item m v.sorted made),
          inserted-IsValid_new p item m v made new,
          λ t. find-insert_sorted t item p.items new,
        )
    | inr (i, old) ↦ (
      record p { items = set p.items i item },
      rw (v.indexed item.timestamp, old, insert_item)
          (unfold store in rw (lt→ltb _ _ (index_of-lt _ p.items i old))),
      record {
        sorted = set-IsSorted item p.items i v.sorted old;
        made = v.made;
        indexed = λ t. v.indexed t ∙ sym (index_of-set t item p.items i old);
      },
      λ t. find-set t item p.items i old,
    )
  ]

  -- On a valid partition `get` never panics, and returns the item with the timestamp unless there is
  -- none or it has expired.
  pub get-find :
      (now : ℤ) (p : Partition T) (t : ℤ)
      → IsValid p
      → get now p t
        ≡ returns (elim (find t p.items) [
          | none ↦ none
          | some x ↦ if is_live now x then some x else none
        ])
  unfolding get
  get-find now p t v = elim (Option-cases (index_of t p.items)) [
    | inl miss ↦ rw (v.indexed t, miss, find-none_of_index_of t p.items miss, get)
    | inr (i, hit) ↦
        let (x, got, found, same) = get_elem?-index_of t p.items i hit in
        ground (arith, v.indexed t)
  ]

  -- The invariant of a result that is known in another way.
  pub inserted-IsValid :
      (p q : Partition T) (item : Item T) → insert_item p item ≡ returns q → IsValid p → IsValid q
  inserted-IsValid p q item e v =
      let (r, e', valid, _) = insert_item_lem p item v in
      subst IsValid (returns_inj r q (sym e' ∙ e)) valid
