-- ===== src/TsCache/Partition/Cleanup.antt =====
-- tscache/partition.go: the rebuilt slice and map, as `cleanup` and `DeleteRange` make them.
use d_utils.Base.{
  ℕ, ◌≡◌, refl, sym, Bool, true, List, [], ◌∷◌, ◌++◌, none, some, if◌then◌else◌, length, filter_by,
  arith, All, Bool-cases, inl, inr, append_assoc, append-nil, ltb,
}
use d_utils.Base.Int.{ℤ, int_key, ◌<ℤ◌, eqb_ℤ}
use d_utils.Base.Dict.{Dict, lookup, insert, lookup-insert}
use d_utils.TsCache.Partition.Items.{Item, IsSorted, is_live}
use d_utils.TsCache.Partition.{Partition, rebuild, cleanup}
use d_utils.TsCache.Partition.Order.{index_of, filter_by-IsSorted}
use d_utils.TsCache.Partition.Valid.{IsValid}

module _ {ℓ} {T : Type ℓ} where
  abbrev Tracks : List (Item T) → Dict ℤ ℕ → Type 0
  Tracks kept m = (t : ℤ) → lookup t m ≡ index_of t kept

  All_mid {κ} :
      (P : Item T → Type κ) (kept : List (Item T)) (x : Item T) (rest : List (Item T))
      → All P (kept ++ (x ∷ rest))
      → P x
  All_mid P [] x rest h = h.0
  All_mid P (y ∷ kept) x rest h = All_mid P kept x rest h.1

  -- The last item of a sorted list carries a new timestamp.
  index_of_before :
      (t : ℤ) (kept : List (Item T)) (x : Item T) (rest : List (Item T))
      → IsSorted (kept ++ (x ∷ rest))
      → eqb_ℤ x.timestamp t ≡ true
      → index_of t kept ≡ none
  unfolding index_of
  index_of_before t [] x rest h e = refl
  index_of_before t (y ∷ kept) x rest h e =
      let lt : y.timestamp <ℤ x.timestamp = All_mid _ kept x rest h.0 in
      ground (arith, index_of_before t kept x rest h.1 e)

  absent_tail :
      (t : ℤ) (y : Item T) (kept : List (Item T))
      → index_of t (y ∷ kept) ≡ none
      → index_of t kept ≡ none
  unfolding index_of
  absent_tail t y kept h = ground arith

  index_of-snoc :
      (t : ℤ) (kept : List (Item T)) (x : Item T)
      → (eqb_ℤ x.timestamp t ≡ true → index_of t kept ≡ none)
      → index_of t (kept ++ (x ∷ []))
        ≡ (if eqb_ℤ x.timestamp t then some (length kept) else index_of t kept)
  unfolding index_of
  index_of-snoc t [] x h = ground arith
  index_of-snoc t (y ∷ kept) x h =
      ground (arith, index_of-snoc t kept x (λ e. absent_tail t y kept (h e)))

  snoc-Tracks :
      (kept : List (Item T)) (x : Item T) (rest : List (Item T)) (m : Dict ℤ ℕ)
      → IsSorted (kept ++ (x ∷ rest))
      → Tracks kept m
      → Tracks (kept ++ (x ∷ [])) (insert x.timestamp (length kept) m)
  snoc-Tracks kept x rest m h tracks t =
      rw (lookup-insert x.timestamp t (length kept) m, tracks t)
        (sym (index_of-snoc t kept x (index_of_before t kept x rest h)))

  rebuild_lem :
      (keep : Item T → Bool) (xs kept : List (Item T)) (m : Dict ℤ ℕ)
      → IsSorted (kept ++ filter_by keep xs)
      → Tracks kept m
      → ((rebuild keep xs kept m).0 ≡ kept ++ filter_by keep xs)
        × Tracks (kept ++ filter_by keep xs) (rebuild keep xs kept m).1
  unfolding rebuild
  rebuild_lem keep [] kept m h tracks = (sym (append-nil kept), rw (append-nil kept) tracks)
  rebuild_lem keep (x ∷ xs) kept m h tracks = elim (Bool-cases (keep x)) [
    | inl e ↦
        let sorted : IsSorted (kept ++ (x ∷ filter_by keep xs)) = rw e at h in
        let assoc = append_assoc kept (x ∷ []) (filter_by keep xs) in
        rw (e, rebuild)
          (rw assoc at (
            rebuild_lem keep xs (kept ++ (x ∷ [])) (insert x.timestamp (length kept) m)
              (rw assoc sorted) (snoc-Tracks kept x (filter_by keep xs) m sorted tracks)))
    | inr e ↦ rw (e, rebuild) (rebuild_lem keep xs kept m (rw e at h) tracks)
  ]

  -- The loop that rebuilds a valid partition keeps exactly the items that pass, in order, and makes
  -- the index map that belongs to them.
  pub rebuild-filter_by :
      (keep : Item T → Bool) (p : Partition T)
      → IsValid p
      → let (kept, m) = rebuild keep p.items [] [] in
        (kept ≡ filter_by keep p.items) × IsValid (record p { items = kept; items_map = some m })
  rebuild-filter_by keep p v =
      let sorted = filter_by-IsSorted keep p.items v.sorted in
      let (same, tracks) =
        rebuild_lem keep p.items [] [] sorted (λ t. unfold lookup index_of in refl) in
      (same, record { sorted = rw same sorted; made = (_, refl); indexed = rw same tracks })

  -- `cleanup` on a valid partition drops the expired items and keeps the others in order, keeps the
  -- partition valid and its bounds, and reports whether any items are left.
  pub cleanup_lem :
      (now : ℤ) (p : Partition T)
      → IsValid p
      → let (q, any) = cleanup now p in
        IsValid q
        × (q.items ≡ filter_by (is_live now) p.items)
        × (q.start_time ≡ p.start_time)
        × (q.end_time ≡ p.end_time)
        × (any ≡ ltb 0 (length (filter_by (is_live now) p.items)))
  unfolding cleanup
  cleanup_lem now p v =
      let (same, valid) = rebuild-filter_by (is_live now) p v in (valid, same, refl, refl, rw same)
