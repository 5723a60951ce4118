-- ===== src/TsCache/Store/Delete/Cut.antt =====
-- tscache/cache.go: what `DeleteRange` leaves of a partition that it visits.
use d_utils.Base.{
  ◌≡◌, refl, ◌∙◌, Bool, true, false, not, ◌&&◌, ◌||◌, List, filter_by, Option, none, some,
  if◌then◌else◌, arith,
}
use d_utils.Base.Int.{ℤ, leb_ℤ, ltb_ℤ, ◌+ℤ◌}
use d_utils.Base.Word.{add64}
use d_utils.Base.GoTime.{Duration}
use d_utils.TsCache.Partition.{Partition}
use d_utils.TsCache.Partition.Items.{Item}
use d_utils.TsCache.Partition.Cleanup.{rebuild-filter_by}
use d_utils.TsCache.Partition.Valid
use d_utils.TsCache.Store.Delete.{is_outside, thin, is_whole}

-- The timestamp is in the range, both of whose ends belong to it.
abbrev pub in_range : ℤ → ℤ → ℤ → Bool
in_range first last t = leb_ℤ first t && leb_ℤ t last

not-in_range : (first last t : ℤ) → (ltb_ℤ t first || ltb_ℤ last t) ≡ not (in_range first last t)
not-in_range first last t = ground arith

module _ {ℓ} {T : Type ℓ} where
  -- What a visit leaves of a partition.
  abbrev pub cut : Duration → ℤ → ℤ → ℤ → Option (Partition T) → Option (Partition T)
  cut size s start end none = none
  cut size s start end (some p) =
      if is_whole size s start end then none else some (thin start end p)

  -- What becomes of the partition of a start, none or some, behind a deletion between two timestamps:
  -- where it lies within the range, from its start to the next one, it is gone; otherwise it has the
  -- items that are not in the range, in order, and is valid.
  abbrev pub IsCut : Duration → ℤ → ℤ → ℤ → Option (Partition T) → Option (Partition T) → Type ℓ
  IsCut size s first last none after = after ≡ none
  IsCut size s first last (some p) after =
      ((leb_ℤ first s && leb_ℤ (s +ℤ size) last) ≡ true → after ≡ none)
      × ((leb_ℤ first s && leb_ℤ (s +ℤ size) last) ≡ false
          → (q : Partition T) × (after ≡ some q)
            × (q.items ≡ filter_by (λ (x : Item T). not (in_range first last x.timestamp)) p.items)
            × Valid.IsValid q)

  filter_by-is_outside :
      (first last : ℤ) (xs : List (Item T))
      → filter_by (is_outside first last) xs
        ≡ filter_by (λ (x : Item T). not (in_range first last x.timestamp)) xs
  filter_by-is_outside first last xs =
      λ i. filter_by (λ (x : Item T). not-in_range first last x.timestamp i) xs

  pub cut-IsCut :
      (size : Duration) (s first last : ℤ) (before : Option (Partition T))
      → add64 s size ≡ s +ℤ size
      → ((p : Partition T) → before ≡ some p → Valid.IsValid p)
      → IsCut size s first last before (cut size s first last before)
  cut-IsCut size s first last none fits valid = refl
  cut-IsCut size s first last (some p) fits valid =
      let (same, valid') = rebuild-filter_by (is_outside first last) p (valid p refl) in
      rw fits (
        λ whole. rw whole refl,
        λ part.
            rw part
              (thin first last p, refl, same ∙ filter_by-is_outside first last p.items, valid'),
      )
