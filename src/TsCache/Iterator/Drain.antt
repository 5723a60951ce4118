-- ===== src/TsCache/Iterator/Drain.antt =====
-- tscache/iterator.go: the whole iteration, `for { item, ok := it.Next(); if !ok { break } ... }`.
use d_utils.Base.{ℕ, zero, suc, List, [], ◌∷◌, Option, none, some}
use d_utils.Base.Int.{ℤ, int_key}
use d_utils.TsCache.Partition.Items.{Item}
use d_utils.TsCache.Store.{Store}
use d_utils.TsCache.Iterator.{Iterator, next}

module _ {ℓ} {T : Type ℓ} (c : Store T) (now : ℤ → ℤ → ℤ) where
  -- The items that at most `n` calls of `Next` return, and the iterator behind the one that returns
  -- none; without such a call, nothing.
  unfoldable pub drain : ℕ → Iterator → Option (List (Item T) × Iterator)
  drain zero it = none
  drain (suc n) it = elim (next c now it) [
    | none ↦ none
    | some (it', found) ↦ elim found [
      | none ↦ some ([], it')
      | some x ↦ elim (drain n it') [ none ↦ none | some (xs, last) ↦ some (x ∷ xs, last) ]
    ]
  ]
