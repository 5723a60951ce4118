-- ===== src/TsCache/Partition/Items.antt =====
-- tscache/partition.go: the items of a partition, their expiry, and lists of items in order.
use d_utils.Base.{Bool, ◌||◌, List, [], ◌∷◌, All}
use d_utils.Base.Int.{ℤ, pos, ◌<ℤ◌, leb_ℤ, eqb_ℤ}

pub record Item {ℓ} (T : Type ℓ) : Type ℓ where
  pub value : T
  pub timestamp : ℤ
  pub expiration : ℤ

module _ {ℓ} {T : Type ℓ} where
  -- `item.Expiration == 0 || now <= item.Expiration`
  unfoldable pub is_live : ℤ → Item T → Bool
  is_live now item = eqb_ℤ item.expiration (pos 0) || leb_ℤ now item.expiration

  -- Strictly ascending timestamps.
  abbrev pub IsSorted : List (Item T) → Type 0
  IsSorted [] = Unit {0}
  IsSorted (x ∷ xs) = All (λ (y : Item T). x.timestamp <ℤ y.timestamp) xs × IsSorted xs
