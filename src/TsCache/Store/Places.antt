-- ===== src/TsCache/Store/Places.antt =====
-- tscache/cache.go: where `Set` puts the items, as to their times.
use d_utils.Base.{
  ℕ, zero, suc, ◌<◌, ◌≡◌, refl, sym, ◌∙◌, false, List, [], ◌∷◌, Option, none, some, some_inj,
  if◌then◌else◌, length, ltb, All, All-append, set as set_at, take, drop, arith, Option-cases,
  Bool-cases, inl, inr, ◌==◌,
}
use mathlib.Core.Path.{ap, subst}
use native.Mathlib.Nat.{mod-lt}
use d_utils.Base.Int.{
  ℤ, int_key, pos, negsuc, pos_part, ◌≤ℤ◌, ◌<ℤ◌, ◌+ℤ◌, ◌-ℤ◌, +ℤ_parts, -ℤ_parts, sign_parts,
  eqb_ℤ_iff, leb_ℤ,
}
use d_utils.Base.Word.{InInt64, wrap64_of_InInt64}
use d_utils.Base.GoTime.{Time, Duration, unix_epoch, unix_nano, truncate, floor_mod}
use d_utils.Base.Dict.{lookup}
use d_utils.Base.Outcome.{Outcome, returns, panics, returns_inj, Outcome-cases}
use d_utils.TsCache.Partition.{
  Partition, entries, new_partition, insert_item, insert_new, store, at_least,
}
use d_utils.Base.Search.{search, probe}
use d_utils.TsCache.Partition.Items.{Item}
use d_utils.TsCache.Store.{Store, partition_start, get_partition, set, write, save}
use d_utils.TsCache.Store.Writes.{get_partition-size}
use d_utils.TsCache.Store.SetGet.{item_of, written-lookup, flushed}

module _ {ℓ κ} {A : Type ℓ} (P : A → Type κ) where
  All-take : (n : ℕ) (xs : List A) → All P xs → All P (take n xs)
  All-take zero xs h = tt
  All-take (suc n) [] h = tt
  All-take (suc n) (x ∷ xs) h = (h.0, All-take n xs h.1)

  All-drop : (n : ℕ) (xs : List A) → All P xs → All P (drop n xs)
  All-drop zero xs h = h
  All-drop (suc n) [] h = tt
  All-drop (suc n) (x ∷ xs) h = All-drop n xs h.1

  All-set : (xs : List A) (i : ℕ) (x : A) → All P xs → P x → All P (set_at xs i x)
  All-set [] i x h px = tt
  All-set (y ∷ ys) zero x h px = (px, h.1)
  All-set (y ∷ ys) (suc i) x h px = (h.0, All-set ys i x h.1 px)

floor_mod-lt : (t : ℤ) (d : ℕ) → 0 < d → floor_mod t d < d
floor_mod-lt (pos n) d h = mod-lt n h
floor_mod-lt (negsuc n) d h = omega (arith, mod-lt n h)

truncate_near :
    (t : Time) (size : Duration)
    → pos 0 <ℤ size
    → (truncate t size ≤ℤ t) × (t ≤ℤ truncate t size +ℤ size)
truncate_near t size positive =
    let m = floor_mod t (pos_part size) in
    let small : m < pos_part size = floor_mod-lt t (pos_part size) (omega (arith, positive)) in
    let big : leb_ℤ size (pos 0) ≡ false = ground arith in
    let whole : truncate t size ≡ t -ℤ pos m = unfold truncate in rw big refl in
    rw whole (
      omega
        (arith, small, positive, sign_parts size, -ℤ_parts t (pos m), +ℤ_parts (t -ℤ pos m) size))

-- A time lies in its partition, if neither conversion to nanoseconds wraps around.
nano_in_partition :
    (t : Time) (size : Duration)
    → pos 0 <ℤ size
    → InInt64 (t -ℤ unix_epoch)
    → InInt64 (truncate t size -ℤ unix_epoch)
    → (unix_nano (truncate t size) ≤ℤ unix_nano t)
      × (unix_nano t ≤ℤ unix_nano (truncate t size) +ℤ size)
unfolding unix_nano
nano_in_partition t size positive fits fits' =
    rw
      (
        wrap64_of_InInt64 (t -ℤ unix_epoch) fits,
        wrap64_of_InInt64 (truncate t size -ℤ unix_epoch) fits',
      )
      (omega (
        arith,
        truncate_near t size positive,
        +ℤ_parts (truncate t size) size,
        -ℤ_parts t unix_epoch,
        -ℤ_parts (truncate t size) unix_epoch,
        +ℤ_parts (truncate t size -ℤ unix_epoch) size,
      ))

-- The lists that `insert` makes.
module _ {ℓ κ} {T : Type ℓ} (P : Item T → Type κ) where
  insert_new-All :
      (p q : Partition T) (item : Item T)
      → insert_new p item ≡ returns q
      → All P p.items
      → P item
      → All P q.items
  unfolding insert_new
  insert_new-All p q item e all holds = elim (Option-cases (p.items_map)) [
    | inl unmade ↦ let no : panics ≡ returns q = rw unmade at e in absurd (cc)
    | inr (m, made) ↦
        let i = search (length p.items) (probe (at_least item.timestamp) p.items) in
        subst (λ r. All P r.items) (returns_inj _ _ (rw made at e))
          (All-append P (take i p.items) (item ∷ drop i p.items) (All-take P i p.items all)
            (holds, All-drop P i p.items all))
  ]

  store-All :
      (p q : Partition T) (i : ℕ) (item : Item T)
      → store p i item ≡ returns q
      → All P p.items
      → P item
      → All P q.items
  unfolding store
  store-All p q i item e all holds = elim (Bool-cases (ltb i (length p.items))) [
    | inl fits ↦
        subst (λ r. All P r.items) (returns_inj _ _ (rw fits at e))
          (All-set P p.items i item all holds)
    | inr not_there ↦ let no : panics ≡ returns q = rw not_there at e in absurd (cc)
  ]

  insert_item-All :
      (p q : Partition T) (item : Item T)
      → insert_item p item ≡ returns q
      → All P p.items
      → P item
      → All P q.items
  unfolding insert_item
  insert_item-All p q item e all holds =
      elim (Option-cases (lookup item.timestamp (entries p.items_map))) [
        | inl new ↦ insert_new-All p q item (rw (new, insert_item) at e) all holds
        | inr (i, old) ↦ store-All p q i item (rw (old, insert_item) at e) all holds
      ]

module _ {ℓ} {T : Type ℓ} where
  -- The items of a partition lie between its start and its end, which is within `int64`.
  abbrev pub Placed : Duration → ℤ → Partition T → Type 0
  Placed size s p =
      InInt64 (s +ℤ size)
      × All (λ (x : Item T). (s ≤ℤ x.timestamp) × (x.timestamp ≤ℤ s +ℤ size)) p.items

  abbrev pub InPlace : Store T → Type ℓ
  InPlace c =
      (s : ℤ) (p : Partition T) → lookup s c.partitions ≡ some p → Placed c.partition_size s p

  unfoldable pub LoadsInPlace : Store T → Time → Option (Partition T) → Type ℓ
  LoadsInPlace c t loaded =
      (p : Partition T) → loaded ≡ some p → Placed c.partition_size (partition_start c t) p

  get_partition-Placed :
      (c : Store T) (t : Time) (loaded : Option (Partition T))
      → InPlace c
      → LoadsInPlace c t loaded
      → InInt64 (partition_start c t +ℤ c.partition_size)
      → Placed c.partition_size (partition_start c t) (get_partition c t loaded).1
  unfolding get_partition LoadsInPlace
  get_partition-Placed c t loaded place loads fits =
      elim (Option-cases (lookup (partition_start c t) c.partitions)) [
        | inr (p, present) ↦ rw (present, get_partition) (place _ p present)
        | inl absent ↦ elim (Option-cases loaded) [
          | inl nothing ↦ rw (absent, get_partition, nothing) (fits, unfold new_partition in tt)
          | inr (p, found) ↦ rw (absent, get_partition, found) (loads p found)
        ]
      ]

  Placed-after :
      (size : Duration) (start s : ℤ) (p q : Partition T) (c : Store T)
      → ((r : Partition T) → lookup s c.partitions ≡ some r → Placed size s r)
      → Placed size start q
      → (if start == s then some q else lookup s c.partitions) ≡ some p
      → Placed size s p
  Placed-after size start s p q c old new e = elim (Bool-cases (start == s)) [
    | inl same ↦
        subst (λ z. Placed size z p) ((eqb_ℤ_iff start s).0 same)
          (subst (Placed size start) (some_inj (rw same at e)) new)
    | inr other ↦ old p (rw other at e)
  ]

  -- `Set` puts an item where it belongs: with a positive partition size, for a time whose partition
  -- and whose own conversion to nanoseconds are within `int64`, if a partition that is loaded from
  -- the files is in place, then every partition still has only items between its start and its end.
  pub set-InPlace :
      {E : Type ℓ} (c d : Store T) (t : Time) (v : T) (ttl : Option Duration) (now : Time)
      (loaded : Option (Partition T)) (saved e : Option E)
      → InPlace c
      → LoadsInPlace c t loaded
      → pos 0 <ℤ c.partition_size
      → InInt64 (t -ℤ unix_epoch)
      → InInt64 (truncate t c.partition_size -ℤ unix_epoch)
      → InInt64 (partition_start c t +ℤ c.partition_size)
      → set c t v ttl now loaded saved ≡ returns (d, e)
      → InPlace d
  unfolding set
  set-InPlace {E = E} c d t v ttl now loaded saved e place loads positive fits fits' ends done =
      elim (Outcome-cases (insert_item (get_partition c t loaded).1 (item_of t v ttl now))) [
        | inl bad ↦
            let no : ◌≡◌ {A = Outcome (Store T × Option E)} panics (returns (d, e)) =
              rw bad at done in
            absurd (cc)
        | inr (q, good) ↦
            let w = write (get_partition c t loaded).0 (partition_start c t) q in
            let r : Store T × Option E =
              if c.flush_immediately then (save w q, saved) else (w, none) in
            let same : r.0 ≡ d = ap (λ z. z.0) (returns_inj r (d, e) (rw good at done)) in
            let (parts, size') = flushed c.flush_immediately w q saved in
            let size : d.partition_size ≡ c.partition_size =
              ap (λ z. z.partition_size) (sym same) ∙ size' ∙ get_partition-size c t loaded in
            let (end_fits, all) = get_partition-Placed c t loaded place loads ends in
            let new : Placed c.partition_size (partition_start c t) q = (
              end_fits,
              insert_item-All _ _ q (item_of t v ttl now) good all
                  (nano_in_partition t c.partition_size positive fits fits'),
            ) in
            λ s p h.
              subst (λ z. Placed z s p) (sym size)
                (Placed-after c.partition_size (partition_start c t) s p q c (place s) new (
                  sym (written-lookup c t loaded q s)
                  ∙ ap (λ m. lookup s m) (sym parts ∙ ap (λ z. z.partitions) same)
                  ∙ h))
      ]
