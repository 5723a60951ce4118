-- ===== src/Base/Dict.antt =====
-- Go maps as association lists. An assignment replaces the entry of a present key and adds an entry
-- at the end otherwise, so a map built by the operations below has one entry for each key. Go visits
-- a map in an order of its choice; the model visits the entries in the order of the list.
use d_utils.Base.{
  ℕ, ◌+◌, ◌≤◌, Keyed, ◌==◌, ◌≡◌, refl, ◌≢◌, List, [], ◌∷◌, Option, none, some, if◌then◌else◌,
  length, arith, same_key_refl, All, Bool-cases, inl, inr, some_inj,
}
use mathlib.Core.Path.{subst}

abbrev pub Dict {ℓ κ} : Type ℓ → Type κ → Type (ℓ ⊔ κ)
Dict K V = List (K × V)

module _ {ℓ κ} {K : Type ℓ} {V : Type κ} where
  abbrev pub keys : Dict K V → List K
  keys [] = []
  keys ((k, v) ∷ m) = k ∷ keys m

  abbrev pub values : Dict K V → List V
  values [] = []
  values ((k, v) ∷ m) = v ∷ values m

module _ {ℓ κ} {K : Type ℓ} {V : Type κ} ⦃e : Keyed K⦄ where
  -- `m[k]`, with the flag of the two-valued form.
  unfoldable pub lookup : K → Dict K V → Option V
  lookup key [] = none
  lookup key ((held, x) ∷ rest) = if held == key then some x else lookup key rest

  -- `delete(m, k)`
  unfoldable pub remove : K → Dict K V → Dict K V
  remove k [] = []
  remove k ((j, v) ∷ m) = if j == k then remove k m else (j, v) ∷ remove k m

  -- `m[k] = v`
  unfoldable pub insert : K → V → Dict K V → Dict K V
  insert key new [] = (key, new) ∷ []
  insert key new ((held, x) ∷ rest) =
      if held == key then (held, new) ∷ rest else (held, x) ∷ insert key new rest

  pub lookup-remove :
      (k j : K) (m : Dict K V) → lookup j (remove k m) ≡ (if k == j then none else lookup j m)
  unfolding lookup remove
  lookup-remove k j [] = ground arith
  lookup-remove k j ((i, w) ∷ m) =
      ground
        (arith, e.same_key_iff k j, e.same_key_iff i k, e.same_key_iff i j, lookup-remove k j m)

  pub lookup-insert :
      (key j : K) (new : V) (m : Dict K V)
      → lookup j (insert key new m) ≡ (if key == j then some new else lookup j m)
  unfolding insert lookup
  lookup-insert key j new ((held, x) ∷ rest) = ground (
    arith,
    lookup-insert key j new rest,
    e.same_key_iff held key,
    e.same_key_iff key j,
    e.same_key_iff held j,
  )
  lookup-insert key j new [] = ground arith

  pub lookup-insert_self : (k : K) (v : V) (m : Dict K V) → lookup k (insert k v m) ≡ some v
  lookup-insert_self k v m = ground (arith, lookup-insert k k v m, same_key_refl k)

  pub lookup-insert_ne :
      (k j : K) (v : V) (m : Dict K V) → k ≢ j → lookup j (insert k v m) ≡ lookup j m
  lookup-insert_ne k j v m h = ground (arith, lookup-insert k j v m, e.same_key_iff k j)

  pub lookup-remove_self : (k : K) (m : Dict K V) → lookup k (remove k m) ≡ none
  lookup-remove_self k m = ground (arith, lookup-remove k k m, same_key_refl k)

  pub lookup-remove_ne : (k j : K) (m : Dict K V) → k ≢ j → lookup j (remove k m) ≡ lookup j m
  lookup-remove_ne k j m h = ground (arith, lookup-remove k j m, e.same_key_iff k j)

  pub length-remove-le : (k : K) (m : Dict K V) → length (remove k m) ≤ length m
  unfolding remove
  length-remove-le k [] = omega arith
  length-remove-le k ((j, v) ∷ m) = ground (arith, length-remove-le k m)

  pub length-remove-lt :
      (k : K) (m : Dict K V) (v : V) → lookup k m ≡ some v → length (remove k m) + 1 ≤ length m
  unfolding lookup remove
  length-remove-lt k [] v h = cc
  length-remove-lt k ((j, w) ∷ m) v h = ground (arith, length-remove-le k m, length-remove-lt k m v)

  -- A new key adds one entry and a present one none.
  pub length-insert :
      (k : K) (v : V) (m : Dict K V)
      → length (insert k v m)
        ≡ (elim (lookup k m) as (λ _. ℕ) [ none ↦ length m + 1 | some _ ↦ length m ])
  unfolding lookup insert
  length-insert k v [] = omega arith
  length-insert k v ((j, w) ∷ m) = ground (arith, length-insert k v m)

  pub length-insert-le : (k : K) (v : V) (m : Dict K V) → length (insert k v m) ≤ length m + 1
  length-insert-le k v m = ground (arith, length-insert k v m)

-- One entry for each key.
module _ {ℓ κ} {K : Type ℓ} {V : Type κ} ⦃e : Keyed K⦄ where
  abbrev pub Distinct : Dict K V → Type κ
  Distinct [] = Unit
  Distinct ((k, v) ∷ m) = (lookup k m ≡ none) × Distinct m

  pub insert-Distinct : (k : K) (v : V) (m : Dict K V) → Distinct m → Distinct (insert k v m)
  unfolding insert lookup
  insert-Distinct k v [] h = (refl, tt)
  insert-Distinct k v ((j, w) ∷ m) h = ground (
    arith,
    insert-Distinct k v m h.1,
    lookup-insert k j v m,
    e.same_key_iff j k,
    e.same_key_iff k j,
  )

  pub remove-Distinct : (k : K) (m : Dict K V) → Distinct m → Distinct (remove k m)
  unfolding remove
  remove-Distinct k [] h = tt
  remove-Distinct k ((j, w) ∷ m) h = ground (arith, remove-Distinct k m h.1, lookup-remove k j m)

-- What holds for each entry holds for what is found.
module _ {ℓ κ μ} {K : Type ℓ} {V : Type κ} ⦃e : Keyed K⦄ (P : K → V → Type μ) where
  pub All-lookup :
      (m : Dict K V)
      → All (λ (x : K × V). P x.0 x.1) m
      → (k : K) (v : V) → lookup k m ≡ some v
      → P k v
  unfolding lookup
  All-lookup [] h k v found = cc
  All-lookup ((j, w) ∷ m) h k v found = elim (Bool-cases (j == k)) [
    | inl same ↦
        subst (λ z. P z v) ((e.same_key_iff j k).0 same)
          (subst (P j) (some_inj (rw same at found)) h.0)
    | inr other ↦ All-lookup m h.1 k v (rw other at found)
  ]

  pub All-of_lookup :
      (m : Dict K V)
      → Distinct m
      → ((k : K) (v : V) → lookup k m ≡ some v → P k v)
      → All (λ (x : K × V). P x.0 x.1) m
  unfolding lookup
  All-of_lookup [] d h = tt
  All-of_lookup ((j, w) ∷ m) d h = (
    h j w (rw ((e.same_key_iff j j).1 refl) refl),
    All-of_lookup m d.1 (λ k v found. h k v (behind k v found)),
  )
    where
      behind : (k : K) (v : V) → lookup k m ≡ some v → lookup k ((j, w) ∷ m) ≡ some v
      behind k v found = ground (arith, e.same_key_iff j k, d.0, found)
