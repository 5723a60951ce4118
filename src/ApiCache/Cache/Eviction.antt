-- ===== src/ApiCache/Cache/Eviction.antt =====
-- apicache/apicache.go: `evict` and the size of the cache.
use d_utils.Base.{
  String, string_key, ◌+◌, ◌≤◌, ◌<◌, ◌≡◌, refl, sym, ◌≢◌, ◌⊎◌, ◌∙◌, false, [], ◌∷◌, none, some,
  if◌then◌else◌, arith, All, length, Bool-cases, inl, inr, ◌==◌, same_key_refl,
}
use mathlib.Core.Path.{subst}
use d_utils.Base.Int.{◌≤ℤ◌}
use d_utils.Base.GoTime.{Time, before}
use d_utils.Base.Dict.{
  Dict, lookup, remove, Distinct, lookup-remove, length-remove-lt, remove-Distinct,
}
use d_utils.ApiCache.Cache.{Item, oldest, key_of, evict}

some≢none {ℓ} : {A : Type ℓ} {a : A} → some a ≢ none
some≢none e = cc

module _ {ℓ} {T : Type ℓ} where
  -- No entry was accessed before the time.
  abbrev pub NoneBefore : Time → Dict String (Item T) → Type 0
  NoneBefore t = All (λ (e : String × Item T). t ≤ℤ e.1.last_access)

  NoneBefore-trans :
      (s t : Time) (m : Dict String (Item T)) → s ≤ℤ t → NoneBefore t m → NoneBefore s m
  NoneBefore-trans s t [] h a = tt
  NoneBefore-trans s t (e ∷ m) h a = (omega arith, NoneBefore-trans s t m h a.1)

  lookup_tail :
      (j k : String) (w v : Item T) (m : Dict String (Item T))
      → lookup j m ≡ none
      → lookup k m ≡ some v
      → lookup k ((j, w) ∷ m) ≡ some v
  lookup_tail j k w v m d e = elim (Bool-cases (j == k)) [
    | inl same ↦ absurd (
        some≢none (sym e ∙ subst (λ i. lookup i m ≡ none) ((string_key.same_key_iff j k).0 same) d))
    | inr other ↦ unfold lookup in rw other e
  ]

  lookup_at :
      (k i : String) (w : Item T) (m : Dict String (Item T))
      → k ≡ i
      → lookup k ((i, w) ∷ m) ≡ some w
  unfolding lookup
  lookup_at k i w m same = rw (same, same_key_refl i)

  -- What the loop has found when it ends: an entry of the rest, or the best so far.
  abbrev Found : Dict String (Item T) → String → Time → String → Time → Type ℓ
  Found m k t j s =
      ((v : Item T) × (lookup k m ≡ some v) × (v.last_access ≡ t)) ⊎ ((k ≡ j) × (t ≡ s))

  oldest_from :
      (m : Dict String (Item T)) (j : String) (s : Time)
      → Distinct m
      → (k : String) × (t : Time) × (oldest m (some (j, s)) ≡ some (k, t))
        × (t ≤ℤ s)
        × NoneBefore t m
        × Found m k t j s
  unfolding oldest
  oldest_from [] j s d = (j, s, refl, omega arith, tt, inr (refl, refl))
  oldest_from ((i, w) ∷ m) j s d = elim (Bool-cases (before w.last_access s)) [
    | inl older ↦
        let (k, t, found, le, none_before, which) = oldest_from m i w.last_access d.1 in
        (
          k,
          t,
          rw older found,
          ground arith,
          (le, none_before),
          elim which [
            | inl (v, e, at) ↦ inl (v, lookup_tail i k w v m d.0 e, at)
            | inr (same, at) ↦ inl (w, lookup_at k i w m same, sym at)
          ],
        )
    | inr not_older ↦
        let (k, t, found, le, none_before, which) = oldest_from m j s d.1 in
        (
          k,
          t,
          rw not_older found,
          le,
          (ground arith, none_before),
          elim which [
            | inl (v, e, at) ↦ inl (v, lookup_tail i k w v m d.0 e, at)
            | inr same ↦ inr same
          ],
        )
  ]

  -- On a map of the cache that has one entry for each key, and at least one, `evict` picks an entry
  -- that was accessed no later than any other; it removes that entry, or none if its key is the empty
  -- string.
  pub evict_lem :
      (m : Dict String (Item T)) (j : String) (w : Item T)
      → Distinct m
      → lookup j m ≡ some w
      → (k : String) × (v : Item T) × (lookup k m ≡ some v)
        × NoneBefore v.last_access m
        × (evict m ≡ (if k == "" then m else remove k m))
  unfolding evict oldest
  evict_lem [] j w d e = absurd (unfold lookup in cc)
  evict_lem ((i, x) ∷ m) j w d e =
      let (k, t, found, le, none_before, which) = oldest_from m i x.last_access d.1 in
      elim which [
        | inl (v, at, same) ↦ (
          k,
          v,
          lookup_tail i k x v m d.0 at,
          subst (λ s. NoneBefore s ((i, x) ∷ m)) (sym same) (le, none_before),
          rw found,
        )
        | inr (at, same) ↦ (
          k,
          x,
          lookup_at k i x m at,
          subst (λ s. NoneBefore s ((i, x) ∷ m)) same (le, none_before),
          rw found,
        )
      ]

  pub named_not_empty :
      (k : String) (v : Item T) (m : Dict String (Item T))
      → lookup "" m ≡ none
      → lookup k m ≡ some v
      → (k == "") ≡ false
  named_not_empty k v m n e = elim (Bool-cases (k == "")) [
    | inl empty ↦ absurd (
        some≢none
          (sym e ∙ subst (λ i. lookup i m ≡ none) (sym ((string_key.same_key_iff k "").0 empty)) n))
    | inr other ↦ other
  ]

  -- With no entry under the empty string `evict` makes room.
  pub evict-length :
      (m : Dict String (Item T))
      → Distinct m
      → lookup "" m ≡ none
      → 0 < length m
      → length (evict m) + 1 ≤ length m
  evict-length [] d n h = absurd (omega arith)
  evict-length ((i, x) ∷ m) d n h =
      let (k, v, at, oldest_of, e) = evict_lem ((i, x) ∷ m) i x d (lookup_at i i x m refl) in
      rw (e, named_not_empty k v ((i, x) ∷ m) n at) (length-remove-lt k ((i, x) ∷ m) v at)

  pub evict-Distinct : (m : Dict String (Item T)) → Distinct m → Distinct (evict m)
  unfolding evict
  evict-Distinct m d = elim (Bool-cases (key_of (oldest m none) == "")) [
    | inl stays ↦ rw stays d
    | inr goes ↦ rw goes (remove-Distinct (key_of (oldest m none)) m d)
  ]

  pub evict-absent :
      (j : String) (m : Dict String (Item T)) → lookup j m ≡ none → lookup j (evict m) ≡ none
  unfolding evict
  evict-absent j m h = elim (Bool-cases (key_of (oldest m none) == "")) [
    | inl stays ↦ rw stays h
    | inr goes ↦ rw (goes, lookup-remove (key_of (oldest m none)) j m) (ground arith)
  ]
