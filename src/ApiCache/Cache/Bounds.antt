-- ===== src/ApiCache/Cache/Bounds.antt =====
-- apicache/apicache.go: `set` on a cache within its bound.
use d_utils.Base.{
  String, string_key, ◌<◌, ◌≡◌, ◌≢◌, ◌∙◌, true, false, [], ◌∷◌, none, some, if◌then◌else◌, arith,
  length, Bool-cases, inl, inr, ◌==◌, same_key_refl,
}
use d_utils.Base.Int.{pos, ◌≤ℤ◌, ◌<ℤ◌}
use d_utils.Base.GoTime.{Time, add}
use d_utils.Base.Dict.{
  Dict, lookup, Distinct, lookup-insert_self, lookup-insert_ne, lookup-remove, length-insert-le,
  insert-Distinct,
}
use d_utils.ApiCache.Cache.{Cache, Item, evict, is_full, set}
use d_utils.ApiCache.Cache.Eviction.{
  NoneBefore, evict_lem, named_not_empty, evict-length, evict-Distinct, evict-absent,
}

module _ {ℓ} {T : Type ℓ} where
  pub record IsValid (c : Cache T) : Type ℓ where
    pub distinct : Distinct c.items
    pub named : lookup "" c.items ≡ none
    pub positive : pos 0 <ℤ c.max_items
    pub bounded : pos (length c.items) ≤ℤ c.max_items

  abbrev pub stored_item : Cache T → T → Time → Item T
  stored_item c v now = record {
    value = v;
    created_at = now;
    expires_at = add now c.default_ttl;
    last_access = now;
    access_count = pos 0;
  }

  -- A `set` under a key that is not empty, on a cache within its bound that has one entry for each key
  -- and none under the empty string, keeps all of that.
  pub set-IsValid :
      (c : Cache T) (key : String) (v : T) (now : Time)
      → key ≢ ""
      → IsValid c
      → IsValid (set c key v now)
  unfolding set
  set-IsValid c key v now name i = elim (Bool-cases (is_full c)) [
    | inl full ↦
        rw (full, set)
          (record {
            distinct = insert-Distinct key _ (evict c.items) (evict-Distinct c.items i.distinct);
            named =
                lookup-insert_ne key "" _ (evict c.items) name ∙ evict-absent "" c.items i.named;
            positive = i.positive;
            bounded = ground (
              arith,
              evict-length c.items i.distinct i.named,
              length-insert-le key (stored_item c v now) (evict c.items),
              i.positive,
              i.bounded,
            );
          })
    | inr room ↦
        rw (room, set)
          (record {
            distinct = insert-Distinct key _ c.items i.distinct;
            named = lookup-insert_ne key "" _ c.items name ∙ i.named;
            positive = i.positive;
            bounded = ground (arith, length-insert-le key (stored_item c v now) c.items);
          })
  ]

  first_entry :
      (m : Dict String (Item T))
      → 0 < length m
      → (j : String) × (w : Item T) × (lookup j m ≡ some w)
  unfolding lookup
  first_entry [] h = absurd (omega arith)
  first_entry ((j, w) ∷ m) h = (j, w, rw (same_key_refl j))

  at_capacity :
      (c : Cache T) (key : String) (v : T) (now : Time)
      → IsValid c
      → is_full c ≡ true
      → (k : String) × (w : Item T) × (lookup k c.items ≡ some w)
        × NoneBefore w.last_access c.items
        × ((j : String)
            → key ≢ j
            → lookup j (set c key v now).items ≡ (if k == j then none else lookup j c.items))
  at_capacity c key v now i full =
      let (a, x, there) = first_entry c.items (ground (arith, i.positive)) in
      let (k, w, at, oldest_of, e) = evict_lem c.items a x i.distinct there in
      (
        k,
        w,
        at,
        oldest_of,
        λ j other.
            unfold set in
            (lookup-insert_ne key j (stored_item c v now) _ other
              ∙ rw (full, e, named_not_empty k w c.items i.named at) (lookup-remove k j c.items)),
      )

  -- What `set` does on a cache within its bound that has no entry under the empty string. Under its
  -- own key stands the new item. Below capacity every other entry stays. At capacity, whether or not
  -- the key is new, there is one entry `k`, which no other precedes in access time, that is evicted:
  -- every entry under a key that is neither `k` nor the new one stays.
  pub set-lookup :
      (c : Cache T) (key : String) (v : T) (now : Time)
      → IsValid c
      → (lookup key (set c key v now).items ≡ some (stored_item c v now))
        × (is_full c ≡ false
            → (j : String) → key ≢ j
            → lookup j (set c key v now).items ≡ lookup j c.items)
        × (is_full c ≡ true
            → (k : String) × (w : Item T) × (lookup k c.items ≡ some w)
              × NoneBefore w.last_access c.items
              × ((j : String)
                  → key ≢ j
                  → lookup j (set c key v now).items ≡ (if k == j then none else lookup j c.items)))
  unfolding set
  set-lookup c key v now i = (
    lookup-insert_self key (stored_item c v now) _,
    λ room j other. lookup-insert_ne key j (stored_item c v now) _ other ∙ rw room,
    λ full. at_capacity c key v now i full,
  )
