-- ===== src/SafeMap/Passes.antt =====
-- safemap/safemap.go: the methods that visit the whole map.
use d_utils.Base.{
  String, string_key, ◌≡◌, refl, ◌∙◌, Bool, true, false, [], ◌∷◌, Option, none, some, if◌then◌else◌,
  Bool-cases, inl, inr, ◌==◌,
}
use mathlib.Core.Path.{subst}
use d_utils.Base.Dict.{Dict, lookup, insert, Distinct, lookup-insert, insert-Distinct}
use d_utils.SafeMap.{Map, visit, copy, range, filter, map, set, get_map, new_safe_map}
use d_utils.SafeMap.Keys.{text, get_key}

module _ {ℓ} {T : Type ℓ} where
  -- One map has an entry for each key at most.
  abbrev pub IsValid : Map T → Type ℓ
  IsValid m = Distinct m.items

  -- What stands under a key behind writes to it from an old map.
  abbrev over : Option T → Option T → Option T
  over none old = old
  over (some v) old = some v

  copy-lookup :
      (m out : Dict String T) (j : String)
      → Distinct m
      → lookup j (copy m out) ≡ over (lookup j m) (lookup j out)
  unfolding copy lookup
  copy-lookup [] out j d = refl
  copy-lookup ((k, v) ∷ m) out j d = elim (Bool-cases (k == j)) [
    | inl same ↦
        let gone = subst (λ z. lookup z m ≡ none) ((string_key.same_key_iff k j).0 same) d.0 in
        rw same
          (copy-lookup m (insert k v out) j d.1 ∙ rw (gone, lookup-insert k j v out, same) refl)
    | inr other ↦
        rw other (copy-lookup m (insert k v out) j d.1 ∙ rw (lookup-insert k j v out, other) refl)
  ]

  copy-Distinct : (m out : Dict String T) → Distinct out → Distinct (copy m out)
  unfolding copy
  copy-Distinct [] out d = d
  copy-Distinct ((k, v) ∷ m) out d = copy-Distinct m (insert k v out) (insert-Distinct k v out d)

  over-none : (o : Option T) → over o none ≡ o
  over-none none = refl
  over-none (some v) = refl

  copied : (m : Dict String T) (j : String) → Distinct m → lookup j (copy m []) ≡ lookup j m
  copied m j d = copy-lookup m [] j d ∙ unfold lookup in over-none (lookup j m)

  abbrev kept_by : (T → Bool) → Option T → Option T
  kept_by test none = none
  kept_by test (some v) = if test v then some v else none

  abbrev changed_by : (T → T) → Option T → Option T
  changed_by f none = none
  changed_by f (some v) = some (f v)

  filtered :
      (predicate : String → T → Bool) (m : Dict String T) (out : Map T) (j : String)
      → Distinct m
      → lookup j
          (visit m (λ k v out. (if predicate k v then set out (text k) v else out, true)) out).items
        ≡ over (kept_by (predicate j) (lookup j m)) (lookup j out.items)
  unfolding visit lookup set get_key
  filtered predicate [] out j d = refl
  filtered predicate ((k, v) ∷ m) out j d = elim (Bool-cases (k == j)) [
    | inl same ↦
        let name = (string_key.same_key_iff k j).0 same in
        let gone = subst (λ z. lookup z m ≡ none) name d.0 in
        elim (Bool-cases (predicate k v)) [
          | inl passes ↦
              let passes' = subst (λ z. predicate z v ≡ true) name passes in
              rw (same, passes, passes')
                (filtered predicate m (set out (text k) v) j d.1
                  ∙ rw (gone, lookup-insert k j v out.items, same) refl)
          | inr fails ↦
              let fails' = subst (λ z. predicate z v ≡ false) name fails in
              rw (same, fails, fails') (filtered predicate m out j d.1 ∙ rw gone refl)
        ]
    | inr other ↦ elim (Bool-cases (predicate k v)) [
      | inl passes ↦
          rw (other, passes)
            (filtered predicate m (set out (text k) v) j d.1
              ∙ rw (lookup-insert k j v out.items, other) refl)
      | inr fails ↦ rw (other, fails) (filtered predicate m out j d.1)
    ]
  ]

  transformed :
      (transform : String → T → T) (m : Dict String T) (out : Map T) (j : String)
      → Distinct m
      → lookup j (visit m (λ k v out. (set out (text k) (transform k v), true)) out).items
        ≡ over (changed_by (transform j) (lookup j m)) (lookup j out.items)
  unfolding visit lookup set get_key
  transformed transform [] out j d = refl
  transformed transform ((k, v) ∷ m) out j d = elim (Bool-cases (k == j)) [
    | inl same ↦
        let name = (string_key.same_key_iff k j).0 same in
        let gone = subst (λ z. lookup z m ≡ none) name d.0 in
        let new = subst (λ z. transform k v ≡ transform z v) name refl in
        rw same (
          transformed transform m (set out (text k) (transform k v)) j d.1
          ∙ rw (gone, lookup-insert k j (transform k v) out.items, same, new) refl)
    | inr other ↦ rw other (
        transformed transform m (set out (text k) (transform k v)) j d.1
        ∙ rw (lookup-insert k j (transform k v) out.items, other) refl)
  ]

  -- Of a map with one entry for each key: `GetMap` is a copy, `Filter` keeps exactly the entries that
  -- satisfy the predicate, and `Map` has the transformed value under each key of the map and no other.
  pub filter-map-lookup :
      (m : Map T) (predicate : String → T → Bool) (transform : String → T → T) (j : String)
      → IsValid m
      → (lookup j (get_map m) ≡ lookup j m.items)
        × (lookup j (filter m predicate).items ≡ kept_by (predicate j) (lookup j m.items))
        × (lookup j (map m transform).items ≡ changed_by (transform j) (lookup j m.items))
  unfolding get_map filter map range new_safe_map
  filter-map-lookup m predicate transform j d =
      let unique = copy-Distinct m.items [] tt in
      let same = copied m.items j d in
      (
        same,
        filtered predicate (copy m.items []) new_safe_map j unique
            ∙ unfold lookup in over-none _ ∙ rw same refl,
        transformed transform (copy m.items []) new_safe_map j unique
            ∙ unfold lookup in over-none _ ∙ rw same refl,
      )
