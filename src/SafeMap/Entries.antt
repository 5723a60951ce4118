-- ===== src/SafeMap/Entries.antt =====
-- safemap/safemap.go: the methods on one key.
use d_utils.Base.{
  string_key, ◌≡◌, refl, Option, none, some, if◌then◌else◌, Bool-cases, Option-cases, inl, inr,
  ◌==◌,
}
use mathlib.Core.Path.{subst}
use d_utils.Base.Dict.{lookup, lookup-insert, lookup-remove, insert-Distinct, remove-Distinct}
use d_utils.SafeMap.{Map, get, set, delete, get_or_set}
use d_utils.SafeMap.Keys.{Key, get_key}
use d_utils.SafeMap.Passes.{IsValid}

module _ {ℓ} {T : Type ℓ} where
  -- The value that stands under a key behind `GetOrSet`.
  abbrev pub or_new : T → Option T → T
  or_new val none = val
  or_new val (some v) = v

  -- A `Get` of any value, behind a `Set`, a `Delete` or a `GetOrSet` of any value: the two meet exactly
  -- when `getKey` makes the same text of them. `GetOrSet` itself returns what was there before, which is
  -- nothing, not the new value, when it assigns one; it never replaces a value.
  pub get-written :
      (m : Map T) (key other : Key) (val : T)
      → let same = get_key key == get_key other in
        (get (set m key val) other ≡ (if same then some val else get m other))
        × (get (delete m key) other ≡ (if same then none else get m other))
        × ((get_or_set m key val).1 ≡ get m key)
        × (get (get_or_set m key val).0 other
            ≡ (if same then some (or_new val (get m key)) else get m other))
  unfolding get set delete get_or_set
  get-written m key other val = (
    lookup-insert (get_key key) (get_key other) val m.items,
    lookup-remove (get_key key) (get_key other) m.items,
    (elim (Option-cases (lookup (get_key key) m.items)) [
      | inl absent ↦ rw (absent, get_or_set) refl
      | inr (v, present) ↦ rw (present, get_or_set) refl
    ]),
    (elim (Option-cases (lookup (get_key key) m.items)) [
      | inl absent ↦
          rw (absent, get_or_set) (lookup-insert (get_key key) (get_key other) val m.items)
      | inr (v, present) ↦ elim (Bool-cases (get_key key == get_key other)) [
        | inl same ↦
            rw (present, get_or_set, same)
              (subst (λ z. lookup z m.items ≡ some v)
                ((string_key.same_key_iff (get_key key) (get_key other)).0 same) present)
        | inr apart ↦ rw (present, get_or_set, apart) refl
      ]
    ]),
  )

  -- Each write of one key keeps one entry for each key.
  pub set-IsValid :
      (m : Map T) (key : Key) (val : T)
      → IsValid m
      → IsValid (set m key val) × IsValid (delete m key) × IsValid (get_or_set m key val).0
  unfolding set delete get_or_set
  set-IsValid m key val d = (
    insert-Distinct (get_key key) val m.items d,
    remove-Distinct (get_key key) m.items d,
    (elim (Option-cases (lookup (get_key key) m.items)) [
      | inl absent ↦ rw (absent, get_or_set) (insert-Distinct (get_key key) val m.items d)
      | inr (v, present) ↦ rw (present, get_or_set) d
    ]),
  )
