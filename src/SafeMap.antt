-- ===== src/SafeMap.antt =====
-- safemap/safemap.go: a map with string keys behind a lock. Every method holds the lock throughout, so
-- each is one step. The two-valued reads return none where the flag is false.
pub mod Keys
pub mod Passes
pub mod Entries
mod Tests
use d_utils.Base.{
  String, string_key, ℕ, ◌-◌, ◌%◌, ◌/◌, Bool, true, false, not, List, [], ◌∷◌, Option, none, some,
  length, if◌then◌else◌,
}
use d_utils.Base.Dict.{Dict, lookup, insert, remove, keys, values}
use Keys.{Key, get_key}

pub record Map {ℓ} (T : Type ℓ) : Type ℓ where
  pub items : Dict String T

-- Go's `for k, v := range m` with a body that may break: the body gets the variables that it captures,
-- and says whether to go on.
unfoldable pub visit {ℓ κ} :
    {T : Type ℓ} {S : Type κ} → Dict String T → (String → T → S → S × Bool) → S → S
visit [] body s = s
visit ((k, v) ∷ m) body s =
    let (s', go_on) = body k v s in let rest = visit m body s' in if go_on then rest else s'

module _ {ℓ} {T : Type ℓ} where
  unfoldable pub new_safe_map : Map T
  new_safe_map = record { items = [] }

  unfoldable pub get : Map T → Key → Option T
  get m key = lookup (get_key key) m.items

  -- `GetOrSet`: the map, and what was there before.
  unfoldable pub get_or_set : Map T → Key → T → Map T × Option T
  get_or_set m key val =
      let k = get_key key in
      elim (lookup k m.items) [
        | none ↦ (record { items = insert k val m.items }, none)
        | some v ↦ (m, some v)
      ]

  unfoldable pub get_all : Map T → List T
  get_all m = values m.items

  -- The loop of `GetMap` and of `Range`, which copies the map entry by entry.
  unfoldable pub copy : Dict String T → Dict String T → Dict String T
  copy [] out = out
  copy ((k, v) ∷ m) out = copy m (insert k v out)

  unfoldable pub get_map : Map T → Dict String T
  get_map m = copy m.items []

  unfoldable pub set : Map T → Key → T → Map T
  set m key value = record { items = insert (get_key key) value m.items }

  unfoldable pub set_map : Map T → Dict String T → Map T
  set_map m n = record { items = n }

  unfoldable pub delete : Map T → Key → Map T
  delete m key = record { items = remove (get_key key) m.items }

  unfoldable pub map_length : Map T → ℕ
  map_length m = length m.items

  unfoldable pub map_keys : Map T → List String
  map_keys m = keys m.items

  -- `Range` visits a copy, `RangeLocked` the map itself.
  unfoldable pub range {κ} : {S : Type κ} → Map T → (String → T → S → S × Bool) → S → S
  range m fn s = visit (copy m.items []) fn s

  unfoldable pub range_locked {κ} : {S : Type κ} → Map T → (String → T → S → S × Bool) → S → S
  range_locked m fn s = visit m.items fn s

  unfoldable pub filter : Map T → (String → T → Bool) → Map T
  filter m predicate =
      range m (λ k v out. (if predicate k v then set out (Key.text k) v else out, true))
        new_safe_map

  unfoldable pub map : Map T → (String → T → T) → Map T
  map m transform = range m (λ k v out. (set out (Key.text k) (transform k v), true)) new_safe_map

  unfoldable pub reduce : Map T → T → (T → String → T → T) → T
  reduce m initial reducer = range m (λ k v acc. (reducer acc k v, true)) initial
