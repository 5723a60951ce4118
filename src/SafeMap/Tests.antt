-- ===== src/SafeMap/Tests.antt =====
-- safemap/safemap.go: runs on a small map, and the theorems at it.
use d_utils.Base.{ℕ, ◌+◌, string_key, ◌≡◌, refl, [], ◌∷◌, none, some}
use d_utils.Base.Int.{negsuc}
use d_utils.Base.Dict.{lookup, insert}
use d_utils.SafeMap.{Map, get, set, delete, get_or_set, reduce, range, visit, copy}
use d_utils.SafeMap.Keys.{text, integer, get_key, format_int, digits}
use d_utils.SafeMap.Entries.{get-written}

abbrev ages : Map ℕ
ages = record { items = ("ann", 30) ∷ ("-41", 7) ∷ [] }

minus_41 : get ages (integer (negsuc 40)) ≡ some 7
unfolding get get_key format_int digits lookup
minus_41 = refl

total : reduce ages 0 (λ acc k v. acc + v) ≡ 37
unfolding reduce range visit copy insert
total = refl

get-written_example :
    (get (set ages (integer (negsuc 40)) 8) (text "-41") ≡ some 8)
    × (get (delete ages (integer (negsuc 40))) (text "-41") ≡ none)
    × ((get_or_set ages (integer (negsuc 40)) 8).1 ≡ some 7)
    × (get (get_or_set ages (integer (negsuc 40)) 8).0 (text "-41") ≡ some 7)
unfolding get get_key format_int digits lookup
get-written_example = get-written ages (integer (negsuc 40)) (text "-41") 8
