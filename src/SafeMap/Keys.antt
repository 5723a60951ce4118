-- ===== src/SafeMap/Keys.antt =====
-- safemap/safemap.go: `getKey`, from a value of any type to the text under which it is stored.
use d_utils.Base.{
  ℕ, zero, suc, List, [], ◌∷◌, none, some, get_elem?, ◌%◌, ◌/◌, String, Bool, true, false, ltb,
  if◌then◌else◌,
}
use d_utils.Base.Int.{ℤ, pos, negsuc}
use Prim.Native.String.{◌++◌}

-- The value by the case of the type switch. The texts of `formatted` are what `strconv.FormatFloat`,
-- `Error` or `fmt.Sprintf` returns for the value; `text` is a string or the bytes of one.
pub data Key : Type 0 where
  no_value : Key
  text formatted : String → Key
  integer : ℤ → Key
  boolean : Bool → Key

abbrev numerals : List String
numerals = "0" ∷ "1" ∷ "2" ∷ "3" ∷ "4" ∷ "5" ∷ "6" ∷ "7" ∷ "8" ∷ "9" ∷ []

abbrev pub digit : ℕ → String
digit n = elim (get_elem? numerals n) [ none ↦ "" | some d ↦ d ]

-- The digits of a number, given at least as many rounds as it has digits.
unfoldable pub digits : ℕ → ℕ → String
digits zero n = ""
digits (suc fuel) n =
    let high = digits fuel (n / 10) in if ltb n 10 then digit n else high ++ digit (n % 10)

-- `strconv.FormatInt` and `FormatUint` to base 10: a 64-bit number has at most 20 digits.
unfoldable pub format_int : ℤ → String
format_int (pos n) = digits 20 n
format_int (negsuc n) = "-" ++ digits 20 (suc n)

unfoldable pub get_key : Key → String
get_key no_value = "nil"
get_key (text s) = s
get_key (formatted s) = s
get_key (integer n) = format_int n
get_key (boolean true) = "true"
get_key (boolean false) = "false"
