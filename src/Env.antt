-- ===== src/Env.antt =====
-- env/env.go: values from the environment, from the file that a variable names, or from a secrets
-- file. Texts are lists of code points.
pub mod Values
mod Tests
use d_utils.Base.{
  Bool, ◌||◌, ◌&&◌, List, [], ◌∷◌, ◌++◌, Option, none, some, leb, nat_eqb, if◌then◌else◌, ℕ,
}
use d_utils.Base.Int.{ℤ, pos}
use d_utils.Base.Text.{Text, codes, split, trim_space}
use d_utils.Base.Decimal.{parse_int}

-- What is found under `filepath.Join("/run/secrets", key)`: nothing that `fileExists` takes for a
-- file, or what `os.ReadFile` returns.
pub data Secret : Type 0 where
  missing unreadable : Secret
  content : Text → Secret

-- `os.Getenv`, `os.ReadFile` (none is an error) and the secrets.
pub record Machine : Type 0 where
  pub getenv : Text → Text
  pub read_file : Text → Option Text
  pub secret : Text → Secret

-- The value, if it is not empty.
abbrev pub or_else : Text → Text → Text
or_else [] later = later
or_else (c ∷ s) later = c ∷ s

-- The last part of `GetEnv`.
abbrev pub from_secret : Secret → Text → Text
from_secret missing default = default
from_secret unreadable default = default
from_secret (content s) default = or_else (trim_space s) default

-- `GetEnv`; `default` is the empty text where the caller gives none.
unfoldable pub get_env : Machine → Text → Text → Text
get_env m key default = or_else (m.getenv key) (elim (m.getenv (key ++ codes "_FILE")) [
  | [] ↦ from_secret (m.secret key) default
  | c ∷ path ↦ elim (m.read_file (c ∷ path)) [
    | none ↦ default
    | some s ↦ or_else (trim_space s) (from_secret (m.secret key) default)
  ]
])

abbrev pub or_zero : Option ℤ → ℤ
or_zero none = pos 0
or_zero (some n) = n

-- `GetEnvInt64` and `GetEnvInt`, as `int` has 64 bits.
unfoldable pub get_env_int64 : Machine → Text → Option ℤ → ℤ
get_env_int64 m key default = elim (get_env m key []) [
  | [] ↦ or_zero default
  | c ∷ s ↦ elim (parse_int (c ∷ s)) [ none ↦ or_zero default | some n ↦ n ]
]

-- The loop of `GetEnvInt64Slice`.
unfoldable pub parse_each : List Text → List ℤ
parse_each [] = []
parse_each (part ∷ parts) = elim (parse_int part) [
  | none ↦ parse_each parts
  | some n ↦ n ∷ parse_each parts
]

unfoldable pub get_env_int64_slice : Machine → Text → List ℤ → List ℤ
get_env_int64_slice m key default = elim (get_env m key []) [
  | [] ↦ default
  | c ∷ s ↦ parse_each (split b',' (c ∷ s))
]
