-- ===== src/Env/Tests.antt =====
-- env/env.go: a variable that names a file of two numbers.
use d_utils.Base.{◌≡◌, refl, [], ◌∷◌, ◌++◌, none, some, if◌then◌else◌, arith}
use d_utils.Base.Int.{pos, negsuc}
use d_utils.Base.Text.{trim_left, trim_right, text_eqb, codes}
use d_utils.Base.Decimal.{format_int, digits}
use d_utils.Env.{Machine, missing, get_env_int64, get_env_int64_slice}
use d_utils.Env.Values.{by_file, get_env_int64_slice-joined}

-- The file ends in a line break.
abbrev with_file : Machine
with_file = record {
  getenv = λ key. if text_eqb key (codes "IDS_FILE") then codes "/ids" else [];
  read_file = λ path. some (codes "17,-4" ++ (b'\n' ∷ []));
  secret = λ key. missing;
}

get_env_int64_slice-joined_example :
    (get_env_int64_slice with_file (codes "IDS") [] ≡ pos 17 ∷ (negsuc 3 ∷ []))
    × (negsuc 3 ∷ [] ≡ [] → get_env_int64 with_file (codes "IDS") none ≡ pos 17)
get_env_int64_slice-joined_example =
    get_env_int64_slice-joined with_file (codes "IDS") (pos 17) (negsuc 3 ∷ []) [] none
      ((omega arith), ((omega arith), tt))
      (by_file b'/' (codes "ids") (codes "17,-4" ++ (b'\n' ∷ [])) refl refl refl
        (unfold format_int digits trim_left trim_right in refl))
