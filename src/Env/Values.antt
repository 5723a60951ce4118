-- ===== src/Env/Values.antt =====
-- env/env.go: numbers that are written into the environment.
use d_utils.Base.{◌≡◌, refl, sym, ap, ◌∙◌, List, [], ◌∷◌, ◌++◌, All, some, Option, ℕ}
use mathlib.Core.Path.{subst}
use d_utils.Base.Int.{ℤ}
use d_utils.Base.Word.{InInt64}
use d_utils.Base.Text.{trim_space, Text, codes, split, split-append, split_one}
use d_utils.Base.Decimal.{
  format_int, parse_int, parse_int-format_int, format_int-Lacks_comma, format_int_cons,
}
use d_utils.Env.{Machine, content, get_env, get_env_int64, get_env_int64_slice, parse_each}

-- The numbers with commas between them.
abbrev pub joined : ℤ → List ℤ → Text
joined n [] = format_int n
joined n (m ∷ ms) = format_int n ++ (b',' ∷ joined m ms)

parse_each_cons :
    (n : ℤ) (parts : List Text)
    → InInt64 n
    → parse_each (format_int n ∷ parts) ≡ n ∷ parse_each parts
unfolding parse_each
parse_each_cons n parts h = rw (parse_each, parse_int-format_int n h) refl

parse_each-split :
    (n : ℤ) (ns : List ℤ) → All InInt64 (n ∷ ns) → parse_each (split b',' (joined n ns)) ≡ n ∷ ns
parse_each-split n [] h =
    rw (split_one b',' (format_int n) (format_int-Lacks_comma n))
      (parse_each_cons n [] h.0 ∙ (unfold parse_each in refl))
parse_each-split n (m ∷ ms) h =
    rw (split-append b',' (format_int n) (joined m ms) (format_int-Lacks_comma n))
      (parse_each_cons n _ h.0 ∙ ap (λ (r : List ℤ). n ∷ r) (parse_each-split m ms h.1))

joined_cons : (n : ℤ) (ns : List ℤ) → (c : ℕ) × (s : Text) × (joined n ns ≡ c ∷ s)
joined_cons n [] = format_int_cons n
joined_cons n (m ∷ ms) =
    let (c, s, e) = format_int_cons n in
    (c, s ++ (b',' ∷ joined m ms), ap (λ (t : Text). t ++ (b',' ∷ joined m ms)) e)

-- The text stands in the variable, or, with or without space around it, in the file that the second
-- variable names, or, where neither variable is set, in the secrets file.
pub data Supplies (m : Machine) (key s : Text) : Type 0 where
  by_variable : m.getenv key ≡ s → Supplies m key s
  by_file :
      (c : ℕ) (path text : Text)
      → m.getenv key ≡ []
      → m.getenv (key ++ codes "_FILE") ≡ c ∷ path
      → m.read_file (c ∷ path) ≡ some text
      → trim_space text ≡ s
      → Supplies m key s
  by_secret :
      (text : Text)
      → m.getenv key ≡ []
      → m.getenv (key ++ codes "_FILE") ≡ []
      → m.secret key ≡ content text
      → trim_space text ≡ s
      → Supplies m key s

get_env_supplied :
    (m : Machine) (key default : Text) (c : ℕ) (s : Text)
    → Supplies m key (c ∷ s)
    → get_env m key default ≡ c ∷ s
unfolding get_env
get_env_supplied m key default c s (by_variable e) = rw (get_env, e) refl
get_env_supplied m key default c s (by_file d path text unset named read e) =
    rw (get_env, unset, named, read, e) refl
get_env_supplied m key default c s (by_secret text unset unnamed found e) =
    rw (get_env, unset, unnamed, found, e) refl

-- Numbers of 64 bits that stand, with commas between them, in a variable, in the file that it names or
-- in the secrets file, with or without space around them in the files, are read back by
-- `GetEnvInt64Slice`, whatever its default is, and a single one is read back by `GetEnvInt64`.
pub get_env_int64_slice-joined :
    (m : Machine) (key : Text) (n : ℤ) (ns default : List ℤ) (other : Option ℤ)
    → All InInt64 (n ∷ ns)
    → Supplies m key (joined n ns)
    → (get_env_int64_slice m key default ≡ n ∷ ns) × (ns ≡ [] → get_env_int64 m key other ≡ n)
unfolding get_env_int64_slice get_env_int64
get_env_int64_slice-joined m key n ns default other h there =
    let (c, s, cons) = joined_cons n ns in
    let found = get_env_supplied m key [] c s (subst (λ t. Supplies m key t) cons there) in
    (
      rw (get_env_int64_slice, found) (rw cons at (parse_each-split n ns h)),
      λ single.
          let read : parse_int (c ∷ s) ≡ some n =
            ap parse_int (sym cons ∙ ap (joined n) single) ∙ parse_int-format_int n h.0 in
          rw (get_env_int64, found, read) refl,
    )
