-- ===== src/Debug/Tests.antt =====
-- debug/debug.go: a size, a stack, and a number with its commas.
use d_utils.Base.{
  ℕ, suc, ◌*◌, ◌^◌, ◌≤◌, ◌<◌, ◌≡◌, ◌↔◌, refl, true, [], ◌∷◌, ◌++◌, some, get_elem?, arith,
}
use d_utils.Base.Int.{pos}
use d_utils.Base.Outcome.{returns}
use d_utils.Base.Text.{Text, codes}
use d_utils.Base.Decimal.{digits}
use d_utils.Base.Contains.{contains}
use d_utils.Debug.Sizes.{plain, scaled, format_size, add_commas, format_size-scaled}
use d_utils.Debug.Filter.{
  FilterConfig, should_include_goroutine, dump_goroutine_stack, split_dump, print_each,
  contains_any, SomeOccurs, Passes, in_brackets, should_include_goroutine_iff,
}

format_size-scaled_example :
    (1_500_000 < 1024 → format_size 1_500_000 ≡ returns (plain 1_500_000))
    × (1024 ≤ 1_500_000
        → (exp c : ℕ) × (get_elem? (codes "KMGTPE") exp ≡ some c)
          × (format_size 1_500_000 ≡ returns (scaled 1_500_000 (1024 ^ suc exp) c))
          × (1024 ^ suc exp ≤ 1_500_000)
          × (1_500_000 < 1024 * 1024 ^ suc exp))
format_size-scaled_example = format_size-scaled 1_500_000 (omega arith)

-- The number of the leading digits is printed, and not the digits.
millions : add_commas 2 1_234_567 ≡ codes "4,567"
unfolding add_commas digits
millions = refl

abbrev sleeping : Text
sleeping = codes "goroutine 7 [sleep]"

abbrev only_sleeping : FilterConfig
only_sleeping = record {
  exclude_patterns = codes "pprof" ∷ [];
  include_patterns = [];
  min_duration = pos 60_000_000_000;
  states = codes "sleep" ∷ [];
}

should_include_goroutine_iff_example : (should_include_goroutine sleeping only_sleeping ≡ true) ↔ (
    ¬ SomeOccurs sleeping (codes "pprof" ∷ [])
    × Passes sleeping []
    × Passes sleeping (in_brackets (codes "sleep" ∷ [])))
should_include_goroutine_iff_example = should_include_goroutine_iff sleeping only_sleeping

dump_of_two :
    dump_goroutine_stack
      (sleeping ++ (b'\n' ∷ (b'\n' ∷ codes "goroutine 8 [running]")))
      only_sleeping
    ≡ sleeping ∷ []
unfolding dump_goroutine_stack split_dump print_each should_include_goroutine contains_any contains
dump_of_two = refl
