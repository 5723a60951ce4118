-- ===== src/TaskRunner/Tests.antt =====
-- taskrunner/taskrunner.go: a run of two tasks, of which the second, which fails, is the first to end.
use d_utils.Base.{ℕ, ◌≤◌, ◌≡◌, refl, ◌⊎◌, List, [], ◌∷◌, none, some}
use mathlib.Core.List.{Perm}
use d_utils.TaskRunner.{
  Task, Shared, start, submit, succeed, raise, wrap, collect, IsDone, errors_of,
}
use d_utils.TaskRunner.Schedule.{Step, submits, succeeds, raises, collects, done, Reach, here, step}
use d_utils.TaskRunner.Errors.{Reach-errors_of}
use d_utils.TaskRunner.Ending.{Reach-ends}

abbrev fine : Task ℕ
fine = record { name = "fine"; run = none }

abbrev broken : Task ℕ
broken = record { name = "broken"; run = some 7 }

abbrev both : List (Task ℕ)
both = fine ∷ (broken ∷ [])

abbrev s2 : Shared ℕ
s2 = submit (submit (start both) fine (broken ∷ [])) broken []

abbrev s3 : Shared ℕ
s3 = raise s2 broken 7 (fine ∷ []) []

abbrev s4 : Shared ℕ
s4 = collect s3 (wrap broken 7) [] []

abbrev s5 : Shared ℕ
s5 = succeed s4 [] []

abbrev s7 : Shared ℕ
s7 = record s5 { ending = 0; wg = 0 }

run_both : Reach (start both) 7 s7
run_both =
    step
      (step
        (step
          (step
            (step (step (step here (submits _ fine (broken ∷ []) refl)) (submits _ broken [] refl))
              (raises _ broken 7 (fine ∷ []) [] refl refl))
            (collects _ (wrap broken 7) [] [] refl))
          (succeeds _ fine [] [] refl refl))
        (done _ 1 1 refl refl))
      (done _ 0 0 refl refl)

one_by_one : errors_of both ≡ wrap broken 7 ∷ []
unfolding errors_of
one_by_one = refl

Reach-errors_of_example : (s7.submitted ≡ []) × (s7.raised ≡ []) × Perm s7.errors (errors_of both)
Reach-errors_of_example = Reach-errors_of both run_both (refl, refl)

Reach-ends_example : (7 ≤ 8) × (0 ≤ 0) × (IsDone s7 ⊎ ((t : Shared ℕ) × Step s7 t))
Reach-ends_example = Reach-ends both run_both
