-- ===== src/TaskRunner/Schedule.antt =====
-- taskrunner/taskrunner.go: the order in which the loop and the submitted functions go on.
use d_utils.Base.{ℕ, suc, ◌≡◌, List, ◌∷◌, ◌++◌, none, some}
use d_utils.TaskRunner.{Task, TaskError, Shared, submit, succeed, raise, collect}

module _ {E : Type 0} where
  -- `done` lowers the counter, which is not negative behind it: at 0, `wg.Done` would panic.
  pub data Step : Shared E → Shared E → Type 0 where
    submits :
        (s : Shared E) (task : Task E) (rest : List (Task E))
        → s.to_submit ≡ task ∷ rest
        → Step s (submit s task rest)
    succeeds :
        (s : Shared E) (task : Task E) (before after : List (Task E))
        → s.submitted ≡ before ++ (task ∷ after)
        → task.run ≡ none
        → Step s (succeed s before after)
    raises :
        (s : Shared E) (task : Task E) (err : E) (before after : List (Task E))
        → s.submitted ≡ before ++ (task ∷ after)
        → task.run ≡ some err
        → Step s (raise s task err before after)
    collects :
        (s : Shared E) (err : TaskError E) (before after : List (TaskError E))
        → s.raised ≡ before ++ (err ∷ after)
        → Step s (collect s err before after)
    done :
        (s : Shared E) (due left : ℕ)
        → s.ending ≡ suc due
        → s.wg ≡ suc left
        → Step s (record s { ending = due; wg = left })

  -- The states behind a number of steps.
  pub data Reach (s : Shared E) : ℕ → Shared E → Type 0 where
    here : Reach s 0 s
    step : {n : ℕ} {t u : Shared E} → Reach s n t → Step t u → Reach s (suc n) u
