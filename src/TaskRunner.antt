-- ===== src/TaskRunner.antt =====
-- taskrunner/taskrunner.go: `RunTasks`, which submits its tasks to a pool of workers and collects the
-- errors behind a lock. The pool is not of this repository: it runs what is submitted to it once, at
-- a time and in an order of its choice.
pub mod Schedule
pub mod Errors
pub mod Ending
mod Tests
use d_utils.Base.{ℕ, suc, ◌≡◌, String, List, [], ◌∷◌, ◌++◌, Option, none, some, length}

-- A task, with what its `Run` returns.
pub record Task (E : Type 0) : Type 0 where
  pub name : String
  pub run : Option E

-- `fmt.Errorf("%s: %w", taskCopy.Name, err)`
pub record TaskError (E : Type 0) : Type 0 where
  pub name : String
  pub err : E

-- A call of `RunTasks`: the tasks that the loop has still to submit, those whose `Run` has not yet
-- returned, the errors whose function has still to take the lock, the calls of `wg.Done` that are
-- due, the counter of `wg`, and the collected errors.
pub record Shared (E : Type 0) : Type 0 where
  pub to_submit : List (Task E)
  pub submitted : List (Task E)
  pub raised : List (TaskError E)
  pub ending : ℕ
  pub wg : ℕ
  pub errors : List (TaskError E)

module _ {E : Type 0} where
  -- Behind `wg.Add(len(tasks))`.
  abbrev pub start : List (Task E) → Shared E
  start tasks = record {
    to_submit = tasks;
    submitted = [];
    raised = [];
    ending = 0;
    wg = length tasks;
    errors = [];
  }

  abbrev pub submit : Shared E → Task E → List (Task E) → Shared E
  submit s task rest = record s { to_submit = rest; submitted = s.submitted ++ (task ∷ []) }

  abbrev pub succeed : Shared E → List (Task E) → List (Task E) → Shared E
  succeed s before after = record s { submitted = before ++ after; ending = suc s.ending }

  abbrev pub wrap : Task E → E → TaskError E
  wrap task err = record { name = task.name; err = err }

  abbrev pub raise : Shared E → Task E → E → List (Task E) → List (Task E) → Shared E
  raise s task err before after = record s {
    submitted = before ++ after;
    raised = wrap task err ∷ s.raised;
  }

  -- The append under the lock.
  abbrev pub collect : Shared E → TaskError E → List (TaskError E) → List (TaskError E) → Shared E
  collect s err before after = record s {
    raised = before ++ after;
    errors = s.errors ++ (err ∷ []);
    ending = suc s.ending;
  }

  -- `RunTasks` returns: the loop is over, and `wg.Wait` has found the counter at 0.
  abbrev pub IsDone : Shared E → Type 0
  IsDone s = (s.to_submit ≡ []) × (s.wg ≡ 0)

  -- What a run of the tasks one by one returns.
  unfoldable pub errors_of : List (Task E) → List (TaskError E)
  errors_of [] = []
  errors_of (task ∷ tasks) = elim task.run [
    | none ↦ errors_of tasks
    | some err ↦ wrap task err ∷ errors_of tasks
  ]
