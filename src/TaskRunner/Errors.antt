-- ===== src/TaskRunner/Errors.antt =====
-- taskrunner/taskrunner.go: what `RunTasks` returns.
use d_utils.Base.{
  ℕ, suc, ◌+◌, ◌≡◌, refl, sym, ap, ◌∙◌, List, [], ◌∷◌, ◌++◌, none, some, length, length-append,
  append_assoc, append-nil, arith,
}
use mathlib.Core.List.{Perm, perm_middle}
use mathlib.Core.List.Perm
use d_utils.TaskRunner.{
  Task, TaskError, Shared, start, submit, succeed, raise, wrap, collect, IsDone, errors_of,
}
use d_utils.TaskRunner.Schedule.{Step, submits, succeeds, raises, collects, done, Reach, here, step}

pub length_middle :
    {A : Type 0} (x : A) (xs ys : List A) → length (xs ++ (x ∷ ys)) ≡ suc (length (xs ++ ys))
length_middle x xs ys = omega (arith, length-append xs (x ∷ ys), length-append xs ys)

module _ {E : Type 0} where
  errors_of-append : (xs ys : List (Task E)) → errors_of (xs ++ ys) ≡ errors_of xs ++ errors_of ys
  unfolding errors_of
  errors_of-append [] ys = refl
  errors_of-append (x ∷ xs) ys = ground (arith, errors_of-append xs ys)

  -- The errors that are collected, or will be.
  abbrev pending : Shared E → List (TaskError E)
  pending s = s.errors ++ (s.raised ++ (errors_of s.submitted ++ errors_of s.to_submit))

  pub record IsAccounted (tasks : List (Task E)) (s : Shared E) : Type 0 where
    pub counted : s.wg ≡ length s.to_submit + (length s.submitted + (length s.raised + s.ending))
    pub kept : Perm (pending s) (errors_of tasks)

  start-IsAccounted : (tasks : List (Task E)) → IsAccounted tasks (start tasks)
  unfolding errors_of
  start-IsAccounted tasks = record { counted = omega arith; kept = Perm.refl _ }

  -- The errors of a list from whose middle a task is taken.
  errors_of_middle :
      (task : Task E) (xs ys : List (Task E))
      → errors_of (xs ++ (task ∷ ys))
        ≡ errors_of xs
          ++ elim task.run [ none ↦ errors_of ys | some err ↦ wrap task err ∷ errors_of ys ]
  errors_of_middle task xs ys = errors_of-append xs (task ∷ ys) ∙ (unfold errors_of in refl)

  submit-pending :
      (s : Shared E) (task : Task E) (rest : List (Task E))
      → s.to_submit ≡ task ∷ rest
      → pending (submit s task rest) ≡ pending s
  submit-pending s task rest e =
      ap (λ es. s.errors ++ (s.raised ++ es))
        (ap (λ es. es ++ errors_of rest) (errors_of-append s.submitted (task ∷ []))
          ∙ append_assoc (errors_of s.submitted) (errors_of (task ∷ [])) (errors_of rest)
          ∙ ap (λ es. errors_of s.submitted ++ es)
              (sym (errors_of-append (task ∷ []) rest) ∙ ap errors_of (sym e)))

  succeed-pending :
      (s : Shared E) (task : Task E) (before after : List (Task E))
      → s.submitted ≡ before ++ (task ∷ after)
      → task.run ≡ none
      → pending (succeed s before after) ≡ pending s
  succeed-pending s task before after e fine =
      ap (λ es. s.errors ++ (s.raised ++ (es ++ errors_of s.to_submit)))
        (errors_of-append before after
          ∙ sym (rw (e, errors_of_middle task before after, fine) refl))

  raise-pending :
      (s : Shared E) (task : Task E) (err : E) (before after : List (Task E))
      → s.submitted ≡ before ++ (task ∷ after)
      → task.run ≡ some err
      → Perm (pending (raise s task err before after)) (pending s)
  raise-pending s task err before after e bad =
      rw (e, errors_of_middle task before after, bad, errors_of-append before after)
        (Perm.append_left s.errors (
          Perm.trans
            (Perm.symm (
              perm_middle s.raised
                ((errors_of before ++ errors_of after) ++ errors_of s.to_submit)))
            (Perm.append_left s.raised (
              Perm.append_right (errors_of s.to_submit)
                (Perm.symm (perm_middle (errors_of before) (errors_of after)))))))

  collect-pending :
      (s : Shared E) (err : TaskError E) (before after : List (TaskError E))
      → s.raised ≡ before ++ (err ∷ after)
      → Perm (pending (collect s err before after)) (pending s)
  collect-pending s err before after e =
      let rest = errors_of s.submitted ++ errors_of s.to_submit in
      rw (e, append_assoc s.errors (err ∷ []) ((before ++ after) ++ rest))
        (Perm.append_left s.errors (Perm.append_right rest (Perm.symm (perm_middle before after))))

  Step-IsAccounted :
      (tasks : List (Task E)) {s t : Shared E}
      → Step s t
      → IsAccounted tasks s
      → IsAccounted tasks t
  Step-IsAccounted tasks (submits s task rest e) i = record {
    counted = omega (arith, i.counted, ap length e, length-append s.submitted (task ∷ []));
    kept = rw (submit-pending s task rest e) i.kept;
  }
  Step-IsAccounted tasks (succeeds s task before after e fine) i = record {
    counted = omega (arith, i.counted, ap length e, length_middle task before after);
    kept = rw (succeed-pending s task before after e fine) i.kept;
  }
  Step-IsAccounted tasks (raises s task err before after e bad) i = record {
    counted = omega (arith, i.counted, ap length e, length_middle task before after);
    kept = Perm.trans (raise-pending s task err before after e bad) i.kept;
  }
  Step-IsAccounted tasks (collects s err before after e) i = record {
    counted = omega (arith, i.counted, ap length e, length_middle err before after);
    kept = Perm.trans (collect-pending s err before after e) i.kept;
  }
  Step-IsAccounted tasks (done s due left e f) i = record {
    counted = omega (arith, e, f, i.counted);
    kept = i.kept;
  }

  pub Reach-IsAccounted :
      (tasks : List (Task E)) {n : ℕ} {s : Shared E} → Reach (start tasks) n s → IsAccounted tasks s
  Reach-IsAccounted tasks here = start-IsAccounted tasks
  Reach-IsAccounted tasks (step r st) = Step-IsAccounted tasks st (Reach-IsAccounted tasks r)

  nothing_left :
      (tasks : List (Task E)) (s : Shared E)
      → IsDone s
      → IsAccounted tasks s
      → (s.submitted ≡ []) × (s.raised ≡ [])
  nothing_left tasks s d i = (
    empty s.submitted (omega (arith, i.counted, d.1)),
    empty s.raised (omega (arith, i.counted, d.1)),
  )
    where
      empty : {A : Type 0} (xs : List A) → length xs ≡ 0 → xs ≡ []
      empty [] h = refl
      empty (x ∷ xs) h = absurd (omega arith)

  -- Whatever order the pool and the lock put the tasks in, when `RunTasks` returns it has waited for
  -- every task, and it returns the errors of a run of the tasks one by one, each under the name of its
  -- task, in some order.
  pub Reach-errors_of :
      (tasks : List (Task E)) {n : ℕ} {s : Shared E}
      → Reach (start tasks) n s
      → IsDone s
      → (s.submitted ≡ []) × (s.raised ≡ []) × Perm s.errors (errors_of tasks)
  Reach-errors_of tasks {n} {s} r d =
      let i = Reach-IsAccounted tasks r in
      let (none_runs, none_raised) = nothing_left tasks s d i in
      (
        none_runs,
        none_raised,
        unfold errors_of in rw (none_runs, none_raised, d.0, append-nil s.errors) at i.kept,
      )
