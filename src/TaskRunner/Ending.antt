-- ===== src/TaskRunner/Ending.antt =====
-- taskrunner/taskrunner.go: `RunTasks` comes to its end.
use d_utils.Base.{
  ℕ, zero, suc, ◌+◌, ◌*◌, ◌≤◌, ◌≡◌, refl, ap, ◌∙◌, ◌⊎◌, inl, inr, List, [], ◌∷◌, Option-cases,
  List-cases, length, length-append, arith,
}
use d_utils.TaskRunner.{Task, Shared, start, IsDone}
use d_utils.TaskRunner.Schedule.{Step, submits, succeeds, raises, collects, done, Reach, here, step}
use d_utils.TaskRunner.Errors.{length_middle, Reach-IsAccounted}

module _ {E : Type 0} where
  -- A task is submitted, fails, is collected and done in four steps at most.
  abbrev steps_left : Shared E → ℕ
  steps_left s =
      4 * length s.to_submit + (3 * length s.submitted + (2 * length s.raised + s.ending))

  Step-steps_left : {s t : Shared E} → Step s t → suc (steps_left t) ≤ steps_left s
  Step-steps_left (submits s task rest e) =
      omega (arith, ap length e, length-append s.submitted (task ∷ []))
  Step-steps_left (succeeds s task before after e fine) =
      omega (arith, ap length e, length_middle task before after)
  Step-steps_left (raises s task err before after e bad) =
      omega (arith, ap length e, length_middle task before after)
  Step-steps_left (collects s err before after e) =
      omega (arith, ap length e, length_middle err before after)
  Step-steps_left (done s due left e f) = omega (arith, e)

  Reach-steps_left :
      (tasks : List (Task E)) {n : ℕ} {s : Shared E}
      → Reach (start tasks) n s
      → n + steps_left s ≤ 4 * length tasks
  Reach-steps_left tasks here = omega arith
  Reach-steps_left tasks (step r st) = omega (arith, Reach-steps_left tasks r, Step-steps_left st)

  goes_on :
      (s : Shared E)
      → s.wg ≡ length s.to_submit + (length s.submitted + (length s.raised + s.ending))
      → IsDone s ⊎ ((t : Shared E) × Step s t)
  goes_on s counted = elim (List-cases s.to_submit) [
    | inr (task, rest, e) ↦ inr (_, submits s task rest e)
    | inl all_submitted ↦ elim (List-cases s.submitted) [
      | inr (task, rest, e) ↦ elim (Option-cases task.run) [
        | inl fine ↦ inr (_, succeeds s task [] rest e fine)
        | inr (err, bad) ↦ inr (_, raises s task err [] rest e bad)
      ]
      | inl none_runs ↦ elim (List-cases s.raised) [
        | inr (err, rest, e) ↦ inr (_, collects s err [] rest e)
        | inl none_raised ↦
            let due : s.wg ≡ s.ending = omega (
              arith,
              counted,
              ap length all_submitted,
              ap length none_runs,
              ap length none_raised,
            ) in
            finish s.ending refl due all_submitted
      ]
    ]
  ]
    where
      finish :
          (n : ℕ)
          → s.ending ≡ n
          → s.wg ≡ s.ending
          → s.to_submit ≡ []
          → IsDone s ⊎ ((t : Shared E) × Step s t)
      finish zero e due all_submitted = inl (all_submitted, due ∙ e)
      finish (suc n) e due all_submitted = inr (_, done s n n e (due ∙ e))

  -- Under every schedule `RunTasks` ends: it makes four steps for each task at most, and until it
  -- returns there is a step that can be made. A `wg.Done` that is due never makes the counter
  -- negative, which would panic.
  pub Reach-ends :
      (tasks : List (Task E)) {n : ℕ} {s : Shared E}
      → Reach (start tasks) n s
      → (n ≤ 4 * length tasks) × (s.ending ≤ s.wg) × (IsDone s ⊎ ((t : Shared E) × Step s t))
  Reach-ends tasks {n} {s} r =
      let counted = (Reach-IsAccounted tasks r).counted in
      (omega (arith, Reach-steps_left tasks r), omega (arith, counted), goes_on s counted)
