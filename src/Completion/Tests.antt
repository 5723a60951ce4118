-- ===== src/Completion/Tests.antt =====
-- completion/completion.go: runs of a completer, and the theorems at them.
use d_utils.Base.{◌≡◌, refl, true, false, [], ◌∷◌}
use d_utils.Completion.{
  new, compare_and_swap, complete_now, ensure_closed, renew, reset, is_complete,
}
use d_utils.Completion.Sequential.{complete_call, reset_call, run}
use d_utils.Completion.Schedule.{
  fresh, here, step, swap_flag, close_done, IsConsistent, Reach-IsConsistent,
}

completes : is_complete (run new (complete_call ∷ reset_call ∷ complete_call ∷ [])) ≡ true
unfolding is_complete run new complete_now compare_and_swap ensure_closed reset renew
completes = refl

unset : fresh.completer.complete ≡ false
unfolding new
unset = refl

Reach-IsConsistent_example :
    IsConsistent (record {
      completer = ensure_closed (compare_and_swap new).0;
      pending = 0;
      resetting = false;
    })
Reach-IsConsistent_example =
    Reach-IsConsistent (step (step here (swap_flag fresh unset)) (close_done _ 0 refl refl))
