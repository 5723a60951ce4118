-- ===== src/Completion/Sequential.antt =====
-- completion/completion.go: calls that do not overlap.
use d_utils.Base.{ℕ, suc, ◌<◌, ◌≡◌, refl, true, false, List, [], ◌∷◌, arith, nat_key}
use d_utils.Completion.{Completer, new, ensure_closed, compare_and_swap, complete_now, renew, reset}

-- The current channel is closed exactly when the flag is set, every earlier one is closed, and no later
-- one is.
pub record IsValid (c : Completer) : Type 0 where
  pub current : c.closed c.done ≡ c.complete
  pub earlier : (ch : ℕ) → ch < c.done → c.closed ch ≡ true
  pub later : (ch : ℕ) → c.done < ch → c.closed ch ≡ false

pub new-IsValid : IsValid new
unfolding new
new-IsValid = record {
  current = refl;
  earlier = λ ch h. absurd (omega arith);
  later = λ ch h. refl;
}

pub complete_now-IsValid : (c : Completer) → IsValid c → IsValid (complete_now c)
unfolding complete_now compare_and_swap ensure_closed
complete_now-IsValid c v = record {
  current = ground (arith, v.current);
  earlier = λ ch h. ground (arith, v.earlier ch);
  later = λ ch h. ground (arith, v.later ch);
}

pub reset-IsValid : (c : Completer) → IsValid c → IsValid (reset c)
unfolding reset renew ensure_closed
reset-IsValid c v = record {
  current = ground (arith, v.current, v.later (suc c.done));
  earlier = λ ch h. ground (arith, v.earlier ch, v.current);
  later = λ ch h. ground (arith, v.later ch);
}

-- The calls of a caller, in a row.
pub data Call : Type 0 where
  complete_call reset_call : Call

unfoldable pub run : Completer → List Call → Completer
run c [] = c
run c (complete_call ∷ calls) = run (complete_now c) calls
run c (reset_call ∷ calls) = run (reset c) calls

-- Calls that do not overlap, from a completer for which it holds: the current channel is closed
-- exactly when the flag is set, every earlier one is closed, and no later one is.
pub run-IsValid : (c : Completer) (calls : List Call) → IsValid c → IsValid (run c calls)
unfolding run
run-IsValid c [] v = v
run-IsValid c (complete_call ∷ calls) v =
    run-IsValid (complete_now c) calls (complete_now-IsValid c v)
run-IsValid c (reset_call ∷ calls) v = run-IsValid (reset c) calls (reset-IsValid c v)
