-- ===== src/Completion/Schedule.antt =====
-- completion/completion.go: calls that overlap.
use d_utils.Base.{ℕ, suc, ◌<◌, ◌≡◌, refl, ◌⊎◌, inl, inr, Bool, true, false, arith, nat_key}
use d_utils.Completion.{Completer, new, ensure_closed, compare_and_swap, renew, is_complete}

-- The completer, how many calls of `Complete` have swapped and not yet taken the lock, and whether a
-- `Reset` holds the lock between its swap and its end.
pub record Shared : Type 0 where
  pub completer : Completer
  pub pending : ℕ
  pub resetting : Bool

pub data Step : Shared → Shared → Type 0 where
  swap_flag :
      (s : Shared)
      → s.completer.complete ≡ false
      → Step s (record s { completer = (compare_and_swap s.completer).0; pending = suc s.pending })
  close_done :
      (s : Shared) (p : ℕ)
      → s.resetting ≡ false
      → s.pending ≡ suc p
      → Step s (record s { completer = ensure_closed s.completer; pending = p })
  reset_flag :
      (s : Shared)
      → s.resetting ≡ false
      → s.completer.complete ≡ true
      → Step s
          (record s { completer = record (s.completer) { complete = false }; resetting = true })
  reset_channel :
      (s : Shared)
      → s.resetting ≡ true
      → Step s (record s { completer = renew s.completer; resetting = false })

pub data Reach (s : Shared) : Shared → Type 0 where
  here : Reach s s
  step : {t u : Shared} → Reach s t → Step t u → Reach s u

abbrev pub fresh : Shared
fresh = record { completer = new; pending = 0; resetting = false }

pub record IsConsistent (s : Shared) : Type 0 where
  pub signalled :
      s.completer.complete ≡ true
      → (0 < s.pending) ⊎ ((s.resetting ≡ false) × (s.completer.closed s.completer.done ≡ true))
  pub earlier : (ch : ℕ) → ch < s.completer.done → s.completer.closed ch ≡ true

fresh-IsConsistent : IsConsistent fresh
unfolding new
fresh-IsConsistent = record { signalled = λ e. absurd (cc); earlier = λ ch h. absurd (omega arith) }

Step-IsConsistent : {s t : Shared} → Step s t → IsConsistent s → IsConsistent t
unfolding compare_and_swap ensure_closed renew
Step-IsConsistent (swap_flag s e) i = record {
  signalled = λ _. inl (omega arith);
  earlier = λ ch h. ground (arith, i.earlier ch);
}
Step-IsConsistent (close_done s p e q) i = record {
  signalled = λ c. inr (e, ground arith);
  earlier = λ ch h. ground (arith, i.earlier ch);
}
Step-IsConsistent (reset_flag s e c) i = record {
  signalled = λ c'. absurd (cc);
  earlier = λ ch h. i.earlier ch h;
}
Step-IsConsistent (reset_channel s e) i = record {
  signalled = λ c. ground (arith, i.signalled);
  earlier = λ ch h. ground (arith, i.earlier ch);
}

-- Under every schedule of the calls on a new completer: a set flag means that a `Complete` is under
-- way or that the current channel is closed and no `Reset` is under way; and every channel before the
-- current one is closed.
pub Reach-IsConsistent : {t : Shared} → Reach fresh t → IsConsistent t
Reach-IsConsistent here = fresh-IsConsistent
Reach-IsConsistent (step r st) = Step-IsConsistent st (Reach-IsConsistent r)

-- A `Reset` that overtakes a `Complete` between its two steps leaves, with no call under way, a flag
-- that is not set beside a current channel that is closed.
pub overtaken :
    (t : Shared) × Reach fresh t
    × (t.pending ≡ 0)
    × (t.resetting ≡ false)
    × (is_complete t.completer ≡ false)
    × (t.completer.closed t.completer.done ≡ true)
unfolding new compare_and_swap ensure_closed renew is_complete
overtaken =
    let s1 : Shared = record {
      completer = record new { complete = true };
      pending = 1;
      resetting = false;
    } in
    let s2 : Shared = record { completer = new; pending = 1; resetting = true } in
    let s3 : Shared = record { completer = renew new; pending = 1; resetting = false } in
    (
      record s3 { completer = ensure_closed s3.completer; pending = 0 },
      step
          (step (step (step here (swap_flag fresh refl)) (reset_flag s1 refl refl))
            (reset_channel s2 refl))
          (close_done s3 0 refl refl),
      refl,
      refl,
      refl,
      refl,
    )
