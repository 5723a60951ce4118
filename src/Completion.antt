-- ===== src/Completion.antt =====
-- completion/completion.go: a flag, and a channel that is closed when the flag is set. Channels are
-- numbered in the order in which they are made; `done` is the current one. `Complete` sets the flag by
-- a compare-and-swap outside the lock and closes the channel under it; `Reset` holds the lock, but its
-- swap of the flag and the rest are apart for a compare-and-swap that comes between.
pub mod Sequential
pub mod Schedule
mod Tests
use d_utils.Base.{ℕ, suc, Bool, true, false, ◌||◌, if◌then◌else◌, ◌==◌, nat_key}

pub record Completer : Type 0 where
  pub complete : Bool
  pub done : ℕ
  pub closed : ℕ → Bool

unfoldable pub new : Completer
new = record { complete = false; done = 0; closed = λ c. false }

-- `close(ch)`, for a channel that the caller has found open.
abbrev pub close : ℕ → (ℕ → Bool) → ℕ → Bool
close ch closed c = c == ch || closed c

-- The `select` of both methods: close the current channel unless it is closed.
unfoldable pub ensure_closed : Completer → Completer
ensure_closed c = if c.closed c.done then c else record c { closed = close c.done c.closed }

-- `c.complete.CompareAndSwap(false, true)`: the state after it, and whether it swapped.
unfoldable pub compare_and_swap : Completer → Completer × Bool
compare_and_swap c = if c.complete then (c, false) else (record c { complete = true }, true)

-- `Complete` with no other call between its two steps.
unfoldable pub complete_now : Completer → Completer
complete_now c = let (c', swapped) = compare_and_swap c in if swapped then ensure_closed c' else c'

-- The rest of `Reset` behind a swap that found the flag set: close the old channel, make a new one.
unfoldable pub renew : Completer → Completer
renew c = let c' = ensure_closed c in record c' { done = suc c'.done }

-- `Reset` with no other call between its two steps.
unfoldable pub reset : Completer → Completer
reset c = if c.complete then renew (record c { complete = false }) else c

unfoldable pub is_complete : Completer → Bool
is_complete c = c.complete
