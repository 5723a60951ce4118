-- ===== src/ApiCache/Circuit/Schedule.antt =====
-- apicache/circuit.go: several goroutines on one breaker. A call of `Allow` that found the circuit open
-- and the reset timeout passed is pending until it takes the write lock; other calls may come between.
use d_utils.Base.{ℕ, suc, ◌≡◌, refl, arith}
use d_utils.Base.Int.{pos, ◌+ℤ◌, ◌≤ℤ◌, ◌<ℤ◌}
use d_utils.Base.Word.{InInt64, add64_exact}
use d_utils.Base.GoTime.{Time}
use d_utils.ApiCache.Circuit.{
  CircuitBreaker, CircuitBreakerConfig, circuit_closed, circuit_half_open, new_circuit_breaker,
  half_open, check, promote, success, failure, reset,
}

-- The breaker, and how many calls of `Allow` are between their read and their write.
pub record Shared : Type 0 where
  pub breaker : CircuitBreaker
  pub pending : ℕ

pub data Step : Shared → Shared → Type 0 where
  -- A read that decides to admit or to deny changes nothing, so it is no step.
  read_open :
      (s : Shared) (now : Time)
      → check s.breaker now ≡ half_open
      → Step s (record s { pending = suc s.pending })
  write_half_open :
      (s : Shared) (now : Time) (p : ℕ)
      → s.pending ≡ suc p
      → Step s (record { breaker = promote s.breaker now; pending = p })
  report_success : (s : Shared) (now : Time) → Step s (record s { breaker = success s.breaker now })
  report_failure : (s : Shared) (now : Time) → Step s (record s { breaker = failure s.breaker now })
  force_reset : (s : Shared) → Step s (record s { breaker = reset s.breaker })

pub data Reach (s : Shared) : Shared → Type 0 where
  here : Reach s s
  step : {t u : Shared} → Reach s t → Step t u → Reach s u

-- A closed breaker has counted fewer failures than would have opened it.
pub record IsSound (cb : CircuitBreaker) : Type 0 where
  pub limit_positive : pos 0 <ℤ cb.max_failures
  pub limit_fits : InInt64 cb.max_failures
  pub counted :
      cb.state ≡ circuit_closed → (pos 0 ≤ℤ cb.failures) × (cb.failures <ℤ cb.max_failures)

pub new_circuit_breaker-IsSound :
    (config : CircuitBreakerConfig)
    → InInt64 config.max_failures
    → IsSound (new_circuit_breaker config)
unfolding new_circuit_breaker
new_circuit_breaker-IsSound config h = ground arith

success-IsSound : (cb : CircuitBreaker) (now : Time) → IsSound cb → IsSound (success cb now)
unfolding success
success-IsSound cb now i = ground arith

failure-IsSound : (cb : CircuitBreaker) (now : Time) → IsSound cb → IsSound (failure cb now)
unfolding failure ◌+ℤ◌
failure-IsSound cb now i = ground (arith, add64_exact cb.failures (pos 1))

reset-IsSound : (cb : CircuitBreaker) → IsSound cb → IsSound (reset cb)
unfolding reset
reset-IsSound cb i = ground arith

promote-IsSound : (cb : CircuitBreaker) (now : Time) → IsSound cb → IsSound (promote cb now)
unfolding promote
promote-IsSound cb now i = ground arith

Step-IsSound : {s t : Shared} → Step s t → IsSound s.breaker → IsSound t.breaker
Step-IsSound (read_open s now h) i = i
Step-IsSound (write_half_open s now p h) i = promote-IsSound s.breaker now i
Step-IsSound (report_success s now) i = success-IsSound s.breaker now i
Step-IsSound (report_failure s now) i = failure-IsSound s.breaker now i
Step-IsSound (force_reset s) i = reset-IsSound s.breaker i

-- Under every schedule of the calls, from a breaker for which it holds: `max_failures` is positive,
-- and a closed breaker has counted at least 0 and fewer than `max_failures` failures.
pub Reach-IsSound : {s t : Shared} → IsSound s.breaker → Reach s t → IsSound t.breaker
Reach-IsSound i here = i
Reach-IsSound i (step r st) = Step-IsSound st (Reach-IsSound i r)

-- Let a breaker be open with its reset timeout passed. Two calls of `Allow` that both find it so can
-- end with a half-open breaker, no failure counted and no call under way, although it was closed
-- before the end: the first turns it half-open, a success closes it, and the second does not look
-- again.
pub late_promotion :
    (cb : CircuitBreaker) (now : Time)
    → check cb now ≡ half_open
    → (before after : Shared) × Reach (record { breaker = cb; pending = 0 }) before
      × (before.breaker.state ≡ circuit_closed)
      × Reach before after
      × (after.breaker.state ≡ circuit_half_open)
      × (after.breaker.failures ≡ pos 0)
      × (after.pending ≡ 0)
unfolding promote success
late_promotion cb now h = (
  record { breaker = success (promote cb now) now; pending = 1 },
  record { breaker = promote (success (promote cb now) now) now; pending = 0 },
  step
      (step (step (step here (read_open _ now h)) (read_open _ now h))
        (write_half_open (record { breaker = cb; pending = 2 }) now 1 refl))
      (report_success (record { breaker = promote cb now; pending = 1 }) now),
  refl,
  step here (write_half_open _ now 0 refl),
  refl,
  refl,
  refl,
)
