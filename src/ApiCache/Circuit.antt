-- ===== src/ApiCache/Circuit.antt =====
-- apicache/circuit.go: the circuit breaker. A method that holds the lock throughout is one function
-- from the state; `Allow` gives its read lock up before it takes the write lock, so it is a read
-- (`check`), and, if that says so, a later write (`promote`). `time.Now()` is an argument.
pub mod Counting
pub mod Schedule
pub mod HalfOpen
use d_utils.Base.{ℕ, ◌*◌, Bool, true, false, if◌then◌else◌}
use d_utils.Base.Int.{ℤ, pos, ltb_ℤ, leb_ℤ}
use d_utils.Base.Word.{add64}
use d_utils.Base.GoTime.{Time, Duration, sub, second}

-- `CircuitClosed`, `CircuitOpen`, `CircuitHalfOpen`
pub data CircuitBreakerState : Type 0 where
  circuit_closed circuit_open circuit_half_open : CircuitBreakerState

pub record CircuitBreakerConfig : Type 0 where
  pub max_failures : ℤ
  pub reset_timeout : Duration
  pub half_open_timeout : Duration

pub record CircuitBreaker : Type 0 where
  pub state : CircuitBreakerState
  pub failures : ℤ
  pub last_failure : Time
  pub last_success : Time
  pub half_open_attempt : Time
  pub max_failures : ℤ
  pub reset_timeout : Duration
  pub half_open_timeout : Duration

-- A field that is not positive takes its default.
abbrev pub or_default : ℤ → ℤ → ℤ
or_default d x = if leb_ℤ x (pos 0) then d else x

unfoldable pub new_circuit_breaker : CircuitBreakerConfig → CircuitBreaker
new_circuit_breaker config = record {
  state = circuit_closed;
  failures = pos 0;
  last_failure = pos 0;
  last_success = pos 0;
  half_open_attempt = pos 0;
  max_failures = or_default (pos 5) config.max_failures;
  reset_timeout = or_default (pos (10 * second)) config.reset_timeout;
  half_open_timeout = or_default (pos (30 * second)) config.half_open_timeout;
}

-- `time.Since(t) > d`
abbrev pub elapsed : Time → Time → Duration → Bool
elapsed now t d = ltb_ℤ d (sub now t)

-- What `Allow` decides under its read lock.
pub data Verdict : Type 0 where
  admit deny half_open : Verdict

abbrev decide_by : CircuitBreakerState → CircuitBreaker → Time → Verdict
decide_by circuit_closed cb now = admit
decide_by circuit_open cb now =
    if elapsed now cb.last_failure cb.reset_timeout then half_open else deny
decide_by circuit_half_open cb now =
    if elapsed now cb.half_open_attempt cb.half_open_timeout then admit else deny

unfoldable pub check : CircuitBreaker → Time → Verdict
check cb now = decide_by cb.state cb now

-- The write of `Allow`, between `Lock` and `Unlock`; it does not look at the state again.
unfoldable pub promote : CircuitBreaker → Time → CircuitBreaker
promote cb now = record cb { state = circuit_half_open; half_open_attempt = now }

-- `Allow` with no other call between its read and its write, which happen at `now` and `later`.
unfoldable pub allow : CircuitBreaker → Time → Time → CircuitBreaker × Bool
allow cb now later = elim (check cb now) [
  | admit ↦ (cb, true)
  | deny ↦ (cb, false)
  | half_open ↦ (promote cb later, true)
]

-- `if cb.state == CircuitHalfOpen { cb.state = CircuitClosed }`
abbrev pub recovered : CircuitBreakerState → CircuitBreakerState
recovered circuit_half_open = circuit_closed
recovered s = s

unfoldable pub success : CircuitBreaker → Time → CircuitBreaker
success cb now = record cb { failures = pos 0; last_success = now; state = recovered cb.state }

unfoldable pub failure : CircuitBreaker → Time → CircuitBreaker
failure cb now =
    let count = add64 cb.failures (pos 1) in
    record cb {
      failures = count;
      last_failure = now;
      state = if leb_ℤ cb.max_failures count then circuit_open else cb.state;
    }

unfoldable pub reset : CircuitBreaker → CircuitBreaker
reset cb = record cb { state = circuit_closed; failures = pos 0 }
