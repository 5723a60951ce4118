-- ===== src/ApiCache/Circuit/HalfOpen.antt =====
-- apicache/circuit.go: what `Allow` answers in each state, and the half-open state.
use d_utils.Base.{◌≡◌, refl, Bool, true, false, List, [], ◌∷◌, arith, if◌then◌else◌, All}
use d_utils.Base.GoTime.{Time}
use d_utils.ApiCache.Circuit.{
  CircuitBreaker, circuit_closed, circuit_open, circuit_half_open, elapsed, check, promote, allow,
}

-- A closed breaker admits; an open one admits exactly when the reset timeout has passed since the last
-- failure, and is half-open from then on; a half-open one admits exactly when the half-open timeout has
-- passed since it was entered. Nothing else changes.
pub allow_lem :
    (cb : CircuitBreaker) (now later : Time)
    → allow cb now later ≡ (elim cb.state [
      | circuit_closed ↦ (cb, true)
      | circuit_open ↦
          if elapsed now cb.last_failure cb.reset_timeout
          then (record cb { state = circuit_half_open; half_open_attempt = later }, true)
          else (cb, false)
      | circuit_half_open ↦ (cb, elapsed now cb.half_open_attempt cb.half_open_timeout)
    ])
unfolding allow check promote
allow_lem cb now later = ground arith

-- The answers to a row of calls of `Allow`, one after the other, each at its own time.
pub allow_all : CircuitBreaker → List Time → List Bool
allow_all cb [] = []
allow_all cb (t ∷ ts) = (allow cb t t).1 ∷ allow_all (allow cb t t).0 ts

-- A half-open breaker to which no outcome is reported admits every call of a row whose calls all come
-- after the half-open timeout.
pub allow_all-half_open :
    (cb : CircuitBreaker) (ts : List Time)
    → cb.state ≡ circuit_half_open
    → All (λ t. elapsed t cb.half_open_attempt cb.half_open_timeout ≡ true) ts
    → All (λ b. b ≡ true) (allow_all cb ts)
unfolding allow_all
allow_all-half_open cb [] h a = tt
allow_all-half_open cb (t ∷ ts) h a =
    let same : (allow cb t t) ≡ (cb, true) = unfold allow check in ground (arith, a.0) in
    rw same (refl, allow_all-half_open cb ts h a.1)
