-- ===== src/ApiCache/Circuit/Counting.antt =====
-- apicache/circuit.go: failures in a row.
use d_utils.Base.{
  ℕ, ◌+◌, ◌<◌, ◌≡◌, List, [], ◌∷◌, arith, if◌then◌else◌, ltb, length, Bool-cases, inl, inr,
}
use d_utils.Base.Int.{pos, ◌+ℤ◌}
use d_utils.Base.Word.{half_range, add64, add64_exact}
use d_utils.Base.GoTime.{Time}
use d_utils.ApiCache.Circuit.{CircuitBreaker, circuit_closed, circuit_open, failure}

-- Failures at the given times, the first of the list first.
abbrev pub fail_at : CircuitBreaker → List Time → CircuitBreaker
fail_at cb [] = cb
fail_at cb (t ∷ ts) = fail_at (failure cb t) ts

add64_one : (n : ℕ) → n + 1 < half_range → add64 (pos n) (pos 1) ≡ pos (n + 1)
unfolding ◌+ℤ◌
add64_one n h = ground (arith, add64_exact (pos n) (pos 1))

open_stays :
    (ts : List Time) (cb : CircuitBreaker)
    → cb.state ≡ circuit_open
    → (fail_at cb ts).state ≡ circuit_open
open_stays [] cb s = s
open_stays (t ∷ ts) cb s = open_stays ts (failure cb t) (unfold failure in ground arith)

-- From a closed breaker with `n` failures counted, fewer than `max_failures`, further failures in a
-- row leave it closed exactly as long as the count stays below `max_failures`, and open it from then
-- on; the count stays below 2^63.
pub fail_at-state :
    (ts : List Time) (cb : CircuitBreaker) (n k : ℕ)
    → cb.state ≡ circuit_closed
    → cb.failures ≡ pos n
    → cb.max_failures ≡ pos k
    → n < k
    → n + length ts < half_range
    → (fail_at cb ts).state ≡ (if ltb (n + length ts) k then circuit_closed else circuit_open)
fail_at-state [] cb n k s f m lt small = ground arith
fail_at-state (t ∷ ts) cb n k s f m lt small =
    let count : add64 cb.failures (pos 1) ≡ pos (n + 1) = rw f (add64_one n (omega arith)) in
    elim (Bool-cases (ltb (n + 1) k)) [
      | inl below ↦
          let ih =
            fail_at-state ts (failure cb t) (n + 1) k (unfold failure in ground arith)
              (unfold failure in count) (unfold failure in m) (ground arith) (omega arith) in
          ground (arith, ih)
      | inr reached ↦
          let ih = open_stays ts (failure cb t) (unfold failure in ground arith) in
          ground (arith, ih)
    ]
