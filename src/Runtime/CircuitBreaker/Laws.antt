-- ===== src/Runtime/CircuitBreaker/Laws.antt =====
-- What the clients' circuit breaker guarantees over any calls.
use groundwork.Base.{
  ℕ, suc, ◌+◌, ◌-◌, ◌≤◌, ◌<◌, ◌≡◌, ◌≢◌, inl, inr, true, false, arith, ℤ, positive_or, List, [], ◌∷◌,
  length, if◌then◌else◌, leb, Bool-cases,
}
use groundwork.Runtime.CircuitBreaker.{
  CircuitBreaker, closed, half_open, Call, ask, succeeded, failed, new_circuit_breaker, allow, step,
  run, admitted,
}
use Prim.Native.Nat.{min}

pub record IsBounded (c : CircuitBreaker) : Type 0 where
  pub limited : 0 < c.failure_limit
  pub probing : 0 < c.half_open_limit
  pub room : c.state ≡ closed → c.consecutive_fails < c.failure_limit
  pub probes : c.half_open_in_flight ≤ c.half_open_limit
  pub idle : c.state ≢ half_open → c.half_open_in_flight ≡ 0

pub step-IsBounded : (c : CircuitBreaker) (k : Call) → IsBounded c → IsBounded (step c k)
unfolding step
step-IsBounded c (ask now) v = ground arith
step-IsBounded c succeeded v = ground arith
step-IsBounded c (failed now) v = ground arith

run_keeps : (c : CircuitBreaker) (ks : List Call) → IsBounded c → IsBounded (run c ks)
unfolding run
run_keeps c [] v = v
run_keeps c (k ∷ ks) v = run_keeps (step c k) ks (step-IsBounded c k v)

positive_or-pos : (z : ℤ) (d : ℕ) → 0 < d → 0 < positive_or z d
unfolding positive_or
positive_or-pos (ℤ.pos (suc n)) d h = omega arith
positive_or-pos _ d h = h

-- Over any calls at any times, a breaker made by `NewCircuitBreaker` from any settings never has
-- more probes in flight than its limit, has none unless it is half open, and while it is closed
-- has counted fewer failures than the limit.
pub run-IsBounded :
    (limit timeout probes : ℤ) (ks : List Call)
    → IsBounded (run (new_circuit_breaker limit timeout probes) ks)
unfolding new_circuit_breaker
run-IsBounded limit timeout probes ks =
    run_keeps (new_circuit_breaker limit timeout probes) ks
      (ground (arith, positive_or-pos limit 3, positive_or-pos probes 1))

allow_half_open :
    (c : CircuitBreaker) (t : ℕ)
    → c.state ≡ half_open
    → allow t c ≡ (
        if leb c.half_open_limit c.half_open_in_flight
        then (c, false)
        else (record c { half_open_in_flight = c.half_open_in_flight + 1 }, true))
unfolding allow
allow_half_open c t e = ground arith

-- Of the requests that a half-open breaker gets before any report, at whatever times, it admits as
-- many as there is room for probes, and refuses the others.
pub admitted_half_open :
    (c : CircuitBreaker) (ts : List ℕ)
    → c.state ≡ half_open
    → c.half_open_in_flight ≤ c.half_open_limit
    → admitted c ts ≡ min (length ts) (c.half_open_limit - c.half_open_in_flight)
unfolding admitted
admitted_half_open c [] e h = omega arith
admitted_half_open c (t ∷ ts) e h =
    elim (Bool-cases (leb c.half_open_limit c.half_open_in_flight)) [
      | inl full ↦ ground (arith, allow_half_open c t e, admitted_half_open c ts e h)
      | inr free ↦
          let c' = record c { half_open_in_flight = c.half_open_in_flight + 1 } in
          ground (arith, allow_half_open c t e, admitted_half_open c' ts e (ground arith))
    ]
