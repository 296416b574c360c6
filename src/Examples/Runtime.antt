-- ===== src/Examples/Runtime.antt =====
-- The circuit breaker of the runtime package and the rate limiter on concrete calls.
use Prim.Native.Nat.{min}
use groundwork.Base.{◌≡◌, refl, ◌⊎◌, ◌≤◌, ◌+◌, ◌-◌, List, [], ◌∷◌, some, arith, ℤ, nat_eq}
use groundwork.Runtime.CircuitBreaker.{
  CircuitBreaker, half_open, new_circuit_breaker, ask, failed, run, admitted,
}
use groundwork.Runtime.CircuitBreaker.Laws.{IsBounded, run-IsBounded, admitted_half_open}
use groundwork.Runtime.RateLimiter.{RateLimiter, new_rate_limiter, put}
use groundwork.Runtime.RateLimiter.Budget.{Request, passed, made, passed_within_window}

run-IsBounded_example : IsBounded (
    run (new_circuit_breaker (ℤ.pos 2) (ℤ.pos 10) (ℤ.negsuc 0)) (failed 1 ∷ failed 2 ∷ ask 20 ∷ []))
run-IsBounded_example =
    run-IsBounded (ℤ.pos 2) (ℤ.pos 10) (ℤ.negsuc 0) (failed 1 ∷ failed 2 ∷ ask 20 ∷ [])

abbrev probing : CircuitBreaker
probing = record {
  failure_limit = 3;
  open_timeout = 10;
  half_open_limit = 2;
  state = half_open;
  consecutive_fails = 3;
  opened_at = 1;
  half_open_in_flight = 1;
}

admitted_half_open_example : admitted probing (20 ∷ 21 ∷ 22 ∷ []) ≡ min 3 (2 - 1)
admitted_half_open_example = admitted_half_open probing (20 ∷ 21 ∷ 22 ∷ []) refl (ground arith)

abbrev busy : RateLimiter
busy = put new_rate_limiter 7 (record { count = 1; reset_at = 60 })

abbrev asked : List Request
asked = record { key = 7; now = 5 } ∷ record { key = 8; now = 6 } ∷ record { key = 7; now = 9 } ∷ []

passed_within_window_example :
    (passed (some busy) (λ k. ℤ.pos 2) 7 asked + 1 ≤ 2)
    × ((passed (some busy) (λ k. ℤ.pos 2) 7 asked ≡ made 7 asked)
        ⊎ (passed (some busy) (λ k. ℤ.pos 2) 7 asked + 1 ≡ 2))
unfolding put
passed_within_window_example =
    passed_within_window busy (λ k. ℤ.pos 2) 7 1 (record { count = 1; reset_at = 60 }) asked refl
      refl (ground arith) (ground arith, (ground arith, (ground arith, tt)))
