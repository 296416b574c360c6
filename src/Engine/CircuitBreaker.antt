-- ===== src/Engine/CircuitBreaker.antt =====
-- engine/circuit_breaker.go. Each method runs under the breaker's mutex, so it is one step; `now`
-- is the reading of the clock in that step, in nanoseconds.
pub mod Laws
use groundwork.Base.{
  ℕ, suc, ◌+◌, Bool, true, false, ◌&&◌, ◌||◌, leb, if◌then◌else◌, ℤ, positive_or, List, [], ◌∷◌,
}

pub data State : Type 0 where
  closed opened half_open : State

abbrev pub is_open : State → Bool
is_open opened = true
is_open _ = false

abbrev pub is_half_open : State → Bool
is_half_open half_open = true
is_half_open _ = false

pub record CircuitBreaker : Type 0 where
  pub failure_limit : ℕ
  pub open_timeout : ℕ
  pub state : State
  pub consecutive_fails : ℕ
  pub opened_at : ℕ

-- 10 * time.Second
abbrev pub ten_seconds : ℕ
ten_seconds = 10_000_000_000

unfoldable pub new_circuit_breaker : ℤ → ℤ → CircuitBreaker
unfolding positive_or
new_circuit_breaker failure_limit open_timeout = record {
  failure_limit = positive_or failure_limit 3;
  open_timeout = positive_or open_timeout ten_seconds;
  state = closed;
  consecutive_fails = 0;
  opened_at = 0;
}

-- The result is true for `nil` and false for `ErrCircuitOpen`.
unfoldable pub allow : ℕ → CircuitBreaker → CircuitBreaker × Bool
allow now c =
    let c' =
      if is_open c.state && leb (c.opened_at + c.open_timeout) now
      then record c { state = half_open }
      else c in
    (c', if is_open c'.state then false else true)

unfoldable pub report_success : CircuitBreaker → CircuitBreaker
report_success c = record c { state = closed; consecutive_fails = 0 }

unfoldable pub report_failure : ℕ → CircuitBreaker → CircuitBreaker
report_failure now c =
    let fails = c.consecutive_fails + 1 in
    if is_half_open c.state || leb c.failure_limit fails
    then record c { consecutive_fails = fails; state = opened; opened_at = now }
    else record c { consecutive_fails = fails }

-- The calls that the engine makes, in any order and at any times.
pub data Call : Type 0 where
  ask : ℕ → Call
  succeeded : Call
  failed : ℕ → Call

unfoldable pub step : CircuitBreaker → Call → CircuitBreaker
unfolding allow report_success report_failure
step c (ask now) = (allow now c).0
step c succeeded = report_success c
step c (failed now) = report_failure now c

unfoldable pub run : CircuitBreaker → List Call → CircuitBreaker
run c [] = c
run c (k ∷ ks) = run (step c k) ks
