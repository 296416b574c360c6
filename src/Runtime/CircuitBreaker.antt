-- ===== src/Runtime/CircuitBreaker.antt =====
-- runtime/circuit_breaker.go: the breaker of the OpenFGA and vector clients, which bounds the
-- probes in flight while it is half open.
pub mod Laws
use groundwork.Base.{
  ℕ, suc, ◌+◌, Bool, true, false, ◌&&◌, leb, if◌then◌else◌, ℤ, positive_or, List, [], ◌∷◌,
}

pub data CircuitState : Type 0 where
  closed opened half_open : CircuitState

abbrev pub is_open : CircuitState → Bool
is_open opened = true
is_open _ = false

abbrev pub is_half_open : CircuitState → Bool
is_half_open half_open = true
is_half_open _ = false

-- The settings after `NewCircuitBreaker` has put the defaults in; the name is not modelled.
pub record CircuitBreaker : Type 0 where
  pub failure_limit : ℕ
  pub open_timeout : ℕ
  pub half_open_limit : ℕ
  pub state : CircuitState
  pub consecutive_fails : ℕ
  pub opened_at : ℕ
  pub half_open_in_flight : ℕ

unfoldable pub new_circuit_breaker : ℤ → ℤ → ℤ → CircuitBreaker
unfolding positive_or
new_circuit_breaker failure_limit open_timeout half_open_limit = record {
  failure_limit = positive_or failure_limit 3;
  open_timeout = positive_or open_timeout 10_000_000_000;
  half_open_limit = positive_or half_open_limit 1;
  state = closed;
  consecutive_fails = 0;
  opened_at = 0;
  half_open_in_flight = 0;
}

-- The `switch` of `Allow`; the result is true for `nil` and false for `ErrCircuitOpen`.
admit : CircuitState → CircuitBreaker → CircuitBreaker × Bool
admit opened c = (c, false)
admit half_open c =
    if leb c.half_open_limit c.half_open_in_flight
    then (c, false)
    else (record c { half_open_in_flight = c.half_open_in_flight + 1 }, true)
admit closed c = (c, true)

unfoldable pub allow : ℕ → CircuitBreaker → CircuitBreaker × Bool
unfolding admit
allow now c =
    let c' =
      if is_open c.state && leb (c.opened_at + c.open_timeout) now
      then record c { state = half_open; half_open_in_flight = 0 }
      else c in
    admit c'.state c'

unfoldable pub report_success : CircuitBreaker → CircuitBreaker
report_success c = record c { state = closed; consecutive_fails = 0; half_open_in_flight = 0 }

-- `open()`
unfoldable pub open_now : ℕ → CircuitBreaker → CircuitBreaker
open_now now c = record c { state = opened; opened_at = now; half_open_in_flight = 0 }

unfoldable pub report_failure : ℕ → CircuitBreaker → CircuitBreaker
unfolding open_now
report_failure now c =
    if is_half_open c.state
    then open_now now c
    else let c' = record c { consecutive_fails = c.consecutive_fails + 1 } in
      if leb c.failure_limit c'.consecutive_fails then open_now now c' else c'

pub data Call : Type 0 where
  ask : ℕ → Call
  succeeded : Call
  failed : ℕ → Call

unfoldable pub step : CircuitBreaker → Call → CircuitBreaker
unfolding allow report_success report_failure
step c (ask now) = (allow now c).0
step c succeeded = report_success c
step c (failed now) = report_failure now c

unfoldable pub run : CircuitBreaker → List Call → CircuitBreaker
run c [] = c
run c (k ∷ ks) = run (step c k) ks

-- How many requests at the given times are admitted, with no report between them.
unfoldable pub admitted : CircuitBreaker → List ℕ → ℕ
admitted c [] = 0
admitted c (t ∷ ts) =
    let (c', granted) = allow t c in let rest = admitted c' ts in if granted then suc rest else rest
