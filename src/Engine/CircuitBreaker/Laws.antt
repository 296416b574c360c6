-- ===== src/Engine/CircuitBreaker/Laws.antt =====
-- What the engine's circuit breaker guarantees over any calls.
use groundwork.Base.{
  ℕ, suc, ◌+◌, ◌≤◌, ◌<◌, ◌≡◌, ◌≢◌, true, false, arith, ℤ, positive_or, List, [], ◌∷◌, map, length,
}
use groundwork.Engine.CircuitBreaker.{
  CircuitBreaker, closed, opened, Call, ask, succeeded, failed, new_circuit_breaker, allow,
  report_success, report_failure, step, run,
}

-- A closed breaker has room for a failure; one that is not closed has counted up to the limit.
pub record IsValid (c : CircuitBreaker) : Type 0 where
  pub limited : 0 < c.failure_limit
  pub timed : 0 < c.open_timeout
  pub room : c.state ≡ closed → c.consecutive_fails < c.failure_limit
  pub failing : c.state ≢ closed → c.failure_limit ≤ c.consecutive_fails

pub step-IsValid : (c : CircuitBreaker) (k : Call) → IsValid c → IsValid (step c k)
unfolding step
step-IsValid c (ask now) v = ground arith
step-IsValid c succeeded v = ground arith
step-IsValid c (failed now) v = ground arith

run_keeps : (c : CircuitBreaker) (ks : List Call) → IsValid c → IsValid (run c ks)
unfolding run
run_keeps c [] v = v
run_keeps c (k ∷ ks) v = run_keeps (step c k) ks (step-IsValid c k v)

positive_or-pos : (z : ℤ) (d : ℕ) → 0 < d → 0 < positive_or z d
unfolding positive_or
positive_or-pos (ℤ.pos (suc n)) d h = omega arith
positive_or-pos _ d h = h

new-IsValid : (limit timeout : ℤ) → IsValid (new_circuit_breaker limit timeout)
unfolding new_circuit_breaker
new-IsValid limit timeout =
    ground (arith, positive_or-pos limit 3, positive_or-pos timeout 10_000_000_000)

-- Over any sequence of requests for admission, successes and failures, at any times, a breaker
-- made by `NewCircuitBreaker` from any settings keeps a positive limit and a positive timeout; while it is
-- closed it has counted fewer failures than the limit, and while it is not, at least as many.
pub run-IsValid :
    (limit timeout : ℤ) (ks : List Call) → IsValid (run (new_circuit_breaker limit timeout) ks)
run-IsValid limit timeout ks =
    run_keeps (new_circuit_breaker limit timeout) ks (new-IsValid limit timeout)

abbrev pub failures : List ℕ → List Call
failures = map failed

still_open :
    (c : CircuitBreaker) (ts : List ℕ)
    → c.state ≡ opened
    → c.failure_limit ≤ c.consecutive_fails
    → (run c (failures ts)).state ≡ opened
unfolding run step
still_open c [] e h = e
still_open c (t ∷ ts) e h = still_open (report_failure t c) ts (ground arith) (ground arith)

run-failures :
    (c : CircuitBreaker) (t : ℕ) (ts : List ℕ)
    → (c.failure_limit ≤ c.consecutive_fails + length (t ∷ ts)
        → (run c (failures (t ∷ ts))).state ≡ opened)
      × (c.state ≡ closed
          → c.consecutive_fails + length (t ∷ ts) < c.failure_limit
          → ((run c (failures (t ∷ ts))).state ≡ closed)
            × ((now : ℕ) → (allow now (run c (failures (t ∷ ts)))).1 ≡ true))
unfolding run step allow
run-failures c t [] = (λ h. ground arith, λ e h. (ground arith, λ now. ground arith))
run-failures c t (u ∷ us) =
    let (trips, stays) = run-failures (report_failure t c) u us in
    (λ h. trips (ground arith), λ e h. stays (ground arith) (ground arith))

outage :
    (c : CircuitBreaker) (t now later : ℕ)
    → IsValid c
    → let c' = report_failure t c in
      c'.state ≡ opened
      → (now < t + c.open_timeout → allow now c' ≡ (c', false))
        × (t + c.open_timeout ≤ now
            → ((allow now c').1 ≡ true)
              × ((report_failure later (allow now c').0).state ≡ opened)
              × ((report_failure later (allow now c').0).opened_at ≡ later)
              × ((report_success (allow now c').0).state ≡ closed)
              × ((report_success (allow now c').0).consecutive_fails ≡ 0))
unfolding allow report_failure report_success
outage c t now later v h = ground arith

-- Failures alone, with no success between them: once the count reaches the limit, the breaker is
-- open, from whatever state it started.
pub failures_open :
    (c : CircuitBreaker) (t : ℕ) (ts : List ℕ)
    → c.failure_limit ≤ c.consecutive_fails + length (t ∷ ts)
    → (run c (failures (t ∷ ts))).state ≡ opened
failures_open c t ts = (run-failures c t ts).0

-- Failures alone, as long as the count stays below the limit: a closed breaker stays closed, and a
-- request at any time is then admitted.
pub failures_stay_closed :
    (c : CircuitBreaker) (t : ℕ) (ts : List ℕ) (now : ℕ)
    → c.state ≡ closed
    → c.consecutive_fails + length (t ∷ ts) < c.failure_limit
    → ((run c (failures (t ∷ ts))).state ≡ closed)
      × ((allow now (run c (failures (t ∷ ts)))).1 ≡ true)
failures_stay_closed c t ts now is_closed few =
    let (stays, admits) = (run-failures c t ts).1 is_closed few in (stays, admits now)

-- A failure at time `t` after which a breaker in a valid state is open shuts it for the timeout:
-- until then every request is refused and changes nothing.
pub outage_shut :
    (c : CircuitBreaker) (t now : ℕ)
    → IsValid c
    → (report_failure t c).state ≡ opened
    → now < t + c.open_timeout
    → allow now (report_failure t c) ≡ (report_failure t c, false)
outage_shut c t now valid opens early = (outage c t now now valid opens).0 early

-- The first request after the timeout of that outage is admitted. If it fails, the breaker is open
-- again from the time of that failure; if it succeeds, closed with no failure counted.
pub outage_probe :
    (c : CircuitBreaker) (t now later : ℕ)
    → IsValid c
    → (report_failure t c).state ≡ opened
    → t + c.open_timeout ≤ now
    → let probed = allow now (report_failure t c) in
      (probed.1 ≡ true)
      × ((report_failure later probed.0).state ≡ opened)
      × ((report_failure later probed.0).opened_at ≡ later)
      × ((report_success probed.0).state ≡ closed)
      × ((report_success probed.0).consecutive_fails ≡ 0)
outage_probe c t now later valid opens late = (outage c t now later valid opens).1 late
