-- ===== src/Runtime/Backoff.antt =====
-- services/query-runtime/internal/runtime/retry.go: a bounded number of attempts.
use groundwork.Base.{
  ℕ, zero, suc, ◌*◌, ◌^◌, ◌%◌, String, ◌&&◌, not, Option, none, some, ltb, leb, if◌then◌else◌, ℤ,
  positive_or,
}

-- Durations are numbers of nanoseconds.
pub record RetryConfig : Type 0 where
  pub attempts : ℤ
  pub base : ℤ
  pub max : ℤ

-- The delay before the jitter, an int64 as its bit pattern. A delay below 2, as after an overflow,
-- panics in the source; the waits of the loop below are taken not to.
unfoldable pub retry_delay : RetryConfig → ℕ → ℕ
unfolding positive_or
retry_delay c attempt =
    let base = positive_or c.base 50_000_000 in
    let max = positive_or c.max 500_000_000 in
    let delay = base * 2 ^ attempt % 2 ^ 64 in
    if not (leb (2 ^ 63) delay) && ltb max delay then max else delay

-- `fn` is the attempt with a number and the state that it leaves, and `cancelled i` the error of
-- the context if it ends in the wait after the attempt i.
module _ {S : Type 0} (fn : ℕ → S → S × Option String) (cancelled : ℕ → Option String) where
  -- The loop for the attempts left, with the last error.
  unfoldable pub attempts_from : ℕ → ℕ → Option String → S → S × Option String
  attempts_from zero i last s = (s, last)
  attempts_from (suc zero) i last s = fn i s
  attempts_from (suc (suc left)) i last s =
      let (s', error) = fn i s in
      let rest = attempts_from (suc left) (suc i) error s' in
      elim error [
        | none ↦ (s', none)
        | some e ↦ elim (cancelled i) [ some ended ↦ (s', some ended) | none ↦ rest ]
      ]

  unfoldable pub retry_with_backoff : RetryConfig → S → S × Option String
  unfolding attempts_from
  retry_with_backoff c = attempts_from (positive_or c.attempts 3) 0 none
