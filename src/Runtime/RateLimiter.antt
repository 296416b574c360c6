-- ===== src/Runtime/RateLimiter.antt =====
-- services/query-runtime/internal/runtime/ratelimit.go: the limiter of requests per API key in
-- fixed windows of a minute.
pub mod Budget
use groundwork.Base.{
  ℕ, zero, suc, String, ◌+◌, ◌-◌, Bool, true, false, ◌&&◌, ◌||◌, not, List, [], ◌∷◌, Option, none,
  some, ltb, leb, nat_beq, if◌then◌else◌, ℤ, ◌==◌, nat_eq,
}

-- `rlWindow`. Times are in nanoseconds.
pub record Window : Type 0 where
  pub count : ℕ
  pub reset_at : ℕ

-- The map `windows`, from key ids.
abbrev pub RateLimiter : Type 0
RateLimiter = ℕ → Option Window

abbrev pub minute : ℕ
minute = 60_000_000_000

unfoldable pub new_rate_limiter : RateLimiter
new_rate_limiter key = none

unfoldable pub put : RateLimiter → ℕ → Window → RateLimiter
put r key w other = if key == other then some w else r other

-- `Allow` for a positive budget, on the key's window.
unfoldable pub allow_window : RateLimiter → ℕ → ℕ → ℕ → Option Window → RateLimiter × (Bool × ℕ)
allow_window r now key rpm none =
    (put r key (record { count = 1; reset_at = now + minute }), (true, 0))
allow_window r now key rpm (some w) =
    if ltb w.reset_at now
    then (put r key (record { count = 1; reset_at = now + minute }), (true, 0))
    else if leb rpm w.count
    then (r, (false, w.reset_at - now))
    else (put r key (record w { count = w.count + 1 }), (true, 0))

-- `Allow`: the answer, and the wait until the window resets. A limiter that is nil allows all.
unfoldable pub allow : Option RateLimiter → ℕ → ℕ → ℤ → Option RateLimiter × (Bool × ℕ)
allow none now key rpm = (none, (true, 0))
allow (some r) now key (ℤ.negsuc n) = (some r, (true, 0))
allow (some r) now key (ℤ.pos zero) = (some r, (true, 0))
allow (some r) now key (ℤ.pos (suc n)) =
    let (r', answer) = allow_window r now key (suc n) (r key) in (some r', answer)
