-- ===== src/Base/Int.antt =====
-- Go's signed integers where a program gives them, and `if n <= 0 { n = fallback }`.
use Prim.Native.Nat.{ℕ, suc}

-- `negsuc n` is -(n + 1).
pub data ℤ : Type 0 where
  pos : ℕ → ℤ
  negsuc : ℕ → ℤ

-- A positive value, or the fallback.
unfoldable pub positive_or : ℤ → ℕ → ℕ
positive_or (pos (suc n)) fallback = suc n
positive_or _ fallback = fallback
