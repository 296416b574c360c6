-- ===== src/Engine/Config/Positive.antt =====
-- The timeouts that a query runs with.
use groundwork.Base.{ℕ, zero, suc, ◌≡◌, refl, ℤ, arith}
use groundwork.Engine.Config.{TimeoutConfig, default_timeout_config, or_default, with_defaults}

abbrev pub IsPositive : ℤ → Type 0
IsPositive z = (n : ℕ) × (z ≡ ℤ.pos (suc n))

-- Every timeout of a configuration is positive.
pub record AllPositive (c : TimeoutConfig) : Type 0 where
  pub total : IsPositive c.total
  pub embedding : IsPositive c.embedding
  pub qdrant_search : IsPositive c.qdrant_search
  pub openfga_check : IsPositive c.openfga_check
  pub audit_write : IsPositive c.audit_write

or_default-IsPositive : (z d : ℤ) → IsPositive d → IsPositive (or_default z d)
unfolding or_default
or_default-IsPositive (ℤ.negsuc n) d h = h
or_default-IsPositive (ℤ.pos zero) d h = h
or_default-IsPositive (ℤ.pos (suc n)) d h = (n, refl)

or_default_keeps : (z d : ℤ) → IsPositive z → or_default z d ≡ z
unfolding or_default
or_default_keeps (ℤ.negsuc n) d (k, e) = absurd (cc e)
or_default_keeps (ℤ.pos zero) d (k, e) = absurd (ground arith)
or_default_keeps (ℤ.pos (suc n)) d h = refl

with_defaults_keeps : (c : TimeoutConfig) → AllPositive c → with_defaults c ≡ c
unfolding with_defaults
with_defaults_keeps c h = rw (
  or_default_keeps c.total default_timeout_config.total h.total,
  or_default_keeps c.embedding default_timeout_config.embedding h.embedding,
  or_default_keeps c.qdrant_search default_timeout_config.qdrant_search h.qdrant_search,
  or_default_keeps c.openfga_check default_timeout_config.openfga_check h.openfga_check,
  or_default_keeps c.audit_write default_timeout_config.audit_write h.audit_write,
)

AllPositive-with_defaults : (c : TimeoutConfig) → AllPositive (with_defaults c)
unfolding with_defaults default_timeout_config
AllPositive-with_defaults c = record {
  total = or_default-IsPositive c.total _ (14_999_999_999, ground arith);
  embedding = or_default-IsPositive c.embedding _ (14_999_999_999, ground arith);
  qdrant_search = or_default-IsPositive c.qdrant_search _ (14_999_999_999, ground arith);
  openfga_check = or_default-IsPositive c.openfga_check _ (59_999_999, ground arith);
  audit_write = or_default-IsPositive c.audit_write _ (29_999_999, ground arith);
}

-- Whatever a configuration holds, negative timeouts included, all its timeouts are positive once
-- the defaults are in, and putting them in again changes nothing.
pub with_defaults-AllPositive :
    (c : TimeoutConfig)
    → AllPositive (with_defaults c) × (with_defaults (with_defaults c) ≡ with_defaults c)
with_defaults-AllPositive c = (
  AllPositive-with_defaults c,
  with_defaults_keeps (with_defaults c) (AllPositive-with_defaults c),
)
