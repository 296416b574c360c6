-- ===== src/Engine/Config.antt =====
-- engine/config.go: the timeouts of a query, from the environment and with their defaults.
pub mod Positive
use groundwork.Base.{
  ℕ, zero, suc, String, ◌-◌, ◌*◌, ◌%◌, ◌^◌, ltb, if◌then◌else◌, ◌==◌, string_eq, ℤ, Option, none,
  some,
}

-- Durations are int64 numbers of nanoseconds.
pub record TimeoutConfig : Type 0 where
  pub total : ℤ
  pub embedding : ℤ
  pub qdrant_search : ℤ
  pub openfga_check : ℤ
  pub audit_write : ℤ

unfoldable pub default_timeout_config : TimeoutConfig
default_timeout_config = record {
  total = ℤ.pos 15_000_000_000;
  embedding = ℤ.pos 15_000_000_000;
  qdrant_search = ℤ.pos 15_000_000_000;
  openfga_check = ℤ.pos 60_000_000;
  audit_write = ℤ.pos 30_000_000;
}

-- The int64 that a product wraps around to.
unfoldable pub to_int64 : ℕ → ℤ
to_int64 n = let m = n % 2 ^ 64 in if ltb m (2 ^ 63) then ℤ.pos m else ℤ.negsuc (2 ^ 64 - m - 1)

-- A parsed number of milliseconds as a duration, or the fallback if it is not positive.
unfoldable pub milliseconds : ℤ → Option ℤ → ℤ
unfolding to_int64
milliseconds fallback none = fallback
milliseconds fallback (some (ℤ.negsuc n)) = fallback
milliseconds fallback (some (ℤ.pos zero)) = fallback
milliseconds fallback (some (ℤ.pos (suc n))) = to_int64 (suc n * 1_000_000)

-- `if c.Total <= 0 { ... }`, and the same for the others.
unfoldable pub or_default : ℤ → ℤ → ℤ
or_default (ℤ.negsuc n) d = d
or_default (ℤ.pos zero) d = d
or_default (ℤ.pos (suc n)) d = ℤ.pos (suc n)

unfoldable pub with_defaults : TimeoutConfig → TimeoutConfig
with_defaults c = record {
  total = or_default c.total default_timeout_config.total;
  embedding = or_default c.embedding default_timeout_config.embedding;
  qdrant_search = or_default c.qdrant_search default_timeout_config.qdrant_search;
  openfga_check = or_default c.openfga_check default_timeout_config.openfga_check;
  audit_write = or_default c.audit_write default_timeout_config.audit_write;
}

-- `getenv` is `os.Getenv`, and `parse` is `strconv.ParseInt` in base 10 with 64 bits.
module _ (getenv : String → String) (parse : String → Option ℤ) where
  unfoldable pub env_duration : String → ℤ → ℤ
  env_duration key fallback =
      if getenv key == "" then fallback else milliseconds fallback (parse (getenv key))

  unfoldable pub timeout_config_from_env : TimeoutConfig
  timeout_config_from_env = record {
    total = env_duration "BACKEND_HTTP_TIMEOUT_MS" default_timeout_config.total;
    embedding = env_duration "EMBEDDING_TIMEOUT_MS" default_timeout_config.embedding;
    qdrant_search = env_duration "QDRANT_TIMEOUT_MS" default_timeout_config.qdrant_search;
    openfga_check = env_duration "OPENFGA_TIMEOUT_MS" default_timeout_config.openfga_check;
    audit_write = env_duration "AUDIT_TIMEOUT_MS" default_timeout_config.audit_write;
  }
