-- ===== src/Engine/Errors.antt =====
-- Errors as the engine inspects them (engine/engine.go, `classifyEngineError`, `classifyACLError`).
use groundwork.Base.{
  ℕ, String, ◌<>◌, Bool, true, false, ◌||◌, List, none, some, nat_beq, if◌then◌else◌,
}
use text.Mathlib.Text.{find?}

-- The sentinel errors that `errors.Is` asks for: `circuit_open` is the engine's, `runtime_circuit_open`
-- the runtime package's.
pub data Sentinel : Type 0 where
  circuit_open runtime_circuit_open deadline_exceeded acl_timeout acl_model_missing : Sentinel
  acl_backend_unavailable acl_unavailable : Sentinel

abbrev code : Sentinel → ℕ
code circuit_open = 0
code runtime_circuit_open = 1
code deadline_exceeded = 2
code acl_timeout = 3
code acl_model_missing = 4
code acl_backend_unavailable = 5
code acl_unavailable = 6

-- An error: the sentinels that its chain holds, and the text of `Error()`.
pub record GoError : Type 0 where
  pub chain : List Sentinel
  pub message : String

unfoldable pub in_chain : List Sentinel → Sentinel → Bool
in_chain List.[] k = false
in_chain (List.◌∷◌ s ss) k = nat_beq (code s) (code k) || in_chain ss k

unfoldable pub errors_is : GoError → Sentinel → Bool
unfolding in_chain
errors_is e k = in_chain e.chain k

unfoldable pub text_contains : String → String → Bool
text_contains s t = elim (find? s t) [ none ↦ false | some _ ↦ true ]

unfoldable pub classify_engine_error : String → GoError → String
unfolding errors_is text_contains
classify_engine_error stage e =
    if errors_is e circuit_open
      || errors_is e runtime_circuit_open
      || text_contains e.message "circuit open"
    then stage <> "_circuit_open"
    else if errors_is e deadline_exceeded
    then stage <> "_timeout"
    else stage <> "_error"

unfoldable pub classify_acl_error : GoError → String
unfolding errors_is text_contains
classify_acl_error e =
    if errors_is e runtime_circuit_open || text_contains e.message "circuit open"
    then "acl_circuit_open"
    else if errors_is e acl_timeout || errors_is e deadline_exceeded
    then "acl_timeout"
    else if errors_is e acl_model_missing
    then "acl_model_missing"
    else "acl_backend_unavailable"
