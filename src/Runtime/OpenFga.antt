-- ===== src/Runtime/OpenFga.antt =====
-- services/query-runtime/internal/runtime/openfga.go: the client that asks OpenFGA, and provisions
-- its store on first use.
pub mod Allowed
use groundwork.Base.{
  ℕ, String, ◌<>◌, Bool, true, false, ◌&&◌, ◌||◌, not, List, [], ◌∷◌, Option, none, some,
  if◌then◌else◌, ◌==◌, string_eq, Result, ok, err, ℤ, contains, lowered_contains,
}
use groundwork.AclSync.Tuples.{Tuple, tuple}
use groundwork.Engine.Types.{QueryRequest, Chunk}
use groundwork.Runtime.Backoff.{RetryConfig, retry_with_backoff}
use groundwork.Runtime.CircuitBreaker.{CircuitBreaker, allow, report_success, report_failure}

-- The requests that are sent to OpenFGA, each with the server it leaves and its answer or the text
-- of its error.
pub record Api : Type 1 where
  pub Server : Type 0
  pub get_stores : Server → Server × Result (List (String × String))
  pub post_store : Server → String → Server × Result String
  pub post_model : Server → String → Server × Option String
  pub get_latest_types : Server → String → Server × Result (Option (List String))
  pub post_write : Server → String → List Tuple → Server × Option String
  pub post_check : Server → String → String → String → Server × Result Bool

-- The tuples that are seeded.
abbrev pub default_memberships : List Tuple
default_memberships =
    tuple "user:finance_user" "member" "group:finance"
    ∷ tuple "user:executive_user" "member" "group:executive"
    ∷ tuple "user:security_user" "member" "group:security"
    ∷ []

-- The error that `writeTuples` passes over, a tuple that is there already.
unfoldable pub says_already : String → Bool
unfolding lowered_contains
says_already text = lowered_contains text "already"

-- The early return of `CanAccess`.
unfoldable pub refuses : {F : Type 0} → QueryRequest → Chunk F → Bool
refuses req chunk =
    req.tenant_id == ""
    || req.user_id == ""
    || chunk.document_id == ""
    || not (chunk.tenant_id == req.tenant_id)
    || chunk.soft_deleted

module _ (api : Api) where
  open api use {Server}

  pub record OpenFgaChecker : Type 0 where
    pub store_name : String
    pub store_id : String
    pub ready : Bool
    pub breaker : Option CircuitBreaker

  unfoldable pub store_named : String → List (String × String) → Option String
  store_named name [] = none
  store_named name ((id, n) ∷ stores) =
      let rest = store_named name stores in if n == name then some id else rest

  -- The answer of the request that creates a store.
  unfoldable pub created_store : Server × Result String → Server × Result (String × Bool)
  created_store (s, err e) = (s, err e)
  created_store (s, ok id) =
      (s, if id == "" then err "openfga store creation returned empty id" else ok (id, true))

  unfoldable pub ensure_store : Server → String → Server × Result (String × Bool)
  unfolding store_named created_store
  ensure_store s name =
      let (s1, stores) = api.get_stores s in
      elim stores [
        | err e ↦ (s1, err e)
        | ok known ↦ elim (store_named name known) [
          | some id ↦ (s1, ok (id, false))
          | none ↦ created_store (api.post_store s1 name)
        ]
      ]

  unfoldable pub seed_default_memberships : Server → String → Server × Option String
  seed_default_memberships s store =
      let (s1, error) = api.post_write s store default_memberships in
      elim error [ none ↦ (s1, none) | some e ↦ (s1, if says_already e then none else some e) ]

  -- `writeAuthorizationModel`, then the seed.
  unfoldable pub write_and_seed : Server → String → Server × Option String
  unfolding seed_default_memberships
  write_and_seed s store =
      let (s1, error) = api.post_model s store in
      elim error [ some e ↦ (s1, some e) | none ↦ seed_default_memberships s1 store ]

  unfoldable pub has_folder : Option (List String) → Bool
  has_folder none = false
  has_folder (some types) = contains types "folder"

  -- The model of a store that is there already.
  unfoldable pub reconcile_model : Server → String → Server × Option String
  unfolding write_and_seed has_folder
  reconcile_model s store =
      let (s1, latest) = api.get_latest_types s store in
      elim latest [
        | err e ↦ (s1, some e)
        | ok types ↦ if has_folder types then (s1, none) else write_and_seed s1 store
      ]

  unfoldable pub provision : Server → String → Bool → Server × Option String
  unfolding write_and_seed reconcile_model
  provision s store created = if created then write_and_seed s store else reconcile_model s store

  -- The end of `ensure`: the checker is ready if nothing failed.
  unfoldable pub settled :
      OpenFgaChecker → Server × Option String → OpenFgaChecker × (Server × Option String)
  settled o (s, some e) = (o, (s, some e))
  settled o (s, none) = (record o { ready = true }, (s, none))

  unfoldable pub ensure : OpenFgaChecker → Server → OpenFgaChecker × (Server × Option String)
  unfolding ensure_store provision settled
  ensure o s =
      let (s1, found) = ensure_store s o.store_name in
      if o.ready then (o, (s, none)) else elim found [
        | err e ↦ (o, (s1, some e))
        | ok (id, created) ↦ settled (record o { store_id = id }) (provision s1 id created)
      ]

  -- One attempt of the check: what it leaves in `parsed`.
  unfoldable pub check_attempt :
      String → String → String → Server × Bool → (Server × Bool) × Option String
  check_attempt store user object (s, parsed) =
      let (s1, answer) = api.post_check s store user object in
      elim answer [ err e ↦ ((s1, parsed), some e) | ok granted ↦ ((s1, granted), none) ]

  unfoldable pub checked :
      Option CircuitBreaker
      → ℕ
      → (Server × Bool) × Option String
      → Option CircuitBreaker × (Server × Result Bool)
  checked none later ((s, granted), none) = (none, (s, ok granted))
  checked none later ((s, granted), some e) = (none, (s, err e))
  checked (some b) later ((s, granted), none) = (some (report_success b), (s, ok granted))
  checked (some b) later ((s, granted), some e) = (some (report_failure later b), (s, err e))

  abbrev check_config : RetryConfig
  check_config = record { attempts = ℤ.pos 3; base = ℤ.pos 50_000_000; max = ℤ.pos 500_000_000 }

  -- The check with its retries, once the breaker has let it pass.
  unfoldable pub check_retried :
      (ℕ → Option String) → String → String → String → Server → (Server × Bool) × Option String
  unfolding check_attempt retry_with_backoff
  check_retried cancelled store user object s =
      retry_with_backoff (λ i. check_attempt store user object) cancelled check_config (s, false)

  unfoldable pub with_breaker :
      OpenFgaChecker
      → Option CircuitBreaker × (Server × Result Bool)
      → OpenFgaChecker × (Server × Result Bool)
  with_breaker o (b, answer) = (record o { breaker = b }, answer)

  -- From the question to the breaker on: `now` is the clock when it is asked, `later` when the
  -- failure is reported.
  unfoldable pub ask_checked :
      ℕ
      → ℕ
      → (ℕ → Option String)
      → String
      → String
      → OpenFgaChecker
      → Server
      → OpenFgaChecker × (Server × Result Bool)
  unfolding check_retried checked with_breaker
  ask_checked now later cancelled user object o s = elim o.breaker [
    | none ↦ with_breaker o (checked none later (check_retried cancelled o.store_id user object s))
    | some b ↦
        let (b', admitted) = allow now b in
        if admitted
        then with_breaker o
            (checked (some b') later (check_retried cancelled o.store_id user object s))
        else (record o { breaker = some b' }, (s, err "qdrant circuit open: qdrant circuit open"))
  ]

  unfoldable pub ensured_then :
      (OpenFgaChecker → Server → OpenFgaChecker × (Server × Result Bool))
      → OpenFgaChecker × (Server × Option String)
      → OpenFgaChecker × (Server × Result Bool)
  ensured_then next (o, (s, some e)) = (o, (s, err e))
  ensured_then next (o, (s, none)) = next o s

  -- `CanAccess`
  unfoldable pub can_access :
      {F : Type 0}
      → ℕ
      → ℕ
      → (ℕ → Option String)
      → QueryRequest
      → Chunk F
      → OpenFgaChecker
      → Server
      → OpenFgaChecker × (Server × Result Bool)
  unfolding ensure ask_checked refuses ensured_then
  can_access now later cancelled req chunk o s =
      if refuses req chunk
      then (o, (s, ok false))
      else ensured_then
          (ask_checked now later cancelled ("user:" <> req.user_id)
            ("document:" <> chunk.document_id))
          (ensure o s)
