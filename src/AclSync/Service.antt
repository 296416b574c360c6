-- ===== src/AclSync/Service.antt =====
-- aclsync/service.go and runonce.go: the service that keeps a sink in step with its source.
pub mod Backoff
pub mod Retry
pub mod Following
pub mod Channel
pub mod Sent
pub mod World
pub mod InStep
use groundwork.Base.{
  ℕ, zero, suc, String, ◌+◌, ◌-◌, ◌*◌, ◌/◌, ◌%◌, ◌^◌, Bool, true, false, ◌&&◌, ◌||◌, List, [], ◌∷◌,
  Option, none, some, ltb, leb, nat_beq, length, if◌then◌else◌, ◌==◌, string_eq, ℤ, positive_or,
  Result, ok, err,
}
use groundwork.AclSync.Model.{PermissionSet, PermissionChange}
use groundwork.AclSync.Tuples.{Tuple}
use groundwork.AclSync.Sync.{
  TupleSink, SyncResult, DriftReport, write_some, delete_some, sync_to_open_fga, detect_drift,
}
use groundwork.AclSync.Change.{change_to_tuples}

-- Durations are numbers of nanoseconds.
pub record Config : Type 0 where
  pub mode : String
  pub tenant_id : String
  pub sync_interval : ℤ
  pub drift_check_interval : ℤ
  pub backoff_base : ℤ
  pub backoff_max : ℤ

-- A configuration after its defaults are in.
pub record Settings : Type 0 where
  pub mode : String
  pub tenant_id : String
  pub sync_interval : ℕ
  pub drift_check_interval : ℕ
  pub backoff_base : ℕ
  pub backoff_max : ℕ

unfoldable pub with_defaults : Config → Settings
unfolding positive_or
with_defaults c = record {
  mode = if c.mode == "" then "once" else c.mode;
  tenant_id = if c.tenant_id == "" then "tenant_demo" else c.tenant_id;
  sync_interval = positive_or c.sync_interval 60_000_000_000;
  drift_check_interval = positive_or c.drift_check_interval 300_000_000_000;
  backoff_base = positive_or c.backoff_base 500_000_000;
  backoff_max = positive_or c.backoff_max 30_000_000_000;
}

-- An int64 is its bit pattern, a number below 2 ^ 64.
abbrev pub is_negative : ℕ → Bool
is_negative d = leb (2 ^ 63) d

-- `for i := 1; i < attempt && d < max; i++ { d *= 2 }`, for the rounds left.
unfoldable pub doubled : ℕ → ℕ → ℕ → ℕ
doubled zero max d = d
doubled (suc rounds) max d =
    let rest = doubled rounds max (d * 2 % 2 ^ 64) in if is_negative d || ltb d max then rest else d

-- The delay before the jitter.
unfoldable pub full_delay : ℕ → ℕ → ℕ → ℕ
unfolding doubled
full_delay base max attempt =
    let d = doubled (attempt - 1) max base in
    let capped = if is_negative d || leb d max then d else max in
    if is_negative capped || nat_beq capped 0 then base else capped

-- `int63n n` is `rand.Int63n(n)`.
unfoldable pub backoff_delay : (ℕ → ℕ) → ℕ → ℕ → ℕ → ℕ
unfolding full_delay
backoff_delay int63n base max attempt =
    let half = full_delay base max attempt / 2 in half + int63n (half + 1)

-- How `withRetry` has ended: with nil or with the context's error, and the state it left. While it
-- goes on, the tries that are followed may run out.
pub data Ended (S : Type 0) : Type 0 where
  succeeded cancelled going_on : S → Ended S

abbrev pub state_of : {S : Type 0} → Ended S → S
state_of (succeeded s) = s
state_of (cancelled s) = s
state_of (going_on s) = s

-- `op i` is the try number `i` with its success, and `done i` says that the context has ended when
-- it is looked at after that try, before the wait or in it.
module _ {S : Type 0} (op : ℕ → S → S × Bool) (done : ℕ → Bool) where
  unfoldable pub with_retry : ℕ → ℕ → S → Ended S
  with_retry zero i s = going_on s
  with_retry (suc fuel) i s =
      let (s', success) = op i s in
      let rest = with_retry fuel (suc i) s' in
      if success then succeeded s' else if done i then cancelled s' else rest

-- What the environment does in one call of `withRetry`: the snapshot that a try gets, when the
-- context ends, and how many tries are followed.
pub record Tries : Type 0 where
  pub snapshots : ℕ → Result PermissionSet
  pub done : ℕ → Bool
  pub fuel : ℕ

abbrev pub is_ok {ℓ} : {A : Type ℓ} → Result A → Bool
is_ok (ok a) = true
is_ok (err e) = false

abbrev pub is_none {ℓ} : {A : Type ℓ} → Option A → Bool
is_none none = true
is_none (some a) = false

module _ (sink : TupleSink) (allow_empty_destructive : Bool) (tenant : String) where
  open sink use {Store}

  unfoldable pub sync_try : Tries → ℕ → Store → Store × Bool
  sync_try tries i s =
      let (s', result) =
        sync_to_open_fga sink allow_empty_destructive (tries.snapshots i) s tenant in
      (s', is_ok result)

  unfoldable pub reconcile : Tries → Store → Ended Store
  unfolding sync_try
  reconcile tries = with_retry (sync_try tries) tries.done tries.fuel 0

  -- A try of `applyChange`: an error of the write leaves the deletes undone.
  unfoldable pub change_try : List Tuple → List Tuple → ℕ → Store → Store × Bool
  change_try writes deletes i s =
      let (s1, write_error) = write_some sink s tenant writes in
      let (s2, delete_error) = delete_some sink s1 tenant deletes in
      if is_none write_error then (s2, is_none delete_error) else (s1, false)

  -- `applyChange`; without tuples there is nothing to do.
  unfoldable pub apply_tuples : Tries → List Tuple × List Tuple → Store → Ended Store
  unfolding change_try
  apply_tuples tries ([], []) s = succeeded s
  apply_tuples tries (writes, deletes) s =
      with_retry (change_try writes deletes) tries.done tries.fuel 0 s

  unfoldable pub apply_change : Tries → PermissionChange → Store → Ended Store
  unfolding apply_tuples
  apply_change tries c = apply_tuples tries (change_to_tuples c)

  -- `driftCheck`: the number of drift items that it reports, if detection succeeds.
  unfoldable pub drift_check : Result PermissionSet → Store → Option ℕ
  drift_check snapshot s = elim (detect_drift sink snapshot s tenant) [
    | err e ↦ none
    | ok report ↦ some (
        length report.source_missing_in_fga
        + length report.fga_extra_not_in_source
        + length report.documents_missing_in_fga
        + length report.orphaned_fga_documents)
  ]

  -- What the loop of `Run` receives.
  pub data Event : Type 0 where
    shutdown : Event
    change_received : Tries → PermissionChange → Event
    channel_closed : Event
    sync_tick : Tries → Event
    drift_tick : Result PermissionSet → Event

  pub data Stopped : Type 0 where
    returned : Stopped
    failed : String → Stopped
    interrupted : Stopped
    listening : Stopped
    trying : Stopped

  -- The loop of `Run`, for the events that come; `open_channel` says that `changes` is not nil, and
  -- from a nil channel nothing is received.
  unfoldable pub watch : Bool → List Event → Store → Store × Stopped
  watch open_channel [] s = (s, listening)
  watch open_channel (shutdown ∷ events) s = (s, returned)
  watch true (change_received tries c ∷ events) s =
      watch true events (state_of (apply_change tries c s))
  watch false (change_received tries c ∷ events) s = watch false events s
  watch open_channel (channel_closed ∷ events) s = watch false events s
  watch open_channel (sync_tick tries ∷ events) s =
      watch open_channel events (state_of (reconcile tries s))
  watch open_channel (drift_tick snapshot ∷ events) s = watch open_channel events s

  -- `Run` after the initial sync.
  unfoldable pub after_initial : String → Option String → List Event → Ended Store → Store × Stopped
  unfolding watch
  after_initial mode watch_error events (cancelled s) = (s, interrupted)
  after_initial mode watch_error events (going_on s) = (s, trying)
  after_initial mode watch_error events (succeeded s) =
      if mode == "once"
      then (s, returned)
      else elim watch_error [ some e ↦ (s, failed e) | none ↦ watch true events s ]

  -- `Run`; `watch_error` is the error of `WatchPermissionChanges`.
  unfoldable pub run : String → Tries → Option String → List Event → Store → Store × Stopped
  unfolding after_initial
  run mode initial watch_error events s =
      after_initial mode watch_error events (reconcile initial s)

  -- `RunOnce` sets the mode for the time of the call.
  unfoldable pub run_once : Tries → Option String → List Event → Store → Store × Stopped
  unfolding run
  run_once = run "once"
