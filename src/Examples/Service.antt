-- ===== src/Examples/Service.antt =====
-- The sync service on the store in memory, and its retries.
use mathlib.Core.List.{flat_map}
use Prim.Native.Nat.{min}
use groundwork.Base.{
  ℕ, ◌+◌, ◌-◌, ◌*◌, ◌/◌, ◌^◌, ◌≤◌, String, ◌≡◌, ◌≢◌, refl, Bool, true, false, ◌&&◌, List, [], ◌∷◌,
  inl, ◌==◌, nat_eq, string_eq, if◌then◌else◌, contains, err, arith, none, length, ◌<◌,
}
use groundwork.AclSync.Model.{PermissionChange, add_group_member}
use groundwork.AclSync.Tuples.{
  Tuple, tuple, tuple_eq, user_ref, group_ref, group_tuples, dedupe_from, dedupe_tuples,
  permission_set_to_tuples,
}
use groundwork.AclSync.Fga.{
  MemoryFga, new_memory_fga, tenant_set, list_tuples, write_tuples, delete_tuples,
}
use groundwork.AclSync.Sync.{write_some, delete_some}
use groundwork.AclSync.Memory.{
  memory_sink, memory_laws, memory_has, memory_write_has, memory_delete_has,
}
use groundwork.AclSync.Change.{change_of_type, change_to_tuples}
use groundwork.AclSync.MockConnector.{MockConnector, add_member, emit}
use groundwork.AclSync.Service.{
  succeeded, going_on, with_retry, Tries, change_try, apply_tuples, apply_change, backoff_delay,
}
use groundwork.AclSync.Service.Backoff.{backoff_delay_bounds}
use groundwork.AclSync.Service.Retry.{with_retry_ends}
use groundwork.AclSync.Service.Following.{Local, settle, apply_change-Settled}
use groundwork.AclSync.Service.Channel.{touched}
use groundwork.AclSync.Service.World.{World, Quiet, adds, sends, receives, Reach, here, then_step}
use groundwork.AclSync.Service.InStep.{follows_source}

backoff_delay_bounds_example :
    (min (500 * 2 ^ (3 - 1)) 30_000 / 2 ≤ backoff_delay (λ n. n - 1) 500 30_000 3)
    × (backoff_delay (λ n. n - 1) 500 30_000 3 ≤ min (500 * 2 ^ (3 - 1)) 30_000)
backoff_delay_bounds_example =
    backoff_delay_bounds (λ n. n - 1) 500 30_000 3 (λ n positive. omega (arith, positive))
      (omega arith) (omega arith) (omega arith) (omega arith)

-- It succeeds at the third try.
abbrev third : ℕ → ℕ → ℕ × Bool
third i s = (s + 1, i == 2)

abbrev never : ℕ → Bool
never i = false

with_retry_ends_example : with_retry third never 5 0 0 ≢ going_on 3
with_retry_ends_example = with_retry_ends third never 2 5 0 0 3 (omega arith) (inl refl)

write_keeps :
    (m : MemoryFga) (tenant : String) (ts : List Tuple) (t : String) (x : Tuple)
    → (t == tenant && contains ts x) ≡ false
    → memory_has (write_tuples m tenant ts) t x ≡ memory_has m t x
write_keeps m tenant ts t x h = ground (arith, memory_write_has m tenant ts t x)

delete_keeps :
    (m : MemoryFga) (tenant : String) (ts : List Tuple) (t : String) (x : Tuple)
    → (t == tenant && contains ts x) ≡ false
    → memory_has (delete_tuples m tenant ts) t x ≡ memory_has m t x
delete_keeps m tenant ts t x h = ground (arith, memory_delete_has m tenant ts t x)

-- The store in memory touches only the tuples given.
abbrev memory_local : Local memory_sink memory_laws
memory_local = record { write_keeps = write_keeps; delete_keeps = delete_keeps }

abbrev source : MockConnector
source = record {
  tenant = "acme";
  changes = [];
  permissions = record {
    tenant_id = "acme";
    users = "ann" ∷ [];
    groups = record { id = "eng"; member_users = []; member_groups = [] } ∷ [];
    folders = [];
    documents = [];
  };
}

abbrev once : Tries
once = record { snapshots = λ i. err "none asked for"; done = never; fuel = 1 }

abbrev joined : PermissionChange
joined = record { change_type = add_group_member; subject = "user:ann"; object = "group:eng" }

abbrev stored : MemoryFga
stored = write_tuples new_memory_fga "acme" (tuple "user:ann" "member" "group:eng" ∷ [])

applied : apply_change memory_sink false "acme" once joined new_memory_fga ≡ succeeded stored
unfolding apply_change apply_tuples with_retry change_try write_some delete_some change_to_tuples
    change_of_type
applied = refl

abbrev tenant : String
tenant = "acme"

abbrev ann_in_eng : Tuple
ann_in_eng = tuple "user:ann" "member" "group:eng"

apply_change-Settled_example : memory_has stored tenant ann_in_eng ≡ (
    if tenant == tenant
    then settle joined ann_in_eng (memory_has new_memory_fga tenant ann_in_eng)
    else memory_has new_memory_fga tenant ann_in_eng)
apply_change-Settled_example =
    apply_change-Settled memory_sink memory_laws memory_local false tenant once joined
      new_memory_fga stored applied tenant ann_in_eng

abbrev start : World memory_sink false "acme"
start = record { source = source; sending = []; store = new_memory_fga; syncing = none }

abbrev unlocked : World memory_sink false "acme"
unlocked = record start {
  source = (add_member source "eng" "ann").0;
  sending = (add_member source "eng" "ann").1 ∷ [];
}

abbrev waiting : World memory_sink false "acme"
waiting = record unlocked {
  source = emit (add_member source "eng" "ann").1 (add_member source "eng" "ann").0;
  sending = [];
}

abbrev drained : World memory_sink false "acme"
drained = record {
  source = record waiting.source { changes = [] };
  sending = [];
  store = stored;
  syncing = none;
}

abbrev eng : String
eng = "eng"

eng_exists : contains (eng ∷ []) eng ≡ true
unfolding contains
eng_exists = refl

one_waits : waiting.source.changes ≡ joined ∷ []
unfolding add_member emit user_ref group_ref
one_waits = refl

room : length unlocked.source.changes < 64
unfolding add_member
room = omega arith

reached : Reach memory_sink false "acme" start drained
unfolding touched
reached =
    then_step
      (then_step (then_step here (adds start "eng" "ann" refl eng_exists))
        (sends unlocked [] [] (add_member source "eng" "ann").1 refl room))
      (receives waiting joined [] once stored refl one_waits applied)

start-Quiet : Quiet memory_sink false "acme" start
unfolding Quiet
start-Quiet = (refl, (refl, refl))

drained-Quiet : Quiet memory_sink false "acme" drained
unfolding Quiet
drained-Quiet = (refl, (refl, refl))

nothing_held :
    (x : Tuple)
    → memory_has new_memory_fga "acme" x ≡ contains (permission_set_to_tuples source.permissions) x
unfolding list_tuples new_memory_fga tenant_set contains permission_set_to_tuples dedupe_tuples
    dedupe_from group_tuples flat_map
nothing_held x = refl

follows_source_example :
    memory_has stored tenant ann_in_eng
    ≡ contains (permission_set_to_tuples drained.source.permissions) ann_in_eng
follows_source_example =
    follows_source memory_sink memory_laws memory_local false tenant {w = start} {w' = drained}
      start-Quiet nothing_held reached drained-Quiet ann_in_eng
