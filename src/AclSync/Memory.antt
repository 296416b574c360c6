-- ===== src/AclSync/Memory.antt =====
-- `MemoryFGA` of aclsync/fga.go as the sink of the syncer, and what a synced store then answers.
use groundwork.Base.{
  String, ◌≡◌, ◌≢◌, refl, ◌↔◌, ◌⊎◌, inl, inr, Bool, true, not, ◌&&◌, ◌||◌, List, [], ◌∷◌, none, ok,
  ◌==◌, ==_refl, string_eq, if◌then◌else◌, contains, remove, contains-remove, Bool-cases, arith,
}
use text.Mathlib.TextEquality.{eq_iff}
use groundwork.AclSync.Model.{PermissionSet}
use groundwork.AclSync.Tuples.{Tuple, tuple_eq, user_ref, document_ref, permission_set_to_tuples}
use groundwork.AclSync.Fga.{
  MemoryFga, tenant_set, put_tenant, list_tuples, write_tuples, delete_tuples, remove_all, check,
}
use groundwork.AclSync.Access.{CanView, NoGroupLikeViewers}
use groundwork.AclSync.Access.Viewers.{check_set-iff-CanView}
use groundwork.AclSync.Sync.{TupleSink, SyncResult, sync_to_open_fga}
use groundwork.AclSync.Sync.Reconcile.{SetSink, contains-insert_all}
use groundwork.AclSync.Sync.Exact.{sync_to_open_fga-exact}

-- No operation of `MemoryFGA` fails.
abbrev pub memory_sink : TupleSink
memory_sink = record {
  Store = MemoryFga;
  list_tuples = λ m tenant. ok (list_tuples m tenant);
  write_tuples = λ m tenant ts. (write_tuples m tenant ts, none);
  delete_tuples = λ m tenant ts. (delete_tuples m tenant ts, none);
}

tenant_set-put_tenant :
    (a b : String) (set : List Tuple) (m : List (String × List Tuple))
    → tenant_set b (put_tenant a set m) ≡ (if b == a then set else tenant_set b m)
unfolding tenant_set put_tenant
tenant_set-put_tenant a b set [] = ground (arith, eq_iff a b, eq_iff b a)
tenant_set-put_tenant a b set ((t, old) ∷ m) =
    ground (arith, eq_iff a b, eq_iff b a, eq_iff t a, eq_iff t b, tenant_set-put_tenant a b set m)

contains-remove_all :
    (set ts : List Tuple) (x : Tuple)
    → contains (remove_all set ts) x ≡ (not (contains ts x) && contains set x)
unfolding remove_all contains
contains-remove_all set [] x = refl
contains-remove_all set (t ∷ ts) x =
    ground (arith, contains-remove_all (remove t set) ts x, contains-remove t x set)

abbrev pub memory_has : MemoryFga → String → Tuple → Bool
memory_has m tenant x = contains (list_tuples m tenant) x

pub memory_write_has :
    (m : MemoryFga) (tenant : String) (ts : List Tuple) (t : String) (x : Tuple)
    → memory_has (write_tuples m tenant ts) t x
      ≡ (if t == tenant then contains ts x || memory_has m t x else memory_has m t x)
unfolding list_tuples write_tuples
memory_write_has m tenant ts t x = elim (Bool-cases (t == tenant)) [
  | inl same ↦ rw (tenant_set-put_tenant, same, (eq_iff t tenant).0 same, contains-insert_all)
  | inr other ↦ rw (tenant_set-put_tenant, other)
]

pub memory_delete_has :
    (m : MemoryFga) (tenant : String) (ts : List Tuple) (t : String) (x : Tuple)
    → memory_has (delete_tuples m tenant ts) t x
      ≡ (if t == tenant then not (contains ts x) && memory_has m t x else memory_has m t x)
unfolding list_tuples delete_tuples
memory_delete_has m tenant ts t x = elim (Bool-cases (t == tenant)) [
  | inl same ↦ rw (tenant_set-put_tenant, same, (eq_iff t tenant).0 same, contains-remove_all)
  | inr other ↦ rw (tenant_set-put_tenant, other)
]

pub ok_inj : {xs ys : List Tuple} (x : Tuple) → ok xs ≡ ok ys → contains ys x ≡ contains xs x
ok_inj x e = ground arith

-- The in-memory store is a sink that keeps a set for each tenant.
abbrev pub memory_laws : SetSink memory_sink
memory_laws = record {
  has = memory_has;
  list_has = λ m tenant ts e x. ok_inj x e;
  write_has = λ m tenant ts _ t x. memory_write_has m tenant ts t x;
  delete_has = λ m tenant ts _ t x. memory_delete_has m tenant ts t x;
}

-- After a sync of the in-memory store, whose snapshot emits a tuple or that may delete everything
-- and in which no user viewer's reference ends in "#member": `Check` in the synced tenant lets a
-- user view a document exactly if the snapshot does. So a revoked grant is gone with the sync.
pub check_after_sync :
    (allow : Bool) (ps : PermissionSet) (m m' : MemoryFga) (tenant : String) (r : SyncResult)
    (u id : String)
    → sync_to_open_fga memory_sink allow (ok ps) m tenant ≡ (m', ok r)
    → (permission_set_to_tuples ps ≢ []) ⊎ (allow ≡ true)
    → NoGroupLikeViewers ps
    → (check m' tenant (user_ref u) "viewer" (document_ref id) ≡ true) ↔ CanView ps u id
unfolding check
check_after_sync allow ps m m' tenant r u id success effective plain =
    check_set-iff-CanView ps (list_tuples m' tenant) u id
      (λ x. ground (
        arith,
        sync_to_open_fga-exact memory_sink memory_laws allow ps m m' tenant r success effective
            tenant x,
        ==_refl tenant,
      ))
      plain
