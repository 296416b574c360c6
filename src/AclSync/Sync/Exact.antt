-- ===== src/AclSync/Sync/Exact.antt =====
-- What a successful `SyncToOpenFGA` leaves in the sink, and what drift detection then reports.
use groundwork.Base.{
  String, ◌≡◌, ◌≢◌, refl, ◌∙◌, ap, ◌⊎◌, inl, inr, Bool, true, false, List, [], ◌∷◌, ok,
  Result-cases, ◌==◌, ==_refl, string_eq, if◌then◌else◌, contains, contains_head, Bool-cases, arith,
}
use groundwork.AclSync.Model.{PermissionSet}
use groundwork.AclSync.Tuples.{Tuple, tuple_eq, permission_set_to_tuples}
use groundwork.AclSync.Fga.{insert_all}
use groundwork.AclSync.Sync.{
  TupleSink, SyncResult, DriftReport, tuple_set, difference, deletions, write_some, delete_some,
  push, sync_to_open_fga, detect_drift,
}
use groundwork.AclSync.Sync.Reconcile.{
  SetSink, contains-tuple_set, contains-difference, tuple_set-pos, deletions_all, push_has,
}

-- A list with no members is empty.
pub eq-nil_of_contains : (xs : List Tuple) → ((x : Tuple) → contains xs x ≡ false) → xs ≡ []
eq-nil_of_contains [] h = refl
eq-nil_of_contains (y ∷ xs) h = absurd (cc (h y, contains_head y xs))

module _ (sink : TupleSink) (laws : SetSink sink) (allow : Bool) (ps : PermissionSet)
    (s s' : sink.Store) (tenant : String) (r : SyncResult)
    (success : sync_to_open_fga sink allow (ok ps) s tenant ≡ (s', ok r)) where
  abbrev desired : List Tuple
  desired = tuple_set (permission_set_to_tuples ps)

  synced :
      (current : List Tuple) × (sink.list_tuples s tenant ≡ ok current)
      × (push sink s tenant
            (difference desired (tuple_set current))
            (deletions allow desired (difference (tuple_set current) desired))
          ≡ (s', ok r))
  unfolding sync_to_open_fga
  synced = elim (Result-cases (sink.list_tuples s tenant)) [
    | inl (current, e) ↦ (current, e, rw (e, sync_to_open_fga) at success)
    | inr (problem, e) ↦ absurd (cc (rw (e, sync_to_open_fga) at success))
  ]

  abbrev CanDelete : Type 0
  CanDelete = (permission_set_to_tuples ps ≢ []) ⊎ (allow ≡ true)

  all_deleted : CanDelete → (extra : List Tuple) → deletions allow desired extra ≡ extra
  all_deleted (inl filled) extra =
      deletions_all allow desired extra (inl (tuple_set-pos (permission_set_to_tuples ps) filled))
  all_deleted (inr allowed) extra = deletions_all allow desired extra (inr allowed)

  exact_at :
      (current : List Tuple)
      → sink.list_tuples s tenant ≡ ok current
      → push sink s tenant
          (difference desired (tuple_set current))
          (difference (tuple_set current) desired)
        ≡ (s', ok r)
      → (t : String) (x : Tuple)
      → laws.has s' t x
        ≡ (if t == tenant then contains (permission_set_to_tuples ps) x else laws.has s t x)
  exact_at current listed pushed t x =
      let have = tuple_set current in
      let held = contains-tuple_set current x ∙ laws.list_has s tenant current listed x in
      let after =
        push_has sink laws s s' tenant (difference desired have) (difference have desired) r pushed
          t x in
      elim (Bool-cases (t == tenant)) [
        | inr other ↦ ground (arith, after)
        | inl same ↦ ground (
          arith,
          after,
          held,
          ap (λ (u : String). laws.has s u x) ((string_eq.equals_iff t tenant).0 same),
          contains-tuple_set (permission_set_to_tuples ps) x,
          contains-difference desired have x,
          contains-difference have desired x,
        )
      ]

  exact :
      CanDelete
      → (t : String) (x : Tuple)
      → laws.has s' t x
        ≡ (if t == tenant then contains (permission_set_to_tuples ps) x else laws.has s t x)
  exact effective t x =
      let (current, listed, pushed) = synced in
      exact_at current listed (rw (all_deleted effective) at pushed) t x

  -- With the tenant's set exactly the snapshot's, both differences are empty.
  pub same_differences :
      (current : List Tuple)
      → ((x : Tuple) → contains current x ≡ contains (permission_set_to_tuples ps) x)
      → (difference desired (tuple_set current) ≡ [])
        × (difference (tuple_set current) desired ≡ [])
  same_differences current same = (
    eq-nil_of_contains (difference desired (tuple_set current)) (λ x. ground (
      arith,
      same x,
      contains-difference desired (tuple_set current) x,
      contains-tuple_set current x,
      contains-tuple_set (permission_set_to_tuples ps) x,
    )),
    eq-nil_of_contains (difference (tuple_set current) desired) (λ x. ground (
      arith,
      same x,
      contains-difference (tuple_set current) desired x,
      contains-tuple_set current x,
      contains-tuple_set (permission_set_to_tuples ps) x,
    )),
  )

  -- What the sink lists for the tenant after the sync.
  pub listed_after :
      CanDelete
      → (current : List Tuple) → sink.list_tuples s' tenant ≡ ok current
      → (x : Tuple) → contains current x ≡ contains (permission_set_to_tuples ps) x
  listed_after effective current listed x =
      ground
        (arith, laws.list_has s' tenant current listed x, exact effective tenant x, ==_refl tenant)

-- A push of nothing.
pushed_nothing :
    (sink : TupleSink) (s s' : sink.Store) (tenant : String) (w d : List Tuple) (r : SyncResult)
    → w ≡ []
    → d ≡ []
    → push sink s tenant w d ≡ (s', ok r)
    → (s' ≡ s) × (r.tuples_written ≡ 0) × (r.tuples_deleted ≡ 0)
unfolding push write_some delete_some
pushed_nothing sink s s' tenant w d r no_writes no_deletes h =
    let e = rw (no_writes, no_deletes) at h in ground arith

drift_parts :
    (sink : TupleSink) (ps : PermissionSet) (s : sink.Store) (tenant : String)
    (report : DriftReport)
    → detect_drift sink (ok ps) s tenant ≡ ok report
    → (current : List Tuple) × (sink.list_tuples s tenant ≡ ok current)
      × (report.source_missing_in_fga
          ≡ difference (tuple_set (permission_set_to_tuples ps)) (tuple_set current))
      × (report.fga_extra_not_in_source
          ≡ difference (tuple_set current) (tuple_set (permission_set_to_tuples ps)))
unfolding detect_drift
drift_parts sink ps s tenant report h = elim (Result-cases (sink.list_tuples s tenant)) [
  | inl (current, e) ↦
      let found = rw (e, detect_drift) at h in (current, e, ground arith, ground arith)
  | inr (problem, e) ↦ absurd (cc (rw (e, detect_drift) at h))
]

-- For any sink that keeps a set of tuples for each tenant: after a successful sync whose snapshot
-- emits a tuple, or that may delete on an empty snapshot, the sink holds for the synced tenant
-- exactly the snapshot's tuples, and for every other tenant what it held before.
pub sync_to_open_fga-exact :
    (sink : TupleSink) (laws : SetSink sink) (allow : Bool) (ps : PermissionSet) (s s' : sink.Store)
    (tenant : String) (r : SyncResult)
    → sync_to_open_fga sink allow (ok ps) s tenant ≡ (s', ok r)
    → (permission_set_to_tuples ps ≢ []) ⊎ (allow ≡ true)
    → (t : String) (x : Tuple)
    → laws.has s' t x
      ≡ (if t == tenant then contains (permission_set_to_tuples ps) x else laws.has s t x)
sync_to_open_fga-exact = exact

no_deletions : (to_delete : List Tuple) → deletions false [] to_delete ≡ []
unfolding deletions
no_deletions [] = refl
no_deletions (t ∷ ts) = ground arith

-- A sync whose snapshot emits no tuple, where deleting on an empty snapshot is not allowed, writes
-- nothing and deletes nothing: when it succeeds, the sink holds what it held, for every tenant, and
-- both counts are 0.
pub sync_to_open_fga_keeps :
    (sink : TupleSink) (laws : SetSink sink) (ps : PermissionSet) (s s' : sink.Store)
    (tenant : String) (r : SyncResult)
    → sync_to_open_fga sink false (ok ps) s tenant ≡ (s', ok r)
    → permission_set_to_tuples ps ≡ []
    → (s' ≡ s) × (r.tuples_written ≡ 0) × (r.tuples_deleted ≡ 0)
unfolding difference tuple_set insert_all
sync_to_open_fga_keeps sink laws ps s s' tenant r success empty =
    let (current, listed, pushed) = synced sink laws false ps s s' tenant r success in
    pushed_nothing sink s s' tenant _ _ r (rw (empty, tuple_set, insert_all))
      (rw empty (no_deletions _)) pushed

-- A second sync with the same snapshot, right after a first one that succeeded and could delete,
-- writes no tuple and deletes none.
pub sync_to_open_fga_idem :
    (sink : TupleSink) (laws : SetSink sink) (allow : Bool) (ps : PermissionSet)
    (s s' s'' : sink.Store) (tenant : String) (r r' : SyncResult)
    → sync_to_open_fga sink allow (ok ps) s tenant ≡ (s', ok r)
    → (permission_set_to_tuples ps ≢ []) ⊎ (allow ≡ true)
    → sync_to_open_fga sink allow (ok ps) s' tenant ≡ (s'', ok r')
    → (s'' ≡ s') × (r'.tuples_written ≡ 0) × (r'.tuples_deleted ≡ 0)
sync_to_open_fga_idem sink laws allow ps s s' s'' tenant r r' first effective second =
    let (current, listed, pushed) = synced sink laws allow ps s' s'' tenant r' second in
    let (no_writes, no_deletes) =
      same_differences sink laws allow ps s s' tenant r first current
        (listed_after sink laws allow ps s s' tenant r first effective current listed) in
    pushed_nothing sink s' s'' tenant _ _ r' no_writes
      (all_deleted sink laws allow ps s s' tenant r first effective _ ∙ no_deletes) pushed

-- Drift detection right after a successful sync that could delete reports no tuple that is missing
-- from the sink and no tuple that the source does not grant.
pub detect_drift_after_sync :
    (sink : TupleSink) (laws : SetSink sink) (allow : Bool) (ps : PermissionSet) (s s' : sink.Store)
    (tenant : String) (r : SyncResult) (report : DriftReport)
    → sync_to_open_fga sink allow (ok ps) s tenant ≡ (s', ok r)
    → (permission_set_to_tuples ps ≢ []) ⊎ (allow ≡ true)
    → detect_drift sink (ok ps) s' tenant ≡ ok report
    → (report.source_missing_in_fga ≡ []) × (report.fga_extra_not_in_source ≡ [])
detect_drift_after_sync sink laws allow ps s s' tenant r report success effective reported =
    let (current, listed, missing, extra) = drift_parts sink ps s' tenant report reported in
    let (no_missing, no_extra) =
      same_differences sink laws allow ps s s' tenant r success current
        (listed_after sink laws allow ps s s' tenant r success effective current listed) in
    (missing ∙ no_missing, extra ∙ no_extra)
