-- ===== src/AclSync/Sync.antt =====
-- aclsync/sync.go: the reconciliation of a sink with a snapshot, and drift detection, for any sink.
pub mod Reconcile
pub mod Exact
use groundwork.Base.{
  ℕ, String, ◌≡◌, Bool, true, false, not, ◌&&◌, ◌||◌, List, [], ◌∷◌, Option, none, some, length,
  map, ltb, Result, ok, err, ◌==◌, string_eq, if◌then◌else◌, contains, insert, has_prefix,
}
use groundwork.AclSync.Model.{PermissionSet, Document}
use groundwork.AclSync.Tuples.{Tuple, tuple_eq, document_ref, permission_set_to_tuples}
use groundwork.AclSync.Fga.{insert_all}

-- `TupleSink`. A write or a delete hands back the store that it leaves, beside its error.
pub record TupleSink : Type 1 where
  pub Store : Type 0
  pub list_tuples : Store → String → Result (List Tuple)
  pub write_tuples : Store → String → List Tuple → Store × Option String
  pub delete_tuples : Store → String → List Tuple → Store × Option String

-- `DurationMs` is not modelled.
pub record SyncResult : Type 0 where
  pub tenant_id : String
  pub tuples_written : ℕ
  pub tuples_deleted : ℕ

pub record DriftReport : Type 0 where
  pub tenant_id : String
  pub source_missing_in_fga : List Tuple
  pub fga_extra_not_in_source : List Tuple
  pub documents_missing_in_fga : List String
  pub orphaned_fga_documents : List String

unfoldable pub has_drift : DriftReport → Bool
has_drift r =
    ltb 0 (length r.source_missing_in_fga)
    || ltb 0 (length r.fga_extra_not_in_source)
    || ltb 0 (length r.documents_missing_in_fga)
    || ltb 0 (length r.orphaned_fga_documents)

-- The keys of the map, each once.
unfoldable pub tuple_set : List Tuple → List Tuple
tuple_set ts = insert_all [] ts

unfoldable pub difference : List Tuple → List Tuple → List Tuple
difference [] b = []
difference (t ∷ a) b = let rest = difference a b in if contains b t then rest else t ∷ rest

-- `toDelete` after the safety check on an empty snapshot.
unfoldable pub deletions : Bool → List Tuple → List Tuple → List Tuple
deletions allow_empty_destructive desired to_delete =
    if ltb 0 (length to_delete) && not (ltb 0 (length desired)) && not allow_empty_destructive
    then []
    else to_delete

module _ (sink : TupleSink) where
  open sink use {Store, list_tuples, write_tuples, delete_tuples}

  -- `if len(toWrite) > 0 { ... }`, and the same for deletes.
  unfoldable pub write_some : Store → String → List Tuple → Store × Option String
  write_some s tenant [] = (s, none)
  write_some s tenant (t ∷ ts) = write_tuples s tenant (t ∷ ts)

  unfoldable pub delete_some : Store → String → List Tuple → Store × Option String
  delete_some s tenant [] = (s, none)
  delete_some s tenant (t ∷ ts) = delete_tuples s tenant (t ∷ ts)

  -- The two writes of `SyncToOpenFGA`; an error of the first leaves the deletes undone.
  unfoldable pub push : Store → String → List Tuple → List Tuple → Store × Result SyncResult
  push s tenant to_write to_delete =
      let (s1, write_error) = write_some s tenant to_write in
      elim write_error [
        | some e ↦ (s1, err e)
        | none ↦
            let (s2, delete_error) = delete_some s1 tenant to_delete in
            elim delete_error [
              | some e ↦ (s2, err e)
              | none ↦ (
                s2,
                ok (record {
                  tenant_id = tenant;
                  tuples_written = length to_write;
                  tuples_deleted = length to_delete;
                }),
              )
            ]
      ]

  -- `SyncToOpenFGA`, from the result of `Connector.Snapshot`.
  unfoldable pub sync_to_open_fga :
      Bool → Result PermissionSet → Store → String → Store × Result SyncResult
  sync_to_open_fga allow_empty_destructive (err e) s tenant = (s, err e)
  sync_to_open_fga allow_empty_destructive (ok ps) s tenant = elim (list_tuples s tenant) [
    | err e ↦ (s, err e)
    | ok current ↦
        let desired = tuple_set (permission_set_to_tuples ps) in
        let have = tuple_set current in
        push s tenant (difference desired have)
          (deletions allow_empty_destructive desired (difference have desired))
  ]

  unfoldable pub fga_documents : List Tuple → List String
  fga_documents [] = []
  fga_documents (t ∷ ts) =
      let rest = fga_documents ts in
      if has_prefix t.object "document:" then insert t.object rest else rest

  -- The keys of `from` that are not in `other`.
  unfoldable pub missing_from : List String → List String → List String
  missing_from [] other = []
  missing_from (d ∷ from) other =
      let rest = missing_from from other in if contains other d then rest else d ∷ rest

  unfoldable pub source_documents : List Document → List String
  source_documents [] = []
  source_documents (d ∷ ds) = insert (document_ref d.id) (source_documents ds)

  unfoldable pub detect_drift : Result PermissionSet → Store → String → Result DriftReport
  detect_drift (err e) s tenant = err e
  detect_drift (ok ps) s tenant = elim (list_tuples s tenant) [
    | err e ↦ err e
    | ok current ↦
        let desired = tuple_set (permission_set_to_tuples ps) in
        let have = tuple_set current in
        ok (record {
          tenant_id = tenant;
          source_missing_in_fga = difference desired have;
          fga_extra_not_in_source = difference have desired;
          documents_missing_in_fga =
              missing_from (source_documents ps.documents) (fga_documents have);
          orphaned_fga_documents =
              missing_from (fga_documents have) (source_documents ps.documents);
        })
  ]
