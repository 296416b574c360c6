-- ===== src/AclSync/Service/World.antt =====
-- The source's callers, its channel and the service's loop, as the steps that they take in any
-- order. A method of the source unlocks before it sends its event, and a full sync reads its
-- snapshot before it writes, so that other steps come between.
use groundwork.Base.{
  String, ◌<◌, ◌≡◌, ◌≢◌, Bool, true, false, List, [], ◌∷◌, ◌++◌, map, length, Option, none, some,
  ◌⊎◌, ok, err, contains, string_eq,
}
use groundwork.AclSync.Model.{PermissionChange, PermissionSet}
use groundwork.AclSync.Tuples.{permission_set_to_tuples}
use groundwork.AclSync.Sync.{TupleSink, SyncResult, sync_to_open_fga}
use groundwork.AclSync.MockConnector.{MockConnector, snapshot, revoke_member, add_member, emit}
use groundwork.AclSync.MockConnector.Changes.{membership}
use groundwork.AclSync.Service.{succeeded, Tries, apply_change}
use groundwork.AclSync.Service.Channel.{touched}

module _ (sink : TupleSink) (allow : Bool) (tenant : String) where
  open sink use {Store}

  -- The source, the events of the calls that have unlocked and not sent yet, the sink, and the
  -- snapshot of the full sync that goes on, if one does.
  pub record World : Type 0 where
    pub source : MockConnector
    pub sending : List PermissionChange
    pub store : Store
    pub syncing : Option PermissionSet

  -- No event waits or is on its way, and no full sync goes on.
  unfoldable pub Quiet : World → Type 0
  Quiet w = (w.source.changes ≡ []) × ((w.sending ≡ []) × (w.syncing ≡ none))

  -- A membership is changed while no other call about it is between its unlocking and its sending,
  -- and is given in a group that exists; an event finds room in the channel. The service receives
  -- no event during a full sync, and its work on an event ends in success, after any number of
  -- tries. A full sync reads a snapshot and pushes it, and does both again when the push fails.
  pub data Step : World → World → Type 0 where
    revokes :
        (w : World) (group user : String)
        → touched w.sending (membership group user) ≡ false
        → Step w (record w {
          source = (revoke_member w.source group user).0;
          sending = w.sending ++ (revoke_member w.source group user).1 ∷ [];
        })
    adds :
        (w : World) (group user : String)
        → touched w.sending (membership group user) ≡ false
        → contains (map (λ g. g.id) w.source.permissions.groups) group ≡ true
        → Step w (record w {
          source = (add_member w.source group user).0;
          sending = w.sending ++ (add_member w.source group user).1 ∷ [];
        })
    sends :
        (w : World) (before after : List PermissionChange) (c : PermissionChange)
        → w.sending ≡ before ++ c ∷ after
        → length w.source.changes < 64
        → Step w (record w { source = emit c w.source; sending = before ++ after })
    receives :
        (w : World) (c : PermissionChange) (rest : List PermissionChange) (tries : Tries)
        (s' : Store)
        → w.syncing ≡ none
        → w.source.changes ≡ c ∷ rest
        → apply_change sink allow tenant tries c w.store ≡ succeeded s'
        → Step w (record w { source = record w.source { changes = rest }; store = s' })
    reads :
        (w : World) (ps : PermissionSet)
        → snapshot w.source tenant ≡ ok ps
        → Step w (record w { syncing = some ps })
    fails :
        (w : World) (ps : PermissionSet) (s' : Store) (problem : String)
        → w.syncing ≡ some ps
        → sync_to_open_fga sink allow (ok ps) w.store tenant ≡ (s', err problem)
        → Step w (record w { store = s' })
    syncs :
        (w : World) (ps : PermissionSet) (s' : Store) (r : SyncResult)
        → w.syncing ≡ some ps
        → (permission_set_to_tuples ps ≢ []) ⊎ (allow ≡ true)
        → sync_to_open_fga sink allow (ok ps) w.store tenant ≡ (s', ok r)
        → Step w (record w { store = s'; syncing = none })

  pub data Reach (start : World) : World → Type 0 where
    here : Reach start start
    then_step : {w w' : World} → Reach start w → Step w w' → Reach start w'
