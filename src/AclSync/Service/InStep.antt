-- ===== src/AclSync/Service/InStep.antt =====
-- A service that listens to the source's events keeps its sink in step with the source, whatever the
-- order in which the source changes, events are sent and received and full syncs read and write.
use groundwork.Base.{
  String, ◌<◌, ◌≡◌, ◌≢◌, refl, sym, ap, subst, ◌∙◌, Bool, true, false, List, [], ◌∷◌, ◌++◌, map,
  length, arith, none, some, ◌⊎◌, ok, ==_refl, string_eq, contains,
}
use groundwork.AclSync.Model.{PermissionChange, PermissionSet}
use groundwork.AclSync.Tuples.{Tuple, tuple_eq, permission_set_to_tuples}
use groundwork.AclSync.Sync.{TupleSink, SyncResult, sync_to_open_fga}
use groundwork.AclSync.Sync.Reconcile.{SetSink}
use groundwork.AclSync.Sync.Exact.{sync_to_open_fga-exact}
use groundwork.AclSync.MockConnector.{snapshot, revoke_member, add_member, emit}
use groundwork.AclSync.MockConnector.Changes.{membership}
use groundwork.AclSync.Service.{succeeded, Tries, apply_change}
use groundwork.AclSync.Service.Following.{Local, settle, apply_change-Settled}
use groundwork.AclSync.Service.Channel.{
  final, final_fixed, touched, Apart, Apart-middle, Apart-append,
}
use groundwork.AclSync.Service.World.{
  World, Step, Quiet, revokes, adds, sends, receives, reads, fails, syncs, Reach, here, then_step,
}
use groundwork.AclSync.Service.Sent.{
  grants, settle-revoke, settle-add, touches-revoke, touches-add, emit_room, final_further,
  final_sent,
}

module _ (sink : TupleSink) (laws : SetSink sink) (local : Local sink laws) (allow : Bool)
    (tenant : String) where
  -- Whether the sink holds a tuple, or will when the full sync that goes on has ended.
  abbrev held : World sink allow tenant → Tuple → Bool
  held w x = elim w.syncing [
    | none ↦ laws.has w.store tenant x
    | some ps ↦ contains (permission_set_to_tuples ps) x
  ]

  -- What the events in the channel and on their way make of that is what the source grants.
  pub InStep : World sink allow tenant → Type 0
  InStep w =
      Apart w.sending
      × ((x : Tuple) → final (w.source.changes ++ w.sending) x (held w x) ≡ grants w.source x)

  InStep-revokes :
      (w : World sink allow tenant) (group user : String)
      → touched w.sending (membership group user) ≡ false
      → InStep w
      → InStep (record w {
        source = (revoke_member w.source group user).0;
        sending = w.sending ++ (revoke_member w.source group user).1 ∷ [];
      })
  unfolding InStep revoke_member
  InStep-revokes w group user free h =
      let c = (revoke_member w.source group user).1 in
      (
        Apart-append w.sending c
            (λ x met.
              ap (touched w.sending) (sym (touches-revoke w.source group user x met)) ∙ free)
            h.0,
        λ x.
            final_further w.source.changes w.sending c x (held w x)
            ∙ ap (settle c x) (h.1 x)
            ∙ settle-revoke w.source group user x,
      )

  InStep-adds :
      (w : World sink allow tenant) (group user : String)
      → touched w.sending (membership group user) ≡ false
      → contains (map (λ g. g.id) w.source.permissions.groups) group ≡ true
      → InStep w
      → InStep (record w {
        source = (add_member w.source group user).0;
        sending = w.sending ++ (add_member w.source group user).1 ∷ [];
      })
  unfolding InStep add_member
  InStep-adds w group user free exists h =
      let c = (add_member w.source group user).1 in
      (
        Apart-append w.sending c
            (λ x met. ap (touched w.sending) (sym (touches-add w.source group user x met)) ∙ free)
            h.0,
        λ x.
            final_further w.source.changes w.sending c x (held w x)
            ∙ ap (settle c x) (h.1 x)
            ∙ settle-add w.source group user x exists,
      )

  InStep-sends :
      (w : World sink allow tenant) (before after : List PermissionChange) (c : PermissionChange)
      → w.sending ≡ before ++ c ∷ after
      → length w.source.changes < 64
      → InStep w
      → InStep (record w { source = emit c w.source; sending = before ++ after })
  unfolding InStep
  InStep-sends w before after c e room h =
      let apart = subst Apart e h.0 in
      let cs = w.source.changes in
      (
        Apart-middle before after c apart,
        λ x.
            ap (λ m. final (m.changes ++ (before ++ after)) x (held w x))
              (emit_room c w.source room)
            ∙ final_sent cs before after c x (held w x) apart
            ∙ sym (ap (λ ds. final (cs ++ ds) x (held w x)) e)
            ∙ h.1 x
            ∙ sym (ap (λ m. grants m x) (emit_room c w.source room)),
      )

  InStep-receives :
      (w : World sink allow tenant) (c : PermissionChange) (rest : List PermissionChange)
      (tries : Tries) (s' : sink.Store)
      → w.syncing ≡ none
      → w.source.changes ≡ c ∷ rest
      → apply_change sink allow tenant tries c w.store ≡ succeeded s'
      → InStep w
      → InStep (record w { source = record w.source { changes = rest }; store = s' })
  unfolding InStep final
  InStep-receives w c rest tries s' idle e done h = (
    h.0,
    λ x.
        let settled =
          apply_change-Settled sink laws local allow tenant tries c w.store s' done tenant x in
        let settled' : laws.has s' tenant x ≡ settle c x (laws.has w.store tenant x) =
          settled ∙ rw (==_refl tenant) refl in
        let next : final (rest ++ w.sending) x (settle c x (laws.has w.store tenant x))
            ≡ grants w.source x =
          rw (e, idle) at (h.1 x) in
        rw (idle, settled') next,
  )

  InStep-reads :
      (w : World sink allow tenant) (ps : PermissionSet)
      → snapshot w.source tenant ≡ ok ps
      → InStep w
      → InStep (record w { syncing = some ps })
  unfolding InStep snapshot
  InStep-reads w ps e h =
      let same : w.source.permissions ≡ ps = ground arith in
      (
        h.0,
        λ x.
            ap
              (λ q.
                final (w.source.changes ++ w.sending) x (contains (permission_set_to_tuples q) x))
              (sym same)
            ∙ final_fixed (w.source.changes ++ w.sending) x (held w x) (grants w.source x) (h.1 x),
      )

  InStep-fails :
      (w : World sink allow tenant) (ps : PermissionSet) (s' : sink.Store)
      → w.syncing ≡ some ps
      → InStep w
      → InStep (record w { store = s' })
  unfolding InStep
  InStep-fails w ps s' on h = (h.0, λ x. rw on (rw on at (h.1 x)))

  InStep-syncs :
      (w : World sink allow tenant) (ps : PermissionSet) (s' : sink.Store) (r : SyncResult)
      → w.syncing ≡ some ps
      → (permission_set_to_tuples ps ≢ []) ⊎ (allow ≡ true)
      → sync_to_open_fga sink allow (ok ps) w.store tenant ≡ (s', ok r)
      → InStep w
      → InStep (record w { store = s'; syncing = none })
  unfolding InStep
  InStep-syncs w ps s' r on filled done h = (
    h.0,
    λ x.
        let exact =
          sync_to_open_fga-exact sink laws allow ps w.store s' tenant r done filled tenant x in
        let exact' : laws.has s' tenant x ≡ contains (permission_set_to_tuples ps) x =
          exact ∙ rw (==_refl tenant) refl in
        rw exact' (rw on at (h.1 x)),
  )

  InStep-Step :
      {w w' : World sink allow tenant} → Step sink allow tenant w w' → InStep w → InStep w'
  InStep-Step (revokes w group user free) h = InStep-revokes w group user free h
  InStep-Step (adds w group user free exists) h = InStep-adds w group user free exists h
  InStep-Step (sends w before after c e room) h = InStep-sends w before after c e room h
  InStep-Step (receives w c rest tries s' idle e done) h =
      InStep-receives w c rest tries s' idle e done h
  InStep-Step (reads w ps e) h = InStep-reads w ps e h
  InStep-Step (fails w ps s' problem on failed) h = InStep-fails w ps s' on h
  InStep-Step (syncs w ps s' r on filled done) h = InStep-syncs w ps s' r on filled done h

  InStep-Reach :
      {w w' : World sink allow tenant} → InStep w → Reach sink allow tenant w w' → InStep w'
  InStep-Reach h here = h
  InStep-Reach h (then_step before step) = InStep-Step step (InStep-Reach h before)

  -- For a sink that keeps a set of tuples for each tenant, in which writes and deletes, also failed
  -- ones, touch only the tuples given. The source and the sink start quiet and with the same tuples.
  -- Memberships of existing groups are then revoked and added, and the events about them are sent
  -- later, while the channel has room; no membership is changed between an earlier change of it and
  -- the sending of that change's event. Events are received and applied until that succeeds, and
  -- full syncs that may delete read a snapshot and push it, as often as it takes. In whatever order
  -- these steps come: when all is quiet again, the sink holds for the tenant exactly the tuples of
  -- the source as it is then.
  pub follows_source :
      {w w' : World sink allow tenant}
      → Quiet sink allow tenant w
      → ((x : Tuple)
          → laws.has w.store tenant x ≡ contains (permission_set_to_tuples w.source.permissions) x)
      → Reach sink allow tenant w w'
      → Quiet sink allow tenant w'
      → (x : Tuple)
      → laws.has w'.store tenant x ≡ contains (permission_set_to_tuples w'.source.permissions) x
  unfolding InStep Quiet final Apart
  follows_source {w = w} {w' = w'} (empty, (unsent, idle)) start reach (empty', (unsent', idle'))
        x =
      let first : InStep w = (rw unsent tt, λ y. rw (empty, unsent, idle) (start y)) in
      rw (empty', unsent', idle') at ((InStep-Reach first reach).1 x)
