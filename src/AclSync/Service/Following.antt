-- ===== src/AclSync/Service/Following.antt =====
-- A sink that follows a changing source: events are applied one by one in the order of the channel,
-- and full syncs come between.
use groundwork.Base.{
  ℕ, String, ◌+◌, ◌≡◌, refl, sym, ap, subst, ◌∙◌, Bool, true, false, ◌&&◌, List, [], ◌∷◌, Option,
  none, some, arith, if◌then◌else◌, ◌==◌, string_eq, contains,
}
use groundwork.AclSync.Model.{
  ChangeType, PermissionChange, add_group_member, revoke_group_member, revoke_folder_viewer,
  revoke_document_viewer, other_change,
}
use groundwork.AclSync.Tuples.{Tuple, tuple, tuple_eq}
use groundwork.AclSync.Sync.{TupleSink, write_some, delete_some}
use groundwork.AclSync.Sync.Reconcile.{SetSink}
use groundwork.AclSync.Change.{change_of_type, change_to_tuples}
use groundwork.AclSync.Service.{
  succeeded, with_retry, state_of, Tries, change_try, apply_tuples, apply_change, is_none,
}
use groundwork.AclSync.Service.Retry.{tried, succeeded_try, tried_keeps}

-- A write or a delete, also one that fails, touches no tuple but those that it is given, in the
-- tenant that it is given.
pub record Local (sink : TupleSink) (laws : SetSink sink) : Type 0 where
  pub write_keeps :
      (s : sink.Store) (tenant : String) (ts : List Tuple) (t : String) (x : Tuple)
      → (t == tenant && contains ts x) ≡ false
      → laws.has (sink.write_tuples s tenant ts).0 t x ≡ laws.has s t x
  pub delete_keeps :
      (s : sink.Store) (tenant : String) (ts : List Tuple) (t : String) (x : Tuple)
      → (t == tenant && contains ts x) ≡ false
      → laws.has (sink.delete_tuples s tenant ts).0 t x ≡ laws.has s t x

module _ (sink : TupleSink) (laws : SetSink sink) (allow : Bool) (tenant : String) where
  open sink use {Store}

  -- The sink with one tuple written, or deleted.
  pub Wrote : Tuple → Store → Store → Type 0
  Wrote u s s' =
      (t : String) (x : Tuple)
      → laws.has s' t x ≡ (if t == tenant && u == x then true else laws.has s t x)

  pub Deleted : Tuple → Store → Store → Type 0
  Deleted u s s' =
      (t : String) (x : Tuple)
      → laws.has s' t x ≡ (if t == tenant && u == x then false else laws.has s t x)

  -- Nothing but the tuple has been touched.
  Untouched : Tuple → Store → Store → Type 0
  Untouched u s s' =
      (t : String) (x : Tuple) → (t == tenant && u == x) ≡ false → laws.has s' t x ≡ laws.has s t x

  change_try_write :
      (u : Tuple) (i : ℕ) (s : Store)
      → change_try sink allow tenant (u ∷ []) [] i s
        ≡ ((sink.write_tuples s tenant (u ∷ [])).0, is_none (sink.write_tuples s tenant (u ∷ [])).1)
  unfolding change_try write_some delete_some
  change_try_write u i s = ground arith

  change_try_delete :
      (u : Tuple) (i : ℕ) (s : Store)
      → change_try sink allow tenant [] (u ∷ []) i s ≡ (
        (sink.delete_tuples s tenant (u ∷ [])).0,
        is_none (sink.delete_tuples s tenant (u ∷ [])).1,
      )
  unfolding change_try write_some delete_some
  change_try_delete u i s = refl

  one : (u x : Tuple) → contains (u ∷ []) x ≡ (u == x)
  unfolding contains
  one u x = ground arith

  none_of : (e : Option String) → is_none e ≡ true → e ≡ none
  none_of none h = refl
  none_of (some e) h = absurd (cc h)

  module _ (local : Local sink laws) where
    Untouched-write :
        (u : Tuple) (s0 : Store) (i : ℕ) (s : Store)
        → Untouched u s0 s
        → Untouched u s0 (change_try sink allow tenant (u ∷ []) [] i s).0
    unfolding Untouched
    Untouched-write u s0 i s same t x other =
        ap (λ r. laws.has r.0 t x) (change_try_write u i s)
        ∙ local.write_keeps s tenant (u ∷ []) t x (ap (λ b. t == tenant && b) (one u x) ∙ other)
        ∙ same t x other

    Untouched-delete :
        (u : Tuple) (s0 : Store) (i : ℕ) (s : Store)
        → Untouched u s0 s
        → Untouched u s0 (change_try sink allow tenant [] (u ∷ []) i s).0
    unfolding Untouched
    Untouched-delete u s0 i s same t x other =
        ap (λ r. laws.has r.0 t x) (change_try_delete u i s)
        ∙ local.delete_keeps s tenant (u ∷ []) t x (ap (λ b. t == tenant && b) (one u x) ∙ other)
        ∙ same t x other

    Wrote-try :
        (u : Tuple) (s0 : Store) (i : ℕ) (s : Store)
        → Untouched u s0 s
        → (change_try sink allow tenant (u ∷ []) [] i s).1 ≡ true
        → Wrote u s0 (change_try sink allow tenant (u ∷ []) [] i s).0
    unfolding Wrote Untouched
    Wrote-try u s0 i s same success t x =
        let done =
          none_of (sink.write_tuples s tenant (u ∷ [])).1
            (sym (ap (λ r. r.1) (change_try_write u i s)) ∙ success) in
        ap (λ r. laws.has r.0 t x) (change_try_write u i s)
        ∙ ground (arith, laws.write_has s tenant (u ∷ []) done t x, one u x, same t x)

    Deleted-try :
        (u : Tuple) (s0 : Store) (i : ℕ) (s : Store)
        → Untouched u s0 s
        → (change_try sink allow tenant [] (u ∷ []) i s).1 ≡ true
        → Deleted u s0 (change_try sink allow tenant [] (u ∷ []) i s).0
    unfolding Deleted Untouched
    Deleted-try u s0 i s same success t x =
        let done =
          none_of (sink.delete_tuples s tenant (u ∷ [])).1
            (sym (ap (λ r. r.1) (change_try_delete u i s)) ∙ success) in
        ap (λ r. laws.has r.0 t x) (change_try_delete u i s)
        ∙ ground (arith, laws.delete_has s tenant (u ∷ []) done t x, one u x, same t x)

    -- Retried until it succeeds, a write or a delete of one tuple has happened exactly once.
    Wrote-retry :
        (u : Tuple) (done : ℕ → Bool) (fuel : ℕ) (s s' : Store)
        → with_retry (change_try sink allow tenant (u ∷ []) []) done fuel 0 s ≡ succeeded s'
        → Wrote u s s'
    unfolding Untouched
    Wrote-retry u done fuel s s' h =
        let op = change_try sink allow tenant (u ∷ []) [] in
        let (n, success, same) = succeeded_try op done fuel 0 s s' h in
        subst (Wrote u s) (sym same) (
          Wrote-try u s (0 + n) (tried op done n 0 s)
            (tried_keeps op done (Untouched u s) (Untouched-write u s) n 0 s (λ t x other. refl))
            success)

    Deleted-retry :
        (u : Tuple) (done : ℕ → Bool) (fuel : ℕ) (s s' : Store)
        → with_retry (change_try sink allow tenant [] (u ∷ [])) done fuel 0 s ≡ succeeded s'
        → Deleted u s s'
    unfolding Untouched
    Deleted-retry u done fuel s s' h =
        let op = change_try sink allow tenant [] (u ∷ []) in
        let (n, success, same) = succeeded_try op done fuel 0 s s' h in
        subst (Deleted u s) (sym same) (
          Deleted-try u s (0 + n) (tried op done n 0 s)
            (tried_keeps op done (Untouched u s) (Untouched-delete u s) n 0 s (λ t x other. refl))
            success)

-- A change's effect on whether one tuple is held.
unfoldable pub settle : PermissionChange → Tuple → Bool → Bool
settle c x b =
    let (writes, deletes) = change_to_tuples c in
    if contains deletes x then false else if contains writes x then true else b

module _ (sink : TupleSink) (laws : SetSink sink) (local : Local sink laws) (allow : Bool)
    (tenant : String) where
  open sink use {Store}

  Settled : PermissionChange → Store → Store → Type 0
  Settled c s s' =
      (t : String) (x : Tuple)
      → laws.has s' t x ≡ (if t == tenant then settle c x (laws.has s t x) else laws.has s t x)

  Settled-write :
      (c : PermissionChange) (u : Tuple) (tries : Tries) (s s' : Store)
      → change_to_tuples c ≡ (u ∷ [], [])
      → apply_change sink allow tenant tries c s ≡ succeeded s'
      → Settled c s s'
  unfolding apply_change apply_tuples settle Wrote Settled contains
  Settled-write c u tries s s' e h t x =
      let written =
        Wrote-retry sink laws allow tenant local u tries.done tries.fuel s s'
          (rw (e, apply_change) at h) t x in
      rw e (ground (arith, written))

  Settled-delete :
      (c : PermissionChange) (u : Tuple) (tries : Tries) (s s' : Store)
      → change_to_tuples c ≡ ([], u ∷ [])
      → apply_change sink allow tenant tries c s ≡ succeeded s'
      → Settled c s s'
  unfolding apply_change apply_tuples settle Deleted Settled contains
  Settled-delete c u tries s s' e h t x =
      let deleted =
        Deleted-retry sink laws allow tenant local u tries.done tries.fuel s s'
          (rw (e, apply_change) at h) t x in
      rw e (ground (arith, deleted))

  Settled-nothing :
      (c : PermissionChange) (tries : Tries) (s s' : Store)
      → change_to_tuples c ≡ ([], [])
      → apply_change sink allow tenant tries c s ≡ succeeded s'
      → Settled c s s'
  unfolding apply_change apply_tuples settle Settled contains
  Settled-nothing c tries s s' e h t x =
      let same : succeeded s ≡ succeeded s' = rw (e, apply_change) at h in
      rw (e, settle) (ground (arith, ap (λ r. laws.has (state_of r) t x) same))

  Settled-type :
      (k : ChangeType) (c : PermissionChange) (tries : Tries) (s s' : Store)
      → change_to_tuples c ≡ change_of_type k c
      → apply_change sink allow tenant tries c s ≡ succeeded s'
      → Settled c s s'
  unfolding change_of_type
  Settled-type add_group_member c = Settled-write c (tuple c.subject "member" c.object)
  Settled-type revoke_group_member c = Settled-delete c (tuple c.subject "member" c.object)
  Settled-type revoke_folder_viewer c = Settled-delete c (tuple c.subject "viewer" c.object)
  Settled-type revoke_document_viewer c = Settled-delete c (tuple c.subject "viewer" c.object)
  Settled-type (other_change text) c = Settled-nothing c

  -- For a sink that keeps a set of tuples for each tenant, in which writes and deletes, also failed
  -- ones, touch only the tuples given: if `applyChange` ends in success after any number of tries,
  -- the sink holds for the tenant what the change's tuples make of what it held, and for every
  -- other tenant what it held.
  pub apply_change-Settled :
      (tries : Tries) (c : PermissionChange) (s s' : Store)
      → apply_change sink allow tenant tries c s ≡ succeeded s'
      → (t : String) (x : Tuple)
      → laws.has s' t x ≡ (if t == tenant then settle c x (laws.has s t x) else laws.has s t x)
  unfolding Settled change_to_tuples
  apply_change-Settled tries c s s' h = Settled-type c.change_type c tries s s' refl h
