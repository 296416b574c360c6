-- ===== src/AclSync/MsGraph/Kept.antt =====
-- A canonical id that was recorded for a user key is kept.
use groundwork.Base.{
  ℕ, String, ◌≡◌, ap, List, [], ◌∷◌, Option, none, some, ◌⊎◌, inl, inr, ◌==◌, string_eq, Bool-cases,
  Option-cases,
}
use text.Mathlib.TextEquality.{eq_iff}
use groundwork.Runtime.Principal.{
  IdentityAssertion, Principal, ResolveError, identity_unresolved, other_error, PrincipalResolver,
  principal_user_id,
}
use groundwork.AclSync.MsGraph.{user_key}
use groundwork.AclSync.MsGraph.Canonical.{
  directory_assertions, ByUserKey, find_user_key, map_user_key, stored, settle, observe_asserted,
  observe,
}

-- A directory record, with the clock and the next random id when it is observed.
pub record Sighting : Type 0 where
  pub now : ℕ
  pub fresh : String
  pub mail : String
  pub upn : String
  pub id : String

-- Another key's entry in front changes nothing.
find_user_key-other :
    (m : ByUserKey) (uk k v w : String)
    → find_user_key m uk ≡ none
    → find_user_key m k ≡ some v
    → find_user_key ((uk, w) ∷ m) k ≡ some v
unfolding find_user_key
find_user_key-other m uk k v w absent h = elim (Bool-cases (uk == k)) [
  | inr e ↦ rw (e, find_user_key) h
  | inl e ↦ absurd (cc (absent, h, ap (find_user_key m) ((eq_iff uk k).0 e)))
]

module _ (resolver : PrincipalResolver) (tenant : String) where
  open resolver use {State}

  module _ (uk k v : String) (m : ByUserKey) (h : find_user_key m k ≡ some v)
      (absent : find_user_key m uk ≡ none) where
    stored-keeps :
        (assertions : List IdentityAssertion) (p : Principal) (s : State)
        → find_user_key (stored resolver tenant uk assertions p s m).0.1 k ≡ some v
    unfolding stored
    stored-keeps assertions p s =
        elim (Option-cases (resolver.upsert_aliases s tenant p assertions).1) [
          | inl e ↦ rw (e, stored) (find_user_key-other m uk k v (principal_user_id p.id) absent h)
          | inr (problem, e) ↦ rw (e, stored) h
        ]

    settle-keeps :
        (fresh : String) (assertions : List IdentityAssertion)
        (r : State × (ResolveError ⊎ Principal))
        → find_user_key (settle resolver tenant fresh uk assertions m r).0.1 k ≡ some v
    unfolding settle
    settle-keeps fresh assertions (s, inr p) = stored-keeps assertions p s
    settle-keeps fresh assertions (s, inl identity_unresolved) =
        stored-keeps assertions (record { id = fresh; tenant_id = tenant }) s
    settle-keeps fresh assertions (s, inl (other_error e)) = h

    observe_asserted-keeps :
        (now : ℕ) (fresh : String) (assertions : List IdentityAssertion) (s : State)
        → find_user_key (observe_asserted resolver tenant now fresh uk assertions s m).0.1 k
          ≡ some v
    unfolding observe_asserted
    observe_asserted-keeps now fresh [] s = h
    observe_asserted-keeps now fresh (a ∷ others) s =
        settle-keeps fresh (a ∷ others) (resolver.resolve s now tenant (a ∷ others))

  observe-keeps :
      (g : Sighting) (k v : String) (s : State) (m : ByUserKey)
      → find_user_key m k ≡ some v
      → find_user_key (observe resolver tenant g.now g.fresh g.mail g.upn g.id s m).0.1 k ≡ some v
  unfolding observe
  observe-keeps g k v s m h =
      let uk = user_key g.mail g.upn g.id in
      elim (Bool-cases (uk == "")) [
        | inl e ↦ rw (e, observe) h
        | inr e ↦ elim (Option-cases (find_user_key m uk)) [
          | inr (w, found) ↦ rw (e, found, observe) h
          | inl absent ↦
              rw (e, absent, observe)
                (observe_asserted-keeps uk k v m h absent g.now g.fresh
                  (directory_assertions g.mail g.upn g.id) s)
        ]
      ]

  -- The records of a snapshot in turn, up to the first error.
  unfoldable pub observe_all :
      List Sighting → State → ByUserKey → (State × ByUserKey) × Option String
  unfolding observe
  observe_all [] s m = ((s, m), none)
  observe_all (g ∷ gs) s m =
      let ((s', m'), error) = observe resolver tenant g.now g.fresh g.mail g.upn g.id s m in
      let rest = observe_all gs s' m' in elim error [ some e ↦ ((s', m'), some e) | none ↦ rest ]

  find_user_key-observe_all :
      (gs : List Sighting) (k v : String) (s : State) (m : ByUserKey)
      → find_user_key m k ≡ some v
      → find_user_key (observe_all gs s m).0.1 k ≡ some v
  unfolding observe_all
  find_user_key-observe_all [] k v s m h = h
  find_user_key-observe_all (g ∷ gs) k v s m h =
      let r = observe resolver tenant g.now g.fresh g.mail g.upn g.id s m in
      let kept = observe-keeps g k v s m h in
      elim (Option-cases r.1) [
        | inl e ↦ rw (e, observe_all) (find_user_key-observe_all gs k v r.0.0 r.0.1 kept)
        | inr (problem, e) ↦ rw (e, observe_all) kept
      ]

  -- A user key that has a canonical id keeps it, whichever directory records are observed later and
  -- however the resolver answers.
  pub map_user_key-observe_all :
      (gs : List Sighting) (k v : String) (s : State) (m : ByUserKey)
      → find_user_key m k ≡ some v
      → map_user_key (observe_all gs s m).0.1 k ≡ v
  unfolding map_user_key
  map_user_key-observe_all gs k v s m h = rw (find_user_key-observe_all gs k v s m h, map_user_key)
