-- ===== src/Runtime/Principal/Aliases.antt =====
-- What the resolver in memory answers, and which assertions it looks at.
use mathlib.Core.List.{Memᴰ, append-nil}
use mathlib.Core.List.Memᴰ
use groundwork.Base.{
  ℕ, String, ◌≡◌, ◌≢◌, refl, sym, ap, subst, ◌∙◌, Bool, true, false, not, ◌&&◌, List, [], ◌∷◌, ◌++◌,
  Option, none, some, ◌⊎◌, inl, inr, ◌==◌, ==_refl, string_eq, Bool-cases, Option-cases, All, arith,
}
use groundwork.Runtime.Identity.{Identity}
use groundwork.Runtime.Principal.{
  IdentityAssertion, Principal, ResolveError, identity_unresolved, other_error, asserted,
  assertions_from_identity, verified_only, canonical_of, skipped, principal_user_id,
  canonicalize_identity, Aliases, alias_key, expired, live, alias_of, first_alias, memory_resolve,
  put_alias, upsert_alias, memory_upsert, memory_resolver,
}

abbrev answer_id : ResolveError ⊎ Principal → Option String
answer_id (inl e) = none
answer_id (inr p) = some p.id

Answer-cases :
    (r : ResolveError ⊎ Principal)
    → ((e : ResolveError) × (r ≡ inl e)) ⊎ ((p : Principal) × (r ≡ inr p))
Answer-cases (inl e) = inl (e, refl)
Answer-cases (inr p) = inr (p, refl)

module _ (m : Aliases) (now : ℕ) (tenant : String) where
  -- The assertion is verified, and the tenant has an alias for it that has not expired.
  pub Backed : String → IdentityAssertion → Type 0
  Backed id a = (a.verified ≡ true) × (a.value ≢ "") × (alias_of m now tenant a ≡ some id)

  first_alias-Backed :
      (given : List IdentityAssertion) (p : Principal)
      → memory_resolve m now tenant given ≡ inr p
      → (a : IdentityAssertion) × (Memᴰ a given × Backed p.id a)
  unfolding memory_resolve first_alias verified_only Backed
  first_alias-Backed [] p h = absurd (cc h)
  first_alias-Backed (a ∷ others) p h = elim (Bool-cases (a.verified && not (a.value == ""))) [
    | inr passed ↦
        let (b, (mem, backed)) =
          first_alias-Backed others p (rw (passed, memory_resolve, verified_only) at h) in
        (b, (Memᴰ.tail mem, backed))
    | inl used ↦ elim (Option-cases (alias_of m now tenant a)) [
      | inl missing ↦
          let (b, (mem, backed)) =
            first_alias-Backed others p
              (rw (used, memory_resolve, verified_only, first_alias, missing) at h) in
          (b, (Memᴰ.tail mem, backed))
      | inr (id, found) ↦
          let answer : inr (record { id = id; tenant_id = tenant }) ≡ inr p =
            rw (used, memory_resolve, verified_only, first_alias, found) at h in
          let verified : a.verified ≡ true = ground arith in
          let filled : a.value ≢ "" = λ e. ground (arith, (string_eq.equals_iff a.value "").1 e) in
          (a, (Memᴰ.head refl, (verified, filled, found ∙ ap (λ r. answer_id r) answer)))
    ]
  ]

-- Without a verified email, the claims email and preferred_username are not looked at.
verified_only-append :
    (xs ys : List IdentityAssertion)
    → verified_only (xs ++ ys) ≡ verified_only xs ++ verified_only ys
unfolding verified_only
verified_only-append [] ys = refl
verified_only-append (x ∷ xs) ys = ground (arith, verified_only-append xs ys)

verified_only-asserted :
    (namespace value : String) → verified_only (asserted namespace value false) ≡ []
unfolding verified_only asserted
verified_only-asserted namespace value = ground arith

verified_only_unverified :
    (i : Identity) (email username : String)
    → i.email_verified ≡ false
    → verified_only (assertions_from_identity (record i { email = email; username = username }))
      ≡ verified_only (asserted "entra:id" i.oid true)
        ++ verified_only (asserted "jwt:sub" i.subject true)
unfolding assertions_from_identity
verified_only_unverified i email username h = rw (
  h, verified_only-append, verified_only-append, verified_only-append, verified_only-asserted,
  verified_only-asserted, append-nil, append-nil,
)

not_resolved : (e : ResolveError) → (canonical_of (inl e)).status ≢ "resolved"
unfolding canonical_of
not_resolved identity_unresolved h = cc
not_resolved (other_error e) h = cc

-- With the resolver in memory, canonical mode and a verified identity: if the status is "resolved",
-- the user id is "principal:" with an id that the tenant's aliases give, not expired, for a verified
-- assertion of the identity.
pub canonicalize_identity-Backed :
    (m : Aliases) (now : ℕ) (tenant : String) (i : Identity)
    → i.verified ≡ true
    → (canonicalize_identity memory_resolver (some m) now true tenant i).1.status ≡ "resolved"
    → (id : String) × (((canonicalize_identity memory_resolver
            (some m)
            now
            true
            tenant
            i).1.effective_user_id
          ≡ principal_user_id id)
        × ((a : IdentityAssertion) × (Memᴰ a (assertions_from_identity i)
              × Backed m now tenant id a)))
unfolding canonicalize_identity canonical_of memory_resolve assertions_from_identity
canonicalize_identity-Backed m now tenant i signed resolved =
    elim (Answer-cases (memory_resolve m now tenant (assertions_from_identity i))) [
      | inl (e, failed) ↦
          absurd (not_resolved e (rw (signed, failed, canonicalize_identity) at resolved))
      | inr (p, found) ↦ (
        p.id,
        (ground arith, first_alias-Backed m now tenant (assertions_from_identity i) p found),
      )
    ]

-- With the resolver in memory: for an identity whose email is not verified, the answer does not
-- depend on its email and user name.
pub canonicalize_unverified_email :
    (m : Aliases) (now : ℕ) (canonical : Bool) (tenant : String) (i : Identity)
    (email username : String)
    → i.email_verified ≡ false
    → canonicalize_identity memory_resolver
        (some m)
        now
        canonical
        tenant
        (record i { email = email; username = username })
      ≡ canonicalize_identity memory_resolver (some m) now canonical tenant i
unfolding canonicalize_identity memory_resolve skipped
canonicalize_unverified_email m now canonical tenant i email username h =
    let same =
      verified_only_unverified i email username h
      ∙ sym (verified_only_unverified i i.email i.username h) in
    rw same refl

module _ (now : ℕ) (tenant : String) (p : Principal) where
  -- The key's alias is the principal's and has not expired.
  Live : Aliases → String → Type 0
  Live m key = live now (m key) ≡ some p.id

  upsert_alias-Live :
      (a : IdentityAssertion) (m : Aliases) (key : String)
      → expired now a.expires_at ≡ false
      → Live m key
      → Live (upsert_alias tenant p a m) key
  unfolding Live upsert_alias put_alias live
  upsert_alias-Live a m key valid h = ground arith

  upsert_alias-own :
      (a : IdentityAssertion) (m : Aliases)
      → expired now a.expires_at ≡ false
      → a.value ≢ ""
      → Live (upsert_alias tenant p a m) (alias_key tenant a.namespace a.value)
  unfolding Live upsert_alias put_alias live
  upsert_alias-own a m valid filled = ground (
    arith,
    filled,
    string_eq.equals_iff a.value "",
    ==_refl (alias_key tenant a.namespace a.value),
  )

  Unexpired : IdentityAssertion → Type 0
  Unexpired a = expired now a.expires_at ≡ false

  memory_upsert_keeps :
      (aliases : List IdentityAssertion) (m : Aliases) (key : String)
      → All Unexpired aliases
      → Live m key
      → Live (memory_upsert m tenant p aliases) key
  unfolding memory_upsert Unexpired
  memory_upsert_keeps [] m key valid h = h
  memory_upsert_keeps (a ∷ others) m key valid h =
      memory_upsert_keeps others (upsert_alias tenant p a m) key valid.1
        (upsert_alias-Live a m key valid.0 h)

  memory_upsert-Live :
      (aliases : List IdentityAssertion) (m : Aliases) (a : IdentityAssertion)
      → All Unexpired aliases
      → Memᴰ a aliases
      → a.value ≢ ""
      → Live (memory_upsert m tenant p aliases) (alias_key tenant a.namespace a.value)
  unfolding memory_upsert Unexpired
  memory_upsert-Live [] m a valid mem filled = absurd (Memᴰ.not-nil mem)
  memory_upsert-Live (b ∷ others) m a valid (Memᴰ.head e) filled =
      memory_upsert_keeps others (upsert_alias tenant p b m) (alias_key tenant a.namespace a.value)
        valid.1
        (subst (λ c. Live (upsert_alias tenant p b m) (alias_key tenant c.namespace c.value))
          (sym e) (upsert_alias-own b m valid.0 (λ blank. filled (ap (λ c. c.value) e ∙ blank))))
  memory_upsert-Live (b ∷ others) m a valid (Memᴰ.tail mem) filled =
      memory_upsert-Live others (upsert_alias tenant p b m) a valid.1 mem filled

-- With the resolver in memory: after an upsert of aliases for a principal, none of them expired,
-- the assertions that start with a verified one whose namespace and value are those of one of the
-- aliases, with a value that is not empty, resolve to the principal's id in the tenant.
pub memory_resolve-upsert :
    (now : ℕ) (m : Aliases) (tenant : String) (p : Principal) (aliases : List IdentityAssertion)
    (a : IdentityAssertion) (expires : Option ℕ) (others : List IdentityAssertion)
    → All (λ b. expired now b.expires_at ≡ false) aliases
    → Memᴰ a aliases
    → a.value ≢ ""
    → memory_resolve
        (memory_upsert m tenant p aliases)
        now
        tenant
        (record a { verified = true; expires_at = expires } ∷ others)
      ≡ inr (record { id = p.id; tenant_id = tenant })
unfolding memory_resolve first_alias verified_only alias_of Live Unexpired
memory_resolve-upsert now m tenant p aliases a expires others valid mem filled =
    let found = memory_upsert-Live now tenant p aliases m a valid mem filled in
    ground (arith, found, filled, string_eq.equals_iff a.value "")
