-- ===== src/Runtime/Principal.antt =====
-- services/query-runtime/internal/runtime/principal.go: from the identities that outside systems
-- know a user by to the principal that permissions are about.
pub mod Aliases
pub mod Cache
use groundwork.Base.{
  ℕ, ◌+◌, ◌<>◌, String, Bool, true, false, not, ◌&&◌, ◌||◌, List, [], ◌∷◌, ◌++◌, Option, none, some,
  ◌⊎◌, inl, inr, ltb, if◌then◌else◌, ◌==◌, string_eq, sort_strings, join_strings, Result, ok, err,
  ℤ, positive_or,
}
use groundwork.Runtime.Identity.{Identity}

-- Times are in nanoseconds.
pub record IdentityAssertion : Type 0 where
  pub namespace : String
  pub value : String
  pub verified : Bool
  pub expires_at : Option ℕ

pub record Principal : Type 0 where
  pub id : String
  pub tenant_id : String

-- `ErrIdentityUnresolved`, or another error.
pub data ResolveError : Type 0 where
  identity_unresolved : ResolveError
  other_error : String → ResolveError

-- `PrincipalResolver`. `Resolve` may change the resolver, a cache for one, and a resolver reads the
-- clock.
pub record PrincipalResolver : Type 1 where
  pub State : Type 0
  pub resolve : State → ℕ → String → List IdentityAssertion → State × (ResolveError ⊎ Principal)
  pub upsert_aliases : State → String → Principal → List IdentityAssertion → State × Option String

unfoldable pub principal_user_id : String → String
principal_user_id principal_id = "principal:" <> principal_id

-- `if value != "" { a = append(a, ...) }`
unfoldable pub asserted : String → String → Bool → List IdentityAssertion
asserted namespace value verified =
    if value == ""
    then []
    else record { namespace = namespace; value = value; verified = verified; expires_at = none }
      ∷ []

unfoldable pub assertions_from_identity : Identity → List IdentityAssertion
unfolding asserted
assertions_from_identity i =
    asserted "entra:id" i.oid true
    ++ asserted "jwt:sub" i.subject true
    ++ asserted "jwt:email" i.email i.email_verified
    ++ asserted "jwt:preferred_username" i.username i.email_verified

-- What `CanonicalizeIdentity` returns: the user id, the status and the error.
pub record Canonical : Type 0 where
  pub effective_user_id : String
  pub status : String
  pub error : Option ResolveError

unfoldable pub canonical_of : ResolveError ⊎ Principal → Canonical
canonical_of (inl identity_unresolved) = record {
  effective_user_id = "";
  status = "unresolved";
  error = some identity_unresolved;
}
canonical_of (inl (other_error e)) = record {
  effective_user_id = "";
  status = "error";
  error = some (other_error e);
}
canonical_of (inr p) = record {
  effective_user_id = principal_user_id p.id;
  status = "resolved";
  error = none;
}

unfoldable pub skipped : Identity → Canonical
skipped i = record { effective_user_id = i.user_id; status = "skipped"; error = none }

module _ (resolver : PrincipalResolver) where
  -- `CanonicalizeIdentity`; without a resolver its state is none.
  unfoldable pub canonicalize_identity :
      Option resolver.State → ℕ → Bool → String → Identity → Option resolver.State × Canonical
  unfolding canonical_of skipped
  canonicalize_identity none now canonical tenant i = (none, skipped i)
  canonicalize_identity (some r) now canonical tenant i =
      let (r', answer) = resolver.resolve r now tenant (assertions_from_identity i) in
      if not canonical || not i.verified
      then (some r, skipped i)
      else (some r', canonical_of answer)

unfoldable pub verified_only : List IdentityAssertion → List IdentityAssertion
verified_only [] = []
verified_only (a ∷ others) =
    let rest = verified_only others in if a.verified && not (a.value == "") then a ∷ rest else rest

-- `aliasRecord`
pub record AliasRecord : Type 0 where
  pub principal_id : String
  pub expires_at : Option ℕ

-- The map `aliases` of `MemoryPrincipalResolver`.
abbrev pub Aliases : Type 0
Aliases = String → Option AliasRecord

unfoldable pub alias_key : String → String → String → String
alias_key tenant namespace value = tenant <> "\u{1f}" <> namespace <> "\u{1f}" <> value

-- `expiresAt != nil && now.After(*expiresAt)`
unfoldable pub expired : ℕ → Option ℕ → Bool
expired now none = false
expired now (some t) = ltb t now

-- The record that an assertion finds, unless it has expired.
unfoldable pub live : ℕ → Option AliasRecord → Option String
unfolding expired
live now none = none
live now (some r) = if expired now r.expires_at then none else some r.principal_id

unfoldable pub alias_of : Aliases → ℕ → String → IdentityAssertion → Option String
unfolding live alias_key
alias_of m now tenant a = live now (m (alias_key tenant a.namespace a.value))

-- The loop of `Resolve`.
unfoldable pub first_alias :
    Aliases → ℕ → String → List IdentityAssertion → ResolveError ⊎ Principal
first_alias m now tenant [] = inl identity_unresolved
first_alias m now tenant (a ∷ others) =
    let rest = first_alias m now tenant others in
    elim (alias_of m now tenant a) [
      | some id ↦ inr (record { id = id; tenant_id = tenant })
      | none ↦ rest
    ]

unfoldable pub memory_resolve :
    Aliases → ℕ → String → List IdentityAssertion → ResolveError ⊎ Principal
unfolding first_alias verified_only
memory_resolve m now tenant assertions = first_alias m now tenant (verified_only assertions)

unfoldable pub put_alias : String → AliasRecord → Aliases → Aliases
put_alias key r m other = if other == key then some r else m other

-- One round of the loop of `UpsertAliases`.
unfoldable pub upsert_alias : String → Principal → IdentityAssertion → Aliases → Aliases
unfolding alias_key put_alias
upsert_alias tenant p a m =
    if a.value == ""
    then m
    else put_alias (alias_key tenant a.namespace a.value)
        (record { principal_id = p.id; expires_at = a.expires_at }) m

unfoldable pub memory_upsert : Aliases → String → Principal → List IdentityAssertion → Aliases
unfolding upsert_alias
memory_upsert m tenant p [] = m
memory_upsert m tenant p (a ∷ others) = memory_upsert (upsert_alias tenant p a m) tenant p others

abbrev pub memory_resolver : PrincipalResolver
memory_resolver = record {
  State = Aliases;
  resolve = λ m now tenant found. (m, memory_resolve m now tenant found);
  upsert_aliases = λ m tenant p aliases. (memory_upsert m tenant p aliases, none);
}

-- `PostgresPrincipalResolver.Resolve`: `query` answers with the principal of an alias that has not
-- expired, or no row, or an error, which ends the loop.
unfoldable pub first_row :
    (String → String → String → Result (Option String))
    → String
    → List IdentityAssertion
    → ResolveError ⊎ Principal
first_row query tenant [] = inl identity_unresolved
first_row query tenant (a ∷ others) =
    let rest = first_row query tenant others in
    elim (query tenant a.namespace a.value) [
      | err e ↦ inl (other_error e)
      | ok none ↦ rest
      | ok (some id) ↦ inr (record { id = id; tenant_id = tenant })
    ]

unfoldable pub postgres_resolve :
    Option (String → String → String → Result (Option String))
    → String
    → List IdentityAssertion
    → ResolveError ⊎ Principal
unfolding first_row verified_only
postgres_resolve none tenant assertions = inl (other_error "principal resolver unavailable")
postgres_resolve (some query) tenant assertions = first_row query tenant (verified_only assertions)

-- `cacheRecord`
pub record CacheRecord : Type 0 where
  pub principal : Principal
  pub until : ℕ

unfoldable pub key_parts : List IdentityAssertion → List String
key_parts [] = []
key_parts (a ∷ others) = (a.namespace <> "=" <> a.value) ∷ key_parts others

unfoldable pub resolve_cache_key : String → List IdentityAssertion → String
unfolding key_parts verified_only
resolve_cache_key tenant assertions =
    tenant
    <> "\u{1f}"
    <> join_strings (sort_strings (key_parts (verified_only assertions))) "\u{1e}"

module _ (inner : PrincipalResolver) where
  -- `CachingResolver`; `ttl` is positive, after the default.
  pub record CachingResolver : Type 0 where
    pub inner_state : inner.State
    pub ttl : ℕ
    pub cache : String → Option CacheRecord

  unfoldable pub new_caching_resolver : inner.State → ℤ → CachingResolver
  unfolding positive_or
  new_caching_resolver s ttl = record {
    inner_state = s;
    ttl = positive_or ttl 60_000_000_000;
    cache = λ key. none;
  }

  -- The cached answer, `now.Before(rec.until)`.
  unfoldable pub fresh : ℕ → Option CacheRecord → Option Principal
  fresh now none = none
  fresh now (some r) = if ltb now r.until then some r.principal else none

  unfoldable pub put_cached :
      String → CacheRecord → (String → Option CacheRecord) → String → Option CacheRecord
  put_cached key r cache other = if other == key then some r else cache other

  -- After a miss: `later` is the clock when the answer has come.
  unfoldable pub remember :
      CachingResolver
      → String
      → ℕ
      → inner.State × (ResolveError ⊎ Principal)
      → CachingResolver × (ResolveError ⊎ Principal)
  unfolding put_cached
  remember c key later (s, inl e) = (record c { inner_state = s }, inl e)
  remember c key later (s, inr p) = (
    record c {
      inner_state = s;
      cache = put_cached key (record { principal = p; until = later + c.ttl }) c.cache;
    },
    inr p,
  )

  -- `CachingResolver.Resolve`, undisturbed: the clock is read at the lookup, by the inner resolver
  -- and at the end.
  unfoldable pub caching_resolve :
      CachingResolver
      → ℕ
      → ℕ
      → ℕ
      → String
      → List IdentityAssertion
      → CachingResolver × (ResolveError ⊎ Principal)
  unfolding fresh remember resolve_cache_key
  caching_resolve c now asked later tenant assertions =
      let key = resolve_cache_key tenant assertions in
      elim (fresh now (c.cache key)) [
        | some p ↦ (c, inr p)
        | none ↦ remember c key later (inner.resolve c.inner_state asked tenant assertions)
      ]

  -- The cache is cleared, also when the inner resolver has failed.
  unfoldable pub caching_upsert :
      CachingResolver
      → String
      → Principal
      → List IdentityAssertion
      → CachingResolver × Option String
  caching_upsert c tenant p aliases =
      let (s, error) = inner.upsert_aliases c.inner_state tenant p aliases in
      (record c { inner_state = s; cache = λ key. none }, error)
