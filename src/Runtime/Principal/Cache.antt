-- ===== src/Runtime/Principal/Cache.antt =====
-- The caching resolver answers what the inner resolver does, or did less than a time to live ago.
use mathlib.Core.List.{Memᴰ}
use groundwork.Base.{ℕ, ◌+◌, ◌<◌, String, ◌≡◌, List, [], ◌∷◌, some, inr}
use groundwork.Runtime.Principal.{
  IdentityAssertion, Principal, PrincipalResolver, CacheRecord, CachingResolver, resolve_cache_key,
  caching_resolve, caching_upsert,
}

module _ (inner : PrincipalResolver) where
  open inner use {State, resolve}

  -- A call of the caching resolver, with what the clock says in it: at the lookup, when the inner
  -- resolver looks, and at the end.
  pub data Call : Type 0 where
    resolving : ℕ → ℕ → ℕ → String → List IdentityAssertion → Call
    upserting : String → Principal → List IdentityAssertion → Call

  unfoldable pub step : Call → CachingResolver inner → CachingResolver inner
  step (resolving now asked later tenant assertions) c =
      (caching_resolve inner c now asked later tenant assertions).0
  step (upserting tenant p aliases) c = (caching_upsert inner c tenant p aliases).0

  unfoldable pub run : List Call → CachingResolver inner → CachingResolver inner
  run [] c = c
  run (call ∷ calls) c = run calls (step call c)

  -- The inner resolver, as it is, answers the principal at the time `asked`.
  pub Answered : State → ℕ → String → List IdentityAssertion → Principal → Type 0
  Answered s asked tenant given p = (resolve s asked tenant given).1 ≡ inr p

  -- One of the calls asked the inner resolver at a time at which the resolver, as it is, answers the
  -- principal for assertions with the key, and what that call stored ends at `until`: a time to live
  -- after the clock at the end of the call.
  pub Stored : List Call → State → ℕ → String → ℕ → Principal → Type 0
  Stored calls s ttl key until p =
      (now : ℕ) × ((asked : ℕ) × ((later : ℕ) × ((tenant : String) × ((given : List
                IdentityAssertion)
              × (Memᴰ (resolving now asked later tenant given) calls
                  × ((resolve_cache_key tenant given ≡ key)
                      × ((until ≡ later + ttl) × Answered s asked tenant given p)))))))

  Sourced : List Call → CachingResolver inner → Type 0
  Sourced calls c =
      (key : String) (r : CacheRecord)
      → c.cache key ≡ some r
      → Stored calls c.inner_state c.ttl key r.until r.principal

  -- An answer from the cache, which is not too old.
  pub Recent : List Call → State → ℕ → ℕ → String → Principal → Type 0
  Recent calls s ttl now key p = (until : ℕ) × ((now < until) × Stored calls s ttl key until p)
