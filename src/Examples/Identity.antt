-- ===== src/Examples/Identity.antt =====
-- Identities, principals and API keys of runtime/ on small inputs.
use mathlib.Core.List.{Memᴰ}
use groundwork.Base.{
  String, ◌≡◌, ◌≢◌, ◌↔◌, ◌⊎◌, refl, Bool, true, false, List, [], ◌∷◌, none, some, inr, ◌==◌,
  string_eq, if◌then◌else◌, Result, ok, err, trim_space, ℤ,
}
use groundwork.Runtime.Identity.{Identity, Claims, text, verify, resolve_effective_identity}
use groundwork.Runtime.Identity.Accepted.{Signed, Demo, resolve_effective_identity_iff}
use groundwork.Runtime.Principal.{
  IdentityAssertion, Principal, Aliases, alias_key, canonicalize_identity, canonical_of,
  assertions_from_identity, asserted, verified_only, memory_resolve, memory_upsert, memory_resolver,
  first_alias, alias_of, live, expired, put_alias, upsert_alias, principal_user_id,
}
use groundwork.Runtime.Principal.Aliases.{
  Backed, canonicalize_identity-Backed, canonicalize_unverified_email, memory_resolve-upsert,
}
use groundwork.Runtime.Principal.Cache.{Call, resolving, run, step}
use groundwork.Runtime.ApiKeys.{
  TenantContext, CreateApiKeyRequest, MemoryApiKeyResolver, new_memory_api_key_resolver, create,
  revoke, resolve, resolve_found, find_key, put_key, take_key, normalize_create_api_key_request,
  generate_api_key, api_key_prefix,
}
use groundwork.Runtime.ApiKeys.Keys as Keys
use groundwork.Runtime.ApiKeys.Keys.{creating, revoked_for_good}
use groundwork.Runtime.ApiKeys.Scopes.{lacks, api_key_prefix-generate_api_key}

abbrev claims : Claims
claims key = if key == "sub" then some (text " alice ") else none

abbrev parse : String → Result (Claims × Bool)
parse token = if token == "good" then ok (claims, true) else err "bad token"

abbrev alice : Identity
alice = record {
  user_id = "alice";
  subject = "alice";
  oid = "";
  email = "bob@acme.test";
  username = "";
  issuer = "";
  email_verified = false;
  verified = true;
}

resolve_effective_identity_iff_example :
    (resolve_effective_identity (some (verify parse)) false "good" "" ≡ inr alice) ↔ (
      ((trim_space "good" ≢ "")
        × ((trim_space (trim_space "good") ≢ "")
            × Signed parse (trim_space (trim_space "good")) alice))
      ⊎ ((trim_space "good" ≡ "") × Demo parse false "" alice))
resolve_effective_identity_iff_example = resolve_effective_identity_iff parse false "good" "" alice

abbrev sub_alias : IdentityAssertion
sub_alias = record { namespace = "jwt:sub"; value = "alice"; verified = true; expires_at = none }

abbrev p1 : Principal
p1 = record { id = "p1"; tenant_id = "acme" }

abbrev aliases : Aliases
aliases = memory_upsert (λ key. none) "acme" p1 (sub_alias ∷ [])

alice_resolved :
    (canonicalize_identity memory_resolver (some aliases) 5 true "acme" alice).1.status ≡ "resolved"
unfolding canonicalize_identity canonical_of memory_resolve verified_only assertions_from_identity
    asserted first_alias alias_of live expired memory_upsert upsert_alias put_alias alias_key
alice_resolved = refl

canonicalize_identity-Backed_example :
    (id : String) × (((canonicalize_identity memory_resolver
          (some aliases)
          5
          true
          "acme"
          alice).1.effective_user_id
        ≡ principal_user_id id)
      × ((a : IdentityAssertion) × (Memᴰ a (assertions_from_identity alice)
            × Backed aliases 5 "acme" id a)))
canonicalize_identity-Backed_example =
    canonicalize_identity-Backed aliases 5 "acme" alice refl alice_resolved

canonicalize_unverified_email_example :
    canonicalize_identity memory_resolver
      (some aliases)
      5
      true
      "acme"
      (record alice { email = "root@acme.test"; username = "root" })
    ≡ canonicalize_identity memory_resolver (some aliases) 5 true "acme" alice
canonicalize_unverified_email_example =
    canonicalize_unverified_email aliases 5 true "acme" alice "root@acme.test" "root" refl

valid_alias : expired 5 none ≡ false
unfolding expired
valid_alias = refl

memory_resolve-upsert_example :
    memory_resolve aliases 5 "acme" (record sub_alias { verified = true; expires_at = none } ∷ [])
    ≡ inr (record { id = "p1"; tenant_id = "acme" })
memory_resolve-upsert_example =
    memory_resolve-upsert 5 (λ key. none) "acme" p1 (sub_alias ∷ []) sub_alias none []
      (valid_alias, tt) (Memᴰ.head refl) (λ e. cc e)

abbrev given : List IdentityAssertion
given = sub_alias ∷ []

abbrev asks : List (Call memory_resolver)
asks = resolving 1 1 2 "acme" given ∷ []

abbrev acme : TenantContext
acme = record {
  tenant_id = "acme";
  region = "US";
  key_name = "boot";
  scopes = [];
  key_id = 0;
  rate_limit_rpm = ℤ.pos 0;
}

abbrev request : CreateApiKeyRequest
request = record { name = " ci "; scopes = "query" ∷ " query" ∷ []; rate_limit_rpm = ℤ.pos 0 }

abbrev plain : String → String
plain raw_key = raw_key

no_underscore : lacks 95 "ab12" ≡ true
unfolding lacks
no_underscore = refl

api_key_prefix-generate_api_key_example : api_key_prefix (generate_api_key "ab12" "cd_34") ≡ "ab12"
api_key_prefix-generate_api_key_example =
    api_key_prefix-generate_api_key "ab12" "cd_34" no_underscore

abbrev made : List Keys.Call
made = creating none acme request "ab" "cd" ∷ []

abbrev left : MemoryApiKeyResolver
left =
    (revoke plain none (Keys.run plain made (new_memory_api_key_resolver plain "boot" acme)) acme
      3).0

revoked :
    revoke plain none (Keys.run plain made (new_memory_api_key_resolver plain "boot" acme)) acme 3
    ≡ (left, ok true)
unfolding revoke Keys.run Keys.step new_memory_api_key_resolver create take_key put_key
    generate_api_key normalize_create_api_key_request
revoked = refl

abbrev boot : TenantContext
boot = record acme { scopes = "query" ∷ "admin" ∷ []; key_id = 1 }

boot_resolves : resolve plain none (Keys.run plain [] left) "boot" ≡ ok boot
unfolding resolve resolve_found find_key revoke Keys.run Keys.step new_memory_api_key_resolver
    create take_key put_key generate_api_key normalize_create_api_key_request
boot_resolves = refl

revoked_for_good_example : boot.key_id ≢ 3
revoked_for_good_example =
    revoked_for_good plain "boot" acme made [] left acme 3 "boot" boot revoked boot_resolves
