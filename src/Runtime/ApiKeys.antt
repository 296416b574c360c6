-- ===== src/Runtime/ApiKeys.antt =====
-- services/query-runtime/internal/runtime/auth.go: the API keys of tenants, in memory, and their
-- scopes.
pub mod Keys
pub mod Scopes
use Prim.Native.Char.{code}
use groundwork.Base.{
  ℕ, ◌+◌, ◌<>◌, String, Bool, true, false, not, ◌&&◌, ◌||◌, List, [], ◌∷◌, ◌++◌, Option, none, some,
  nat_beq, if◌then◌else◌, ◌==◌, string_eq, nat_eq, contains, insert, length, Result, ok, err, ℤ,
  positive_or, trim_space,
}

pub record TenantContext : Type 0 where
  pub tenant_id : String
  pub region : String
  pub key_name : String
  pub scopes : List String
  pub key_id : ℕ
  pub rate_limit_rpm : ℤ

pub record CreateApiKeyRequest : Type 0 where
  pub name : String
  pub scopes : List String
  pub rate_limit_rpm : ℤ

-- `CreatedAt` and `RotatedAt` are not modelled.
pub record CreateApiKeyResponse : Type 0 where
  pub id : ℕ
  pub key : String
  pub key_prefix : String
  pub name : String
  pub tenant_id : String
  pub region : String
  pub scopes : List String
  pub rate_limit_rpm : ℤ

pub record RotateApiKeyResponse : Type 0 where
  pub id : ℕ
  pub key : String
  pub key_prefix : String
  pub status : String

unfoldable pub has_scope : TenantContext → String → Bool
has_scope tenant scope = contains tenant.scopes scope || contains tenant.scopes "admin"

-- The loop over the scopes, with the map `seen`.
unfoldable pub fresh_scopes : List String → List String → List String
fresh_scopes seen [] = []
fresh_scopes seen (s ∷ ss) =
    let scope = trim_space s in
    let same = fresh_scopes seen ss in
    let more = fresh_scopes (insert scope seen) ss in
    if scope == "" || contains seen scope then same else scope ∷ more

abbrev pub or_query : List String → List String
or_query [] = "query" ∷ []
or_query (s ∷ ss) = s ∷ ss

unfoldable pub normalize_create_api_key_request : CreateApiKeyRequest → CreateApiKeyRequest
unfolding fresh_scopes positive_or
normalize_create_api_key_request req = record {
  name = if trim_space req.name == "" then "generated" else trim_space req.name;
  rate_limit_rpm = ℤ.pos (positive_or req.rate_limit_rpm 60);
  scopes = or_query (fresh_scopes [] req.scopes);
}

abbrev pub or_all : List String → List String
or_all [] = "query" ∷ "admin" ∷ []
or_all (s ∷ ss) = s ∷ ss

-- `strings.Split` at a separator of one character, given by its number; `part` is read already.
unfoldable pub split_from : ℕ → String → String → List String
split_from sep part String.[] = part ∷ []
split_from sep part (String.◌∷◌ c s) =
    let next = split_from sep "" s in
    let on = split_from sep (part <> String.◌∷◌ c "") s in if code c == sep then part ∷ next else on

unfoldable pub nonblank : List String → List String
nonblank [] = []
nonblank (s ∷ ss) =
    let rest = nonblank ss in if trim_space s == "" then rest else trim_space s ∷ rest

unfoldable pub split_scopes : String → List String
unfolding split_from nonblank
split_scopes scopes_text = or_query (nonblank (split_from 44 "" scopes_text))

-- The parts of a key, `strings.Split(rawKey, "_")`.
unfoldable pub prefix_of : List String → String
prefix_of (gw ∷ live ∷ prefix ∷ parts) = if gw == "gw" && live == "live" then prefix else ""
prefix_of _ = ""

unfoldable pub api_key_prefix : String → String
unfolding prefix_of split_from
api_key_prefix raw_key = prefix_of (split_from 95 "" raw_key)

-- `generateAPIKey`, from the two random texts of hexadecimal digits.
unfoldable pub generate_api_key : String → String → String
generate_api_key prefix secret = "gw_live_" <> prefix <> "_" <> secret

-- `keys`, from the keys' hashes.
abbrev pub KeyMap : Type 0
KeyMap = List (String × TenantContext)

pub record MemoryApiKeyResolver : Type 0 where
  pub keys : KeyMap
  pub next : ℕ

unfoldable pub find_key : String → KeyMap → Option TenantContext
find_key hash [] = none
find_key hash ((h, t) ∷ m) = let rest = find_key hash m in if h == hash then some t else rest

unfoldable pub put_key : String → TenantContext → KeyMap → KeyMap
put_key hash tenant [] = (hash, tenant) ∷ []
put_key hash tenant ((h, t) ∷ m) =
    let rest = put_key hash tenant m in if h == hash then (h, tenant) ∷ m else (h, t) ∷ rest

-- The first key with the id in the tenant, and the keys without it.
unfoldable pub take_key : ℕ → String → KeyMap → Option (TenantContext × KeyMap)
take_key id tenant [] = none
take_key id tenant ((h, t) ∷ m) =
    let rest = take_key id tenant m in
    if t.key_id == id && t.tenant_id == tenant
    then some (t, m)
    else elim rest [ none ↦ none | some (found, others) ↦ some (found, (h, t) ∷ others) ]

-- `hash_api_key` is `hashAPIKey`, SHA-256 in hexadecimal digits; `cancelled` is the error of a
-- context that has ended.
module _ (hash_api_key : String → String) where
  unfoldable pub new_memory_api_key_resolver : String → TenantContext → MemoryApiKeyResolver
  unfolding put_key
  new_memory_api_key_resolver raw_key tenant =
      if raw_key == "" then record { keys = []; next = 1 } else record {
        keys =
            put_key (hash_api_key raw_key)
              (record tenant { key_id = 1; scopes = or_all tenant.scopes }) [];
        next = 2;
      }

  unfoldable pub resolve_found : Option TenantContext → Result TenantContext
  resolve_found none = err "invalid api key"
  resolve_found (some t) =
      if t.tenant_id == "" || t.region == ""
      then err "invalid api key"
      else ok (record t { scopes = or_query t.scopes })

  unfoldable pub resolve : Option String → MemoryApiKeyResolver → String → Result TenantContext
  unfolding resolve_found find_key
  resolve (some cancelled) m raw_key = err cancelled
  resolve none m raw_key = resolve_found (find_key (hash_api_key raw_key) m.keys)

  unfoldable pub create :
      Option String
      → MemoryApiKeyResolver
      → TenantContext
      → CreateApiKeyRequest
      → String
      → String
      → MemoryApiKeyResolver × Result CreateApiKeyResponse
  unfolding put_key normalize_create_api_key_request generate_api_key
  create (some cancelled) m tenant request prefix secret = (m, err cancelled)
  create none m tenant request prefix secret =
      let raw_key = generate_api_key prefix secret in
      let req = normalize_create_api_key_request request in
      let id = m.next + 1 in
      (
        record {
          next = id;
          keys =
              put_key (hash_api_key raw_key)
                (record {
                  tenant_id = tenant.tenant_id;
                  region = tenant.region;
                  key_name = req.name;
                  scopes = req.scopes;
                  key_id = id;
                  rate_limit_rpm = req.rate_limit_rpm;
                })
                m.keys;
        },
        ok (record {
          id = id;
          key = raw_key;
          key_prefix = prefix;
          name = req.name;
          tenant_id = tenant.tenant_id;
          region = tenant.region;
          scopes = req.scopes;
          rate_limit_rpm = req.rate_limit_rpm;
        }),
      )

  unfoldable pub revoke :
      Option String → MemoryApiKeyResolver → TenantContext → ℕ → MemoryApiKeyResolver × Result Bool
  unfolding take_key
  revoke (some cancelled) m tenant id = (m, err cancelled)
  revoke none m tenant id = elim (take_key id tenant.tenant_id m.keys) [
    | none ↦ (m, ok false)
    | some (found, others) ↦ (record m { keys = others }, ok true)
  ]

  unfoldable pub rotate :
      Option String
      → MemoryApiKeyResolver
      → TenantContext
      → ℕ
      → String
      → String
      → MemoryApiKeyResolver × Result RotateApiKeyResponse
  unfolding take_key put_key generate_api_key
  rotate (some cancelled) m tenant id prefix secret = (m, err cancelled)
  rotate none m tenant id prefix secret =
      let raw_key = generate_api_key prefix secret in
      elim (take_key id tenant.tenant_id m.keys) [
        | none ↦ (m, err "invalid api key")
        | some (found, others) ↦ (
          record m { keys = put_key (hash_api_key raw_key) found others },
          ok (record { id = id; key = raw_key; key_prefix = prefix; status = "rotated" }),
        )
      ]
