-- ===== src/Runtime/ApiKeys/Keys.antt =====
-- The ids of the keys: each key has its own, and one that is revoked never comes back.
use groundwork.Base.{
  ℕ, ◌+◌, ◌≤◌, String, ◌≡◌, ◌≢◌, sym, ap, subst, ◌∙◌, true, ◌&&◌, ◌||◌, List, [], ◌∷◌, Option, none,
  some, ◌==◌, string_eq, nat_eq, Bool-cases, Option-cases, inl, inr, All, All-mono, Result, ok, err,
  arith,
}
use groundwork.Runtime.ApiKeys.{
  TenantContext, CreateApiKeyRequest, KeyMap, MemoryApiKeyResolver, find_key, put_key, take_key,
  resolve_found, resolve, create, revoke, rotate, new_memory_api_key_resolver,
}

abbrev pub AllKeys : (TenantContext → Type 0) → KeyMap → Type 0
AllKeys P = All (λ e. P e.1)

unfoldable pub Distinct : KeyMap → Type 0
Distinct [] = Unit
Distinct ((h, t) ∷ m) = AllKeys (λ u. u.key_id ≢ t.key_id) m × Distinct m

find_key-P :
    (P : TenantContext → Type 0) (hash : String) (m : KeyMap) (t : TenantContext)
    → AllKeys P m
    → find_key hash m ≡ some t
    → P t
unfolding find_key
find_key-P P hash [] t all h = absurd (cc h)
find_key-P P hash ((k, u) ∷ m) t all h = elim (Bool-cases (k == hash)) [
  | inl here ↦ subst P (some_inj u t (rw (here, find_key) at h)) all.0
  | inr elsewhere ↦ find_key-P P hash m t all.1 (rw (elsewhere, find_key) at h)
]
  where
    some_inj : (a b : TenantContext) → some a ≡ some b → a ≡ b
    some_inj a b e = ground arith

put_key-P :
    (P : TenantContext → Type 0) (hash : String) (t : TenantContext) (m : KeyMap)
    → P t
    → AllKeys P m
    → AllKeys P (put_key hash t m)
unfolding put_key
put_key-P P hash t [] p all = (p, tt)
put_key-P P hash t ((k, u) ∷ m) p all = elim (Bool-cases (k == hash)) [
  | inl here ↦ rw (here, put_key) (p, all.1)
  | inr elsewhere ↦ rw (elsewhere, put_key) (all.0, put_key-P P hash t m p all.1)
]

put_key-Distinct :
    (hash : String) (t : TenantContext) (m : KeyMap)
    → AllKeys (λ u. u.key_id ≢ t.key_id) m
    → Distinct m
    → Distinct (put_key hash t m)
unfolding put_key Distinct
put_key-Distinct hash t [] new once = (tt, tt)
put_key-Distinct hash t ((k, u) ∷ m) new once = elim (Bool-cases (k == hash)) [
  | inl here ↦ rw (here, put_key) (new.1, once.1)
  | inr elsewhere ↦
      rw (elsewhere, put_key)
        (
          put_key-P (λ v. v.key_id ≢ u.key_id) hash t m (λ e. new.0 (sym e)) once.0,
          put_key-Distinct hash t m new.1 once.1,
        )
]

pair_inj :
    (a b : TenantContext) (m n : KeyMap)
    → ◌≡◌ {A = Option (TenantContext × KeyMap)} (some (a, m)) (some (b, n))
    → (a ≡ b) × (m ≡ n)
pair_inj a b m n e = ground arith

-- What a key that is taken leaves behind.
Taken : ℕ → String → TenantContext → KeyMap → Type 0
Taken id tenant found others =
    (found.key_id ≡ id)
    × ((found.tenant_id ≡ tenant) × (AllKeys (λ u. u.key_id ≢ id) others × Distinct others))

take_key-P :
    (P : TenantContext → Type 0) (id : ℕ) (tenant : String) (m : KeyMap) (found : TenantContext)
    (others : KeyMap)
    → AllKeys P m
    → take_key id tenant m ≡ some (found, others)
    → P found × AllKeys P others
unfolding take_key
take_key-P P id tenant [] found others all h = absurd (cc h)
take_key-P P id tenant ((k, u) ∷ m) found others all h =
    elim (Bool-cases (u.key_id == id && u.tenant_id == tenant)) [
      | inl here ↦
          let (e1, e2) = pair_inj u found m others (rw (here, take_key) at h) in
          (subst P e1 all.0, subst (AllKeys P) e2 all.1)
      | inr elsewhere ↦ elim (Option-cases (take_key id tenant m)) [
        | inl missing ↦ absurd (cc (rw (elsewhere, take_key, missing) at h))
        | inr ((v, rest), e) ↦
            let (e1, e2) =
              pair_inj v found ((k, u) ∷ rest) others (rw (elsewhere, take_key, e) at h) in
            let (p, all_rest) = take_key-P P id tenant m v rest all.1 e in
            (subst P e1 p, subst (AllKeys P) e2 (all.0, all_rest))
      ]
    ]

take_key-Taken :
    (id : ℕ) (tenant : String) (m : KeyMap) (found : TenantContext) (others : KeyMap)
    → Distinct m
    → take_key id tenant m ≡ some (found, others)
    → Taken id tenant found others
unfolding take_key Distinct Taken
take_key-Taken id tenant [] found others once h = absurd (cc h)
take_key-Taken id tenant ((k, u) ∷ m) found others once h =
    elim (Bool-cases (u.key_id == id && u.tenant_id == tenant)) [
      | inl here ↦
          let (e1, e2) = pair_inj u found m others (rw (here, take_key) at h) in
          let same_id = (nat_eq.equals_iff u.key_id id).0 (ground arith) in
          let same_tenant = (string_eq.equals_iff u.tenant_id tenant).0 (ground arith) in
          (
            subst (λ t. t.key_id ≡ id) e1 same_id,
            (
              subst (λ t. t.tenant_id ≡ tenant) e1 same_tenant,
              (
                subst (AllKeys (λ t. t.key_id ≢ id)) e2
                    (subst (λ i. AllKeys (λ t. t.key_id ≢ i) m) same_id once.0),
                subst Distinct e2 once.1,
              ),
            ),
          )
      | inr elsewhere ↦ elim (Option-cases (take_key id tenant m)) [
        | inl missing ↦ absurd (cc (rw (elsewhere, take_key, missing) at h))
        | inr ((v, rest), e) ↦
            let (e1, e2) =
              pair_inj v found ((k, u) ∷ rest) others (rw (elsewhere, take_key, e) at h) in
            let (same_id, (same_tenant, (rest_free, rest_once))) =
              take_key-Taken id tenant m v rest once.1 e in
            let (differ, rest_differ) =
              take_key-P (λ t. t.key_id ≢ u.key_id) id tenant m v rest once.0 e in
            (
              subst (λ t. t.key_id ≡ id) e1 same_id,
              (
                subst (λ t. t.tenant_id ≡ tenant) e1 same_tenant,
                (
                  subst (AllKeys (λ t. t.key_id ≢ id)) e2
                      ((λ own. differ (same_id ∙ sym own)), rest_free),
                  subst Distinct e2 (rest_differ, rest_once),
                ),
              ),
            )
      ]
    ]

-- Each key has its own id, and none has an id that is yet to come.
pub record WellFormed (m : MemoryApiKeyResolver) : Type 0 where
  pub bounded : AllKeys (λ t. t.key_id ≤ m.next) m.keys
  pub distinct : Distinct m.keys

-- The calls, each with the error of its context, if that has ended.
pub data Call : Type 0 where
  creating : Option String → TenantContext → CreateApiKeyRequest → String → String → Call
  revoking : Option String → TenantContext → ℕ → Call
  rotating : Option String → TenantContext → ℕ → String → String → Call

module _ (hash_api_key : String → String) where
  unfoldable pub step : Call → MemoryApiKeyResolver → MemoryApiKeyResolver
  step (creating cancelled tenant request prefix secret) m =
      (create hash_api_key cancelled m tenant request prefix secret).0
  step (revoking cancelled tenant id) m = (revoke hash_api_key cancelled m tenant id).0
  step (rotating cancelled tenant id prefix secret) m =
      (rotate hash_api_key cancelled m tenant id prefix secret).0

  unfoldable pub run : List Call → MemoryApiKeyResolver → MemoryApiKeyResolver
  run [] m = m
  run (call ∷ calls) m = run calls (step call m)

  older : (n : ℕ) (m : KeyMap) → AllKeys (λ t. t.key_id ≤ n) m → AllKeys (λ t. t.key_id ≢ n + 1) m
  older n m = All-mono _ _ m (λ (h, t) le e. omega (arith, le, e))

  bounded_next :
      (n : ℕ) (m : KeyMap) → AllKeys (λ t. t.key_id ≤ n) m → AllKeys (λ t. t.key_id ≤ n + 1) m
  bounded_next n m = All-mono _ _ m (λ (h, t) le. omega (arith, le))

  step-WellFormed :
      (call : Call) (m : MemoryApiKeyResolver) → WellFormed m → WellFormed (step call m)
  unfolding step create revoke rotate Taken
  step-WellFormed (creating (some e) tenant request prefix secret) m w = w
  step-WellFormed (creating none tenant request prefix secret) m w = record {
    bounded = put_key-P _ _ _ m.keys (omega arith) (bounded_next m.next m.keys w.bounded);
    distinct = put_key-Distinct _ _ m.keys (older m.next m.keys w.bounded) w.distinct;
  }
  step-WellFormed (revoking (some e) tenant id) m w = w
  step-WellFormed (revoking none tenant id) m w =
      elim (Option-cases (take_key id tenant.tenant_id m.keys)) [
        | inl missing ↦ rw (missing, step, revoke) w
        | inr ((found, others), e) ↦
            let (same_id, (same_tenant, (free, once))) =
              take_key-Taken id tenant.tenant_id m.keys found others w.distinct e in
            let (bound, bounds) =
              take_key-P (λ t. t.key_id ≤ m.next) id tenant.tenant_id m.keys found others w.bounded
                e in
            rw (e, step, revoke) (record { bounded = bounds; distinct = once })
      ]
  step-WellFormed (rotating (some e) tenant id prefix secret) m w = w
  step-WellFormed (rotating none tenant id prefix secret) m w =
      elim (Option-cases (take_key id tenant.tenant_id m.keys)) [
        | inl missing ↦ rw (missing, step, rotate) w
        | inr ((found, others), e) ↦
            let (same_id, (same_tenant, (free, once))) =
              take_key-Taken id tenant.tenant_id m.keys found others w.distinct e in
            let (bound, bounds) =
              take_key-P (λ t. t.key_id ≤ m.next) id tenant.tenant_id m.keys found others w.bounded
                e in
            rw (e, step, rotate)
              (record {
                bounded = put_key-P (λ t. t.key_id ≤ m.next) _ found others bound bounds;
                distinct =
                    put_key-Distinct _ found others
                      (subst (λ i. AllKeys (λ t. t.key_id ≢ i) others) (sym same_id) free) once;
              })
      ]

  run-WellFormed :
      (calls : List Call) (m : MemoryApiKeyResolver) → WellFormed m → WellFormed (run calls m)
  unfolding run
  run-WellFormed [] m w = w
  run-WellFormed (call ∷ calls) m w = run-WellFormed calls (step call m) (step-WellFormed call m w)

  new-WellFormed :
      (raw_key : String) (tenant : TenantContext)
      → WellFormed (new_memory_api_key_resolver hash_api_key raw_key tenant)
  unfolding new_memory_api_key_resolver put_key Distinct
  new-WellFormed raw_key tenant = elim (Bool-cases (raw_key == "")) [
    | inl blank ↦ rw (blank, new_memory_api_key_resolver) (record { bounded = tt; distinct = tt })
    | inr given ↦
        rw (given, new_memory_api_key_resolver)
          (record { bounded = (omega arith, tt); distinct = (tt, tt) })
  ]

  -- The id has been given out and no key has it.
  Gone : ℕ → MemoryApiKeyResolver → Type 0
  Gone id m = (id ≤ m.next) × AllKeys (λ t. t.key_id ≢ id) m.keys

  step-Gone : (id : ℕ) (call : Call) (m : MemoryApiKeyResolver) → Gone id m → Gone id (step call m)
  unfolding step create revoke rotate Gone
  step-Gone id (creating (some e) tenant request prefix secret) m w = w
  step-Gone id (creating none tenant request prefix secret) m w =
      let bound = w.0 in
      (
        omega (arith, bound),
        put_key-P (λ t. t.key_id ≢ id) _ _ m.keys (λ e. omega (arith, bound, e)) w.1,
      )
  step-Gone id (revoking (some e) tenant other) m w = w
  step-Gone id (revoking none tenant other) m w =
      elim (Option-cases (take_key other tenant.tenant_id m.keys)) [
        | inl missing ↦ rw (missing, step, revoke) w
        | inr ((found, others), e) ↦
            let kept =
              take_key-P (λ t. t.key_id ≢ id) other tenant.tenant_id m.keys found others w.1 e in
            rw (e, step, revoke) (w.0, kept.1)
      ]
  step-Gone id (rotating (some e) tenant other prefix secret) m w = w
  step-Gone id (rotating none tenant other prefix secret) m w =
      elim (Option-cases (take_key other tenant.tenant_id m.keys)) [
        | inl missing ↦ rw (missing, step, rotate) w
        | inr ((found, others), e) ↦
            let kept =
              take_key-P (λ t. t.key_id ≢ id) other tenant.tenant_id m.keys found others w.1 e in
            rw (e, step, rotate) (w.0, put_key-P (λ t. t.key_id ≢ id) _ found others kept.0 kept.1)
      ]

  run-Gone :
      (id : ℕ) (calls : List Call) (m : MemoryApiKeyResolver) → Gone id m → Gone id (run calls m)
  unfolding run
  run-Gone id [] m w = w
  run-Gone id (call ∷ calls) m w = run-Gone id calls (step call m) (step-Gone id call m w)

  revoke-Gone :
      (m m' : MemoryApiKeyResolver) (tenant : TenantContext) (id : ℕ)
      → WellFormed m
      → revoke hash_api_key none m tenant id ≡ (m', ok true)
      → Gone id m'
  unfolding revoke Gone Taken
  revoke-Gone m m' tenant id w h = elim (Option-cases (take_key id tenant.tenant_id m.keys)) [
    | inl missing ↦ absurd (cc (rw (missing, revoke) at h))
    | inr ((found, others), e) ↦
        let (same_id, (same_tenant, (free, once))) =
          take_key-Taken id tenant.tenant_id m.keys found others w.distinct e in
        let (bound, bounds) =
          take_key-P (λ t. t.key_id ≤ m.next) id tenant.tenant_id m.keys found others w.bounded e in
        let left : record m { keys = others } ≡ m' = ap (λ r. r.0) (rw (e, revoke) at h) in
        subst (Gone id) left (subst (λ i. i ≤ m.next) same_id bound, free)
  ]

  resolve-P :
      (P : ℕ → Type 0) (m : MemoryApiKeyResolver) (raw_key : String) (t : TenantContext)
      → AllKeys (λ u. P u.key_id) m.keys
      → resolve hash_api_key none m raw_key ≡ ok t
      → P t.key_id
  unfolding resolve resolve_found
  resolve-P P m raw_key t all h = elim (Option-cases (find_key (hash_api_key raw_key) m.keys)) [
    | inl missing ↦ absurd (cc (rw (missing, resolve, resolve_found) at h))
    | inr (u, e) ↦
        let p = find_key-P (λ v. P v.key_id) (hash_api_key raw_key) m.keys u all e in
        let found = rw (e, resolve, resolve_found) at h in
        elim (Bool-cases (u.tenant_id == "" || u.region == "")) [
          | inl blank ↦ absurd (cc (rw blank at found))
          | inr named ↦ subst P (ap key_id_of (rw named at found)) p
        ]
  ]
    where
      key_id_of : Result TenantContext → ℕ
      key_id_of (ok v) = v.key_id
      key_id_of (err e) = 0

  -- From the new resolver, after any calls of create, revoke and rotate: when a revocation of an id
  -- answers true, no key resolves to that id any more, after whatever calls come later.
  pub revoked_for_good :
      (first_key : String) (first : TenantContext) (calls later : List Call)
      (m' : MemoryApiKeyResolver) (tenant : TenantContext) (id : ℕ) (raw_key : String)
      (t : TenantContext)
      → revoke hash_api_key none
          (run calls (new_memory_api_key_resolver hash_api_key first_key first))
          tenant
          id
        ≡ (m', ok true)
      → resolve hash_api_key none (run later m') raw_key ≡ ok t
      → t.key_id ≢ id
  unfolding Gone
  revoked_for_good first_key first calls later m' tenant id raw_key t revoked resolved =
      let start = new_memory_api_key_resolver hash_api_key first_key first in
      let w = run-WellFormed calls start (new-WellFormed first_key first) in
      let gone = run-Gone id later m' (revoke-Gone (run calls start) m' tenant id w revoked) in
      resolve-P (λ i. i ≢ id) (run later m') raw_key t gone.1 resolved
