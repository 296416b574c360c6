-- ===== src/Runtime/OpenFga/Allowed.antt =====
-- Access is granted only where OpenFGA has answered so.
use groundwork.Base.{
  ℕ, zero, suc, String, ◌<>◌, ◌≡◌, refl, sym, ap, subst, ◌∙◌, Bool, true, false, Option, none, some,
  string_eq, Bool-cases, Option-cases, inl, inr, Result-cases, ok, positive_or, arith,
}
use groundwork.Engine.Types.{QueryRequest, Chunk}
use groundwork.Runtime.Backoff.{attempts_from, retry_with_backoff}
use groundwork.Runtime.CircuitBreaker.{CircuitBreaker, allow}
use groundwork.Runtime.OpenFga.{
  Api, OpenFgaChecker, ensure, check_attempt, check_retried, checked, with_breaker, ask_checked,
  refuses, ensured_then, can_access,
}

-- Attempts that end without an error end with one that had none.
last_attempt :
    {S : Type 0} (fn : ℕ → S → S × Option String) (cancelled : ℕ → Option String) (left i : ℕ)
    (last : Option String) (s s' : S)
    → attempts_from fn cancelled (suc left) i last s ≡ (s', none)
    → (j : ℕ) × ((t : S) × (fn j t ≡ (s', none)))
unfolding attempts_from
last_attempt fn cancelled zero i last s s' h = (i, (s, h))
last_attempt fn cancelled (suc left) i last s s' h = elim (Option-cases (fn i s).1) [
  | inl success ↦ (i, (s, ap (λ e. ((fn i s).0, e)) success ∙ rw (success, attempts_from) at h))
  | inr (e, failure) ↦ elim (Option-cases (cancelled i)) [
    | inr (ended, stopped) ↦ absurd (cc (rw (failure, stopped, attempts_from) at h))
    | inl on ↦
        last_attempt fn cancelled left (suc i) (fn i s).1 (fn i s).0 s'
          (rw (failure, on, attempts_from) at h)
  ]
]

module _ (api : Api) where
  open api use {Server}

  -- OpenFGA, in some state, grants the object to the user in the store.
  pub Granted : String → String → String → Type 0
  Granted store user object = (t : Server) × ((api.post_check t store user object).1 ≡ ok true)

  attempt-Granted :
      (store user object : String) (t s' : Server) (p : Bool)
      → check_attempt api store user object (t, p) ≡ ((s', true), none)
      → Granted store user object
  unfolding check_attempt Granted
  attempt-Granted store user object t s' p h =
      elim (Result-cases (api.post_check t store user object).1) [
        | inl (granted, e) ↦
            let answer = rw (e, check_attempt) at h in (t, e ∙ ap (λ r. ok r.0.1) answer)
        | inr (problem, e) ↦ absurd (cc (rw (e, check_attempt) at h))
      ]

  check_retried-Granted :
      (cancelled : ℕ → Option String) (store user object : String) (s : Server) (r : Server × Bool)
      → check_retried api cancelled store user object s ≡ (r, none)
      → r.1 ≡ true
      → Granted store user object
  unfolding check_retried retry_with_backoff positive_or
  check_retried-Granted cancelled store user object s r h yes_answer =
      let (j, (t, e)) =
        last_attempt (λ i. check_attempt api store user object) cancelled 2 0 none (s, false) r h in
      attempt-Granted store user object t.0 r.0 t.1 (e ∙ ap (λ b. ((r.0, b), none)) yes_answer)

  checked_ok :
      (b b' : Option CircuitBreaker) (later : ℕ) (r : (Server × Bool) × Option String) (s' : Server)
      → checked api b later r ≡ (b', (s', ok true))
      → (r ≡ (r.0, none)) × (r.0.1 ≡ true)
  unfolding checked
  checked_ok none b' later ((s, granted), none) s' h = (refl, ground arith)
  checked_ok none b' later ((s, granted), some e) s' h = absurd (cc h)
  checked_ok (some b) b' later ((s, granted), none) s' h = (refl, ground arith)
  checked_ok (some b) b' later ((s, granted), some e) s' h = absurd (cc h)

  with_breaker_ok :
      (b : Option CircuitBreaker) (later : ℕ) (cancelled : ℕ → Option String) (user object : String)
      (o o' : OpenFgaChecker api) (s s' : Server)
      → with_breaker api o
          (checked api b later (check_retried api cancelled o.store_id user object s))
        ≡ (o', (s', ok true))
      → (o'.store_id ≡ o.store_id) × Granted o.store_id user object
  unfolding with_breaker
  with_breaker_ok b later cancelled user object o o' s s' h =
      let r = check_retried api cancelled o.store_id user object s in
      let end = checked api b later r in
      let (plain, granted) =
        checked_ok b end.0 later r s' (ap (λ q. (end.0, q)) (ap (λ q. q.1) h)) in
      (
        sym (ap (λ q. q.0.store_id) h),
        check_retried-Granted cancelled o.store_id user object s r.0 plain granted,
      )

  ask_checked-Granted :
      (now later : ℕ) (cancelled : ℕ → Option String) (user object : String)
      (o o' : OpenFgaChecker api) (s s' : Server)
      → ask_checked api now later cancelled user object o s ≡ (o', (s', ok true))
      → (o'.store_id ≡ o.store_id) × Granted o.store_id user object
  unfolding ask_checked
  ask_checked-Granted now later cancelled user object o o' s s' h = elim (Option-cases o.breaker) [
    | inl unguarded ↦
        with_breaker_ok none later cancelled user object o o' s s'
          (rw (unguarded, ask_checked) at h)
    | inr (b, guarded) ↦
        let asked = rw (guarded, ask_checked) at h in
        elim (Bool-cases (allow now b).1) [
          | inl admitted ↦
              with_breaker_ok (some (allow now b).0) later cancelled user object o o' s s'
                (rw admitted at asked)
          | inr shut ↦ absurd (cc (rw shut at asked))
        ]
  ]

  ensured_then-Granted :
      (now later : ℕ) (cancelled : ℕ → Option String) (user object : String)
      (r : OpenFgaChecker api × (Server × Option String)) (o' : OpenFgaChecker api) (s' : Server)
      → ensured_then api (ask_checked api now later cancelled user object) r ≡ (o', (s', ok true))
      → Granted o'.store_id user object
  unfolding ensured_then
  ensured_then-Granted now later cancelled user object (o, (s, some e)) o' s' h = absurd (cc h)
  ensured_then-Granted now later cancelled user object (o, (s, none)) o' s' h =
      let (same, granted) = ask_checked-Granted now later cancelled user object o o' s s' h in
      subst (λ id. Granted id user object) (sym same) granted

  -- For any OpenFGA server: if `CanAccess` answers yes, after provisioning and retries, then no
  -- identifier is empty, the chunk is the request's tenant's and not deleted, and the server has, in
  -- some state, answered yes to whether the user views the document in the checker's store.
  pub can_access-Granted :
      {F : Type 0} (now later : ℕ) (cancelled : ℕ → Option String) (req : QueryRequest)
      (chunk : Chunk F) (o o' : OpenFgaChecker api) (s s' : Server)
      → can_access api now later cancelled req chunk o s ≡ (o', (s', ok true))
      → (refuses req chunk ≡ false)
        × ((t : Server) × ((api.post_check t o'.store_id
                ("user:" <> req.user_id)
                ("document:" <> chunk.document_id)).1
              ≡ ok true))
  unfolding can_access Granted
  can_access-Granted now later cancelled req chunk o o' s s' h =
      elim (Bool-cases (refuses req chunk)) [
        | inl refused ↦ absurd (cc (rw (refused, can_access) at h))
        | inr asked ↦ (
          asked,
          ensured_then-Granted now later cancelled ("user:" <> req.user_id)
              ("document:" <> chunk.document_id) (ensure api o s) o' s'
              (rw (asked, can_access) at h),
        )
      ]
