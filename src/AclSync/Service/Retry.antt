-- ===== src/AclSync/Service/Retry.antt =====
-- `withRetry`: when it ends, and what it has done then.
use groundwork.Base.{
  ℕ, zero, suc, ◌+◌, ◌<◌, ◌≡◌, ◌≢◌, sym, subst, Bool, true, arith, Bool-cases, ◌⊎◌, inl, inr,
}
use native.Mathlib.Nat.{add-zero}
use groundwork.AclSync.Service.{succeeded, going_on, with_retry}

module _ {S : Type 0} (op : ℕ → S → S × Bool) (done : ℕ → Bool) where
  -- The state before the try `i + n`, when all tries before it are made.
  abbrev pub tried : ℕ → ℕ → S → S
  tried zero i s = s
  tried (suc n) i s = tried n (suc i) (op i s).0

  -- A try that succeeds, or a context that has ended.
  abbrev pub Final : ℕ → S → Type 0
  Final i s = ((op i s).1 ≡ true) ⊎ (done i ≡ true)

  next_index : (i n : ℕ) → suc i + n ≡ i + suc n
  next_index i n = omega arith

  -- If some try succeeds, or the context has ended after it, then retrying ends, as soon as that
  -- many tries are followed.
  pub with_retry_ends :
      (n fuel i : ℕ) (s e : S)
      → n < fuel
      → Final (i + n) (tried n i s)
      → with_retry op done fuel i s ≢ going_on e
  unfolding with_retry
  with_retry_ends zero (suc fuel) i s e h final =
      let final' = subst (λ k. Final k s) (add-zero i) final in ground arith
  with_retry_ends (suc n) (suc fuel) i s e h final =
      let rest =
        with_retry_ends n fuel (suc i) (op i s).0 e (omega arith)
          (subst (λ k. Final k (tried n (suc i) (op i s).0)) (sym (next_index i n)) final) in
      ground arith
  with_retry_ends n zero i s e h final = elim h [ ]

  -- Where retrying ends in success, the state is that of a try that succeeded.
  pub succeeded_try :
      (fuel i : ℕ) (s s' : S)
      → with_retry op done fuel i s ≡ succeeded s'
      → (n : ℕ) × ((op (i + n) (tried n i s)).1 ≡ true) × (s' ≡ (op (i + n) (tried n i s)).0)
  unfolding with_retry
  succeeded_try zero i s s' h = absurd (cc h)
  succeeded_try (suc fuel) i s s' h = elim (Bool-cases (op i s).1) [
    | inl success ↦ (zero, rw (add-zero i) success, rw (add-zero i) (ground arith))
    | inr failure ↦
        let later : with_retry op done fuel (suc i) (op i s).0 ≡ succeeded s' = ground arith in
        let (n, success, same) = succeeded_try fuel (suc i) (op i s).0 s' later in
        (
          suc n,
          subst (λ k. (op k (tried n (suc i) (op i s).0)).1 ≡ true) (next_index i n) success,
          subst (λ k. s' ≡ (op k (tried n (suc i) (op i s).0)).0) (next_index i n) same,
        )
  ]

  -- What every try keeps, retrying keeps.
  pub tried_keeps :
      (P : S → Type 0)
      → ((j : ℕ) (s : S) → P s → P (op j s).0)
      → (n i : ℕ) (s : S) → P s
      → P (tried n i s)
  tried_keeps P keep zero i s h = h
  tried_keeps P keep (suc n) i s h = tried_keeps P keep n (suc i) (op i s).0 (keep i s h)
