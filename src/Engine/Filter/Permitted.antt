-- ===== src/Engine/Filter/Permitted.antt =====
-- What can be in the lists that `filterChunksConcurrently` returns, for any order of arrivals.
use mathlib.Core.List.{Memᴰ}
use groundwork.Base.{
  ℕ, zero, suc, ◌≡◌, subst, sym, ◌∙◌, true, List, [], ◌∷◌, arith, Bool-cases, inl, inr, All,
  All-append, All-of, length,
}
use groundwork.Engine.Types.{QueryRequest, Candidate}
use groundwork.Engine.CircuitBreaker.{CircuitBreaker, allow}
use groundwork.Engine.Filter.{
  AclChecker, checked, Item, Outcome, Arrival, in_bounds, worker, collect_item, timed_out, collect,
  nothing_yet, all_blocked, filter_chunks,
}

module _ {F : Type 0} (acl : AclChecker F) (req : QueryRequest) where
  pub candidate-worker : (a : Arrival F) → (worker acl req a).candidate ≡ a.candidate
  unfolding worker
  candidate-worker a = ground arith

  pub region_ok-worker : (a : Arrival F) → (worker acl req a).region_ok ≡ in_bounds req a.candidate
  unfolding worker
  region_ok-worker a = ground arith

  -- A result says "allowed" only for a candidate in bounds whose check answered so.
  pub allowed-worker :
      (a : Arrival F)
      → (worker acl req a).allowed ≡ true
      → (in_bounds req a.candidate ≡ true) × (acl req a.candidate.chunk ≡ checked true)
  unfolding worker
  allowed-worker a h = ground arith

  module _ (P Q : Candidate F → Type 0) where
    -- `P` holds of all that is permitted, and `Q` of all that is blocked within bounds.
    record Holds (o : Outcome F) : Type 0 where
      permitted : All P o.permitted
      blocked : All Q o.blocked_valid

    Holds-collect_item :
        (item : Item F) (o : Outcome F)
        → (item.region_ok ≡ true → item.allowed ≡ true → P item.candidate)
        → (item.region_ok ≡ true → Q item.candidate)
        → Holds o
        → Holds (collect_item item o)
    unfolding collect_item
    Holds-collect_item item o yes_p yes_q h = elim (Bool-cases item.region_ok) [
      | inr out ↦ record {
        permitted = rw (out, collect_item) h.permitted;
        blocked = rw (out, collect_item) h.blocked;
      }
      | inl within ↦ elim (Bool-cases item.allowed) [
        | inl yes_allowed ↦ record {
          permitted =
              rw (within, yes_allowed, collect_item)
                (All-append P o.permitted (item.candidate ∷ []) h.permitted
                  (yes_p within yes_allowed, tt));
          blocked = rw (within, yes_allowed, collect_item) h.blocked;
        }
        | inr not_allowed ↦ record {
          permitted = rw (within, not_allowed, collect_item) h.permitted;
          blocked =
              rw (within, not_allowed, collect_item)
                (All-append Q o.blocked_valid (item.candidate ∷ []) h.blocked (yes_q within, tt));
        }
      ]
    ]

    Holds-collect :
        (candidates : List (Candidate F)) (rounds : ℕ) (arrivals : List (Arrival F)) (o : Outcome F)
        → All
            (λ a.
              (in_bounds req a.candidate ≡ true
                → acl req a.candidate.chunk ≡ checked true
                → P a.candidate)
              × (in_bounds req a.candidate ≡ true → Q a.candidate))
            arrivals
        → Holds o
        → Holds (collect acl req candidates rounds arrivals o).0
    unfolding collect timed_out
    Holds-collect candidates zero arrivals o each h = h
    Holds-collect candidates (suc rounds) [] o each h = record {
      permitted = h.permitted;
      blocked = h.blocked;
    }
    Holds-collect candidates (suc rounds) (a ∷ arrivals) o each h =
        let item = worker acl req a in
        Holds-collect candidates rounds arrivals (collect_item item o) each.1 (
          Holds-collect_item item o
            (λ within yes_allowed.
              let (b, c) = allowed-worker a yes_allowed in
              subst P (sym (candidate-worker a)) (each.0.0 b c))
            (λ within.
              subst Q (sym (candidate-worker a)) (each.0.1 (sym (region_ok-worker a) ∙ within)))
            h)

  module _ (candidates : List (Candidate F)) (arrivals : List (Arrival F))
      (sent : (a : Arrival F) → Memᴰ a arrivals → Memᴰ a.candidate candidates) where
    abbrev pub Permitted : Candidate F → Type 0
    Permitted c = Memᴰ c candidates × (in_bounds req c ≡ true) × (acl req c.chunk ≡ checked true)

    abbrev pub Within : Candidate F → Type 0
    Within c = Memᴰ c candidates × (in_bounds req c ≡ true)

    Holds-filter_chunks :
        (asked reported : ℕ) (breaker : CircuitBreaker)
        → Holds Permitted Within
            (filter_chunks acl req asked reported breaker candidates arrivals).0
    unfolding filter_chunks all_blocked
    Holds-filter_chunks asked reported breaker = elim (Bool-cases (allow asked breaker).1) [
      | inr refused ↦ rw (refused, filter_chunks) (record { permitted = tt; blocked = tt })
      | inl admitted ↦
          rw (admitted, filter_chunks)
            (Holds-collect Permitted Within candidates (length candidates) arrivals nothing_yet
              (All-of _ arrivals (λ a m. (λ b c. (sent a m, b, c), λ b. (sent a m, b))))
              (record { permitted = tt; blocked = tt }))
    ]

    pub permitted-filter_chunks :
        (asked reported : ℕ) (breaker : CircuitBreaker)
        → All Permitted
            (filter_chunks acl req asked reported breaker candidates arrivals).0.permitted
    permitted-filter_chunks asked reported breaker =
        (Holds-filter_chunks asked reported breaker).permitted

    pub blocked_valid-filter_chunks :
        (asked reported : ℕ) (breaker : CircuitBreaker)
        → All Within
            (filter_chunks acl req asked reported breaker candidates arrivals).0.blocked_valid
    blocked_valid-filter_chunks asked reported breaker =
        (Holds-filter_chunks asked reported breaker).blocked
