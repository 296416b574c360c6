-- ===== src/Engine/Filter/Counts.antt =====
-- The accounting of `filterChunksConcurrently`: every candidate is counted once, and has a decision.
use groundwork.Base.{
  ℕ, zero, suc, String, ◌≡◌, refl, ap, ◌+◌, ◌≤◌, ◌<◌, Bool, false, ◌&&◌, List, [], ◌∷◌, ◌++◌, arith,
  Bool-cases, inl, inr, length, length-append, length-map, length-drop, map, drop,
}
use mathlib.Core.List.{map-append, append_assoc}
use native.Mathlib.Nat.{add-zero, zero-add}
use groundwork.Engine.Types.{QueryRequest, Candidate, AccessDecision}
use groundwork.Engine.CircuitBreaker.{CircuitBreaker, allow}
use groundwork.Engine.Filter.{
  AclChecker, Item, Outcome, Arrival, worker, collect_item, timed_out, decision_from_candidate,
  collect, nothing_yet, all_blocked, filter_chunks,
}
use groundwork.Engine.Filter.Permitted.{candidate-worker}

-- `n` candidates are decided: each has a decision, and is permitted or counted as blocked. All that
-- shadow mode could hand out was counted as blocked by the ACL.
pub record Balanced {F : Type 0} (n : ℕ) (o : Outcome F) : Type 0 where
  pub decided : length o.decisions ≡ n
  pub counted : length o.permitted + o.blocked_acl + o.blocked_region ≡ n
  pub shadowed : length o.blocked_valid ≤ o.blocked_acl

module _ {F : Type 0} (acl : AclChecker F) (req : QueryRequest) where
  Balanced-collect_item :
      (item : Item F) (n : ℕ) (o : Outcome F)
      → Balanced n o
      → Balanced (suc n) (collect_item item o)
  unfolding collect_item
  Balanced-collect_item item n o b = ground (
    arith,
    length-append o.decisions
        (decision_from_candidate item.candidate (item.allowed && item.region_ok) item.reason ∷ []),
    length-append o.permitted (item.candidate ∷ []),
    length-append o.blocked_valid (item.candidate ∷ []),
  )

  Balanced-timed_out :
      (candidates : List (Candidate F)) (n : ℕ) (o : Outcome F)
      → n ≤ length candidates
      → Balanced n o
      → Balanced (length candidates) (timed_out candidates o)
  unfolding timed_out
  Balanced-timed_out candidates n o h b =
      let late = λ (c : Candidate F). decision_from_candidate c false "acl_timeout_fail_closed" in
      let rest = drop (length o.decisions) candidates in
      omega (
        arith,
        length-append o.decisions (map late rest),
        length-map late rest,
        length-drop (length o.decisions) candidates,
      )

  Balanced-collect :
      (candidates : List (Candidate F)) (rounds : ℕ) (arrivals : List (Arrival F)) (n : ℕ)
      (o : Outcome F)
      → rounds + n ≡ length candidates
      → Balanced n o
      → Balanced (length candidates) (collect acl req candidates rounds arrivals o).0
  unfolding collect
  Balanced-collect candidates zero arrivals n o h b = omega arith
  Balanced-collect candidates (suc rounds) [] n o h b =
      Balanced-timed_out candidates n o (omega arith) b
  Balanced-collect candidates (suc rounds) (a ∷ arrivals) n o h b =
      Balanced-collect candidates rounds arrivals (suc n) (collect_item (worker acl req a) o)
        (omega arith) (Balanced-collect_item (worker acl req a) n o b)

Balanced-blocked :
    {F : Type 0} (candidates : List (Candidate F))
    → Balanced (length candidates) (all_blocked candidates)
unfolding all_blocked
Balanced-blocked {F} candidates = omega (
  arith,
  length-map (λ (c : Candidate F). decision_from_candidate c false "acl_circuit_open_fail_closed")
      candidates,
)

-- Whatever results arrive before the deadline, and in whatever order, and also with an open
-- breaker: there are as many decisions as candidates, the permitted candidates and the two counts
-- of blocked ones add up to the candidates, and no more candidates are kept for shadow mode than
-- the ACL count says.
pub filter_chunks-Balanced :
    {F : Type 0} (acl : AclChecker F) (req : QueryRequest) (asked reported : ℕ)
    (breaker : CircuitBreaker) (candidates : List (Candidate F)) (arrivals : List (Arrival F))
    → Balanced
        (length candidates)
        (filter_chunks acl req asked reported breaker candidates arrivals).0
unfolding filter_chunks
filter_chunks-Balanced acl req asked reported breaker candidates arrivals =
    elim (Bool-cases (allow asked breaker).1) [
      | inr refused ↦ rw (refused, filter_chunks) (Balanced-blocked candidates)
      | inl admitted ↦
          rw (admitted, filter_chunks)
            (Balanced-collect acl req candidates (length candidates) arrivals 0 nothing_yet
              (omega arith) (omega arith))
    ]

-- The chunk that a decision is about.
abbrev pub chunk_ids : {F : Type 0} → List (Candidate F) → List String
chunk_ids = map (λ c. c.chunk.chunk_id)

chunk_ids_late :
    {F : Type 0} (reason : String) (cs : List (Candidate F))
    → map
        (λ (d : AccessDecision). d.chunk_id)
        (map (λ c. decision_from_candidate c false reason) cs)
      ≡ chunk_ids cs
unfolding decision_from_candidate
chunk_ids_late reason [] = refl
chunk_ids_late reason (c ∷ cs) = ap (◌∷◌ c.chunk.chunk_id) (chunk_ids_late reason cs)

abbrev decided_ids : List AccessDecision → List String
decided_ids = map (λ d. d.chunk_id)

decided-item :
    {F : Type 0} (item : Item F) (o : Outcome F)
    → (collect_item item o).decisions
      ≡ o.decisions
        ++ (decision_from_candidate item.candidate (item.allowed && item.region_ok) item.reason
            ∷ [])
unfolding collect_item
decided-item item o = ground arith

id-decision :
    {F : Type 0} (c : Candidate F) (b : Bool) (reason : String)
    → (decision_from_candidate c b reason).chunk_id ≡ c.chunk.chunk_id
unfolding decision_from_candidate
id-decision c b reason = refl

decided-collect_item :
    {F : Type 0} (acl : AclChecker F) (req : QueryRequest) (a : Arrival F) (o : Outcome F)
    → (decided_ids (collect_item (worker acl req a) o).decisions
        ≡ decided_ids o.decisions ++ (a.candidate.chunk.chunk_id ∷ []))
      × (length (collect_item (worker acl req a) o).decisions ≡ length o.decisions + 1)
decided-collect_item acl req a o = (
  rw (decided-item, map-append, id-decision, candidate-worker acl req a),
  rw (decided-item, length-append),
)

shift_one : (n k : ℕ) → n + 1 + k ≡ n + suc k
shift_one n k = omega arith

late_decisions :
    {F : Type 0} (acl : AclChecker F) (req : QueryRequest) (candidates : List (Candidate F))
    (rounds : ℕ) (arrivals : List (Arrival F)) (o : Outcome F)
    → length arrivals < rounds
    → decided_ids (collect acl req candidates rounds arrivals o).0.decisions
      ≡ decided_ids o.decisions
        ++ (map (λ a. a.candidate.chunk.chunk_id) arrivals
            ++ chunk_ids (drop (length o.decisions + length arrivals) candidates))
unfolding collect timed_out
late_decisions acl req candidates zero arrivals o h = elim h [ ]
late_decisions acl req candidates (suc rounds) [] o h = rw (
  add-zero,
  timed_out,
  map-append,
  chunk_ids_late "acl_timeout_fail_closed" (drop (length o.decisions) candidates),
)
late_decisions acl req candidates (suc rounds) (a ∷ arrivals) o h =
    let (ids, count) = decided-collect_item acl req a o in
    rw (
      late_decisions acl req candidates rounds arrivals (collect_item (worker acl req a) o)
          (omega arith),
      ids,
      count,
      append_assoc,
      shift_one (length o.decisions) (length arrivals),
    )

-- When the deadline passes after fewer results than candidates have arrived, the decisions are
-- about the chunks that arrived, in that order, and then about the candidates from that number on
-- in the order of the retrieval, whether or not those are the ones that are undecided.
pub decisions-timed_out :
    {F : Type 0} (acl : AclChecker F) (req : QueryRequest) (candidates : List (Candidate F))
    (arrivals : List (Arrival F))
    → length arrivals < length candidates
    → map
        (λ d. d.chunk_id)
        (collect acl req candidates (length candidates) arrivals nothing_yet).0.decisions
      ≡ map (λ a. a.candidate.chunk.chunk_id) arrivals
        ++ chunk_ids (drop (length arrivals) candidates)
decisions-timed_out acl req candidates arrivals h =
    rw zero-add at (late_decisions acl req candidates (length candidates) arrivals nothing_yet h)
