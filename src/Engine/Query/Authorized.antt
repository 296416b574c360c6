-- ===== src/Engine/Query/Authorized.antt =====
-- Which chunks `Execute` may cite: the candidates that pass the filter, in enforcing and in shadow
-- mode.
use mathlib.Core.List.{Memᴰ}
use groundwork.Base.{
  ℕ, ◌≡◌, ◌≢◌, refl, sym, ap, subst, ◌∙◌, ◌≤◌, Bool, true, false, List, [], ◌∷◌, Option, none, some,
  length, arith, Bool-cases, ◌⊎◌, inl, inr, All, All-map, All-of, All_at, All-append,
  mem_of_mem-take, length-map, length-take-le,
}
use groundwork.Engine.Types.{QueryRequest, Candidate, Citation, RuntimeTrace, Platform, SortLaws}
use groundwork.Engine.Errors.{GoError}
use groundwork.Engine.CircuitBreaker.{CircuitBreaker}
use groundwork.Engine.Filter.{AclChecker, checked, Arrival, in_bounds, filter_chunks}
use groundwork.Engine.Filter.Permitted.{
  Permitted, Within, permitted-filter_chunks, blocked_valid-filter_chunks,
}
use groundwork.Engine.Query.{
  Retrieval, retrieved, Engine, Parts, Run, breaker_or, rerank, citation, to_citations, write_audit,
  fail_closed, result_set, query_trace, answer_with, after_audit, finish, execute,
}
use groundwork.Engine.Query.Citations.{answered, retrieve_found, kept-retrieve}

module _ (p : Platform) (laws : SortLaws p) where
  open p use {F}

  -- A candidate that is kept by the ranking was given to it.
  mem_of_mem-rerank :
      (cs : List (Candidate F)) (limit : ℕ) (c : Candidate F)
      → Memᴰ c (rerank p cs limit)
      → Memᴰ c cs
  unfolding rerank
  mem_of_mem-rerank cs limit c m = laws.sort_mem (Candidate F) _ cs c (mem_of_mem-take limit _ m)

  length-rerank-le : (cs : List (Candidate F)) (limit : ℕ) → length (rerank p cs limit) ≤ limit
  unfolding rerank
  length-rerank-le cs limit = (length-take-le limit _).0

  module _ (parts : Parts F) (run : Run F) (req : QueryRequest) where
    -- The citations after the audit write are those of the ranked candidates, or none.
    citations-after_audit :
        (P : Citation F → Type 0) (e : Engine) (t : RuntimeTrace) (reranked : List (Candidate F))
        (audit_error : Option GoError)
        → All (λ c. P (citation p c)) reranked
        → All P (after_audit p parts run req e t reranked audit_error).1.citations
    unfolding after_audit fail_closed answer_with to_citations
    citations-after_audit P e t reranked (some err) each = tt
    citations-after_audit P e t [] none each = tt
    citations-after_audit P e t (c ∷ cs) none each = All-map P (citation p) (c ∷ cs) each

    length-after_audit :
        (e : Engine) (t : RuntimeTrace) (reranked : List (Candidate F))
        (audit_error : Option GoError)
        → length (after_audit p parts run req e t reranked audit_error).1.citations
          ≤ length reranked
    unfolding after_audit fail_closed answer_with to_citations
    length-after_audit e t reranked (some err) = omega arith
    length-after_audit e t [] none = omega arith
    length-after_audit e t (c ∷ cs) none = omega (arith, length-map (citation p) (c ∷ cs))

    module _ (acl : AclChecker F) (candidates : List (Candidate F))
        (sent : (a : Arrival F) → Memᴰ a run.arrivals → Memᴰ a.candidate candidates) where
      -- What a candidate may be handed out for.
      abbrev Released : Bool → Candidate F → Type 0
      Released shadow c =
          Memᴰ c candidates
          × (in_bounds req c ≡ true)
          × (shadow ≡ false → acl req c.chunk ≡ checked true)

      Released-result_set :
          (e : Engine) (asked reported : ℕ) (breaker : CircuitBreaker)
          → All (Released e.shadow_mode) (
              result_set p parts run req e
                (filter_chunks acl req asked reported breaker candidates run.arrivals).0)
      unfolding result_set
      Released-result_set e asked reported breaker =
          let o = (filter_chunks acl req asked reported breaker candidates run.arrivals).0 in
          let yes =
            permitted-filter_chunks acl req candidates run.arrivals sent asked reported breaker in
          let some_more =
            blocked_valid-filter_chunks acl req candidates run.arrivals sent asked reported
              breaker in
          elim (Bool-cases e.shadow_mode) [
            | inl on ↦
                rw (on, result_set)
                  (All-append (Released true) o.permitted o.blocked_valid
                    (All-of (Released true) o.permitted (λ c m.
                      let (b, w, y) =
                        All_at (Permitted acl req candidates run.arrivals sent) o.permitted yes m in
                      (b, w, λ off. y)))
                    (All-of (Released true) o.blocked_valid (λ c m.
                      let (b, w) =
                        All_at (Within acl req candidates run.arrivals sent) o.blocked_valid
                          some_more m in
                      (b, w, λ off. cc))))
            | inr off ↦
                rw (off, result_set)
                  (All-of (Released false) o.permitted (λ c m.
                    let (b, w, y) =
                      All_at (Permitted acl req candidates run.arrivals sent) o.permitted yes m in
                    (b, w, λ off'. y)))
          ]

      -- A citation of a candidate that may be handed out.
      abbrev pub Cites : Bool → Citation F → Type 0
      Cites shadow cited = (c : Candidate F) × (cited ≡ citation p c) × Released shadow c

      pub released-finish :
          (e : Engine)
          → All (Cites e.shadow_mode) (finish p parts run req e acl candidates).1.citations
      unfolding finish rerank
      released-finish e =
          let breaker = breaker_or e.acl_circuit 3 10_000_000_000 in
          let filtered =
            filter_chunks acl req run.acl_asked run.acl_reported breaker candidates run.arrivals in
          let all = result_set p parts run req e filtered.0 in
          let reranked = rerank p all 7 in
          let t = query_trace p parts run req e candidates filtered.0 reranked in
          let e1 = record e { acl_circuit = some filtered.1 } in
          let audited = write_audit p parts run req e1 t in
          citations-after_audit (Cites e.shadow_mode) audited.0 t reranked audited.1 (
            All-of _ reranked (λ c m. (
              c,
              refl,
              All_at (Released e.shadow_mode) all
                  (Released-result_set e run.acl_asked run.acl_reported breaker)
                  (mem_of_mem-rerank all 7 c m),
            )))

    length-finish :
        (e : Engine) (acl : AclChecker F) (candidates : List (Candidate F))
        → length (finish p parts run req e acl candidates).1.citations ≤ 7
    unfolding finish
    length-finish e acl candidates =
        let breaker = breaker_or e.acl_circuit 3 10_000_000_000 in
        let filtered =
          filter_chunks acl req run.acl_asked run.acl_reported breaker candidates run.arrivals in
        let all = result_set p parts run req e filtered.0 in
        let reranked = rerank p all 7 in
        let t = query_trace p parts run req e candidates filtered.0 reranked in
        let e1 = record e { acl_circuit = some filtered.1 } in
        let audited = write_audit p parts run req e1 t in
        omega (arith, length-after_audit audited.0 t reranked audited.1, length-rerank-le all 7)

pub list_cases {ℓ} : {A : Type ℓ} (xs : List A) → (xs ≡ []) ⊎ (xs ≢ [])
list_cases [] = inl refl
list_cases (x ∷ xs) = inr (λ h. cc)

module _ (p : Platform) (laws : SortLaws p) (parts : Parts p.F) (run : Run p.F) (req : QueryRequest)
    (backend : QueryRequest → ℕ → Retrieval p.F) (acl : AclChecker p.F)
    (candidates : List (Candidate p.F)) (has_backend : parts.backend ≡ some backend)
    (has_acl : parts.acl ≡ some acl) (found : backend req 50 ≡ retrieved candidates)
    (sent : (a : Arrival p.F) → Memᴰ a run.arrivals → Memᴰ a.candidate candidates)
    (e : Engine) where
  -- An answer with citations comes from these candidates, with the mode of the engine asked.
  from_candidates :
      (execute p parts run req e).1.citations ≢ []
      → (e1 : Engine) × (e1.shadow_mode ≡ e.shadow_mode)
        × (execute p parts run req e ≡ finish p parts run req e1 acl candidates)
  from_candidates h =
      let a = answered p parts run req e h in
      let same_backend : a.backend ≡ backend = cc (a.has_backend, has_backend) in
      let same_acl : a.acl ≡ acl = cc (a.has_acl, has_acl) in
      let result =
        retrieve_found p parts run req e a.backend 50 a.candidates (ap (λ r. r.1) a.found) in
      let kept = kept-retrieve p parts run req e a.backend 50 in
      let same_candidates : a.candidates ≡ candidates = cc (result, found, same_backend) in
      (
        a.e1,
        sym (ap (λ r. r.0.shadow_mode) a.found) ∙ kept.0,
        a.finished ∙ cc (same_acl, same_candidates),
      )

  -- Let the engine have a retrieval client, which answers the request with these candidates, and a
  -- checker, and let every received result be of one of them. Then in either mode: a citation in the answer is that of a retrieved candidate of the request's
  -- region and tenant, and there are at most seven.
  pub execute-in_bounds :
      All
        (λ cited.
          (c : Candidate p.F) × (cited ≡ citation p c)
          × Memᴰ c candidates
          × (in_bounds req c ≡ true))
        (execute p parts run req e).1.citations
      × (length (execute p parts run req e).1.citations ≤ 7)
  execute-in_bounds = elim (list_cases (execute p parts run req e).1.citations) [
    | inl none_cited ↦ rw (none_cited) (tt, omega arith)
    | inr some_cited ↦
        let (e1, mode, eq) = from_candidates some_cited in
        (
          All-of _ _ (λ cited m.
              let (c, cites, (mem, within, checked')) =
                All_at _ _ (released-finish p laws parts run req acl candidates sent e1)
                  (subst (λ r. Memᴰ cited r.1.citations) eq m) in
              (c, cites, mem, within)),
          subst (λ r. length r.1.citations ≤ 7) (sym eq)
              (length-finish p laws parts run req e1 acl candidates),
        )
  ]

  -- Let the engine have a retrieval client, which answers the request with these candidates, and a
  -- checker, and let every received result be of one of them. With shadow mode off, a citation in the answer is that of a retrieved candidate of the
  -- request's region and tenant for whose chunk the ACL check answered yes to this request.
  pub execute-authorized :
      e.shadow_mode ≡ false
      → All
          (λ cited.
            (c : Candidate p.F) × (cited ≡ citation p c)
            × Memᴰ c candidates
            × (in_bounds req c ≡ true)
            × (acl req c.chunk ≡ checked true))
          (execute p parts run req e).1.citations
  execute-authorized off = elim (list_cases (execute p parts run req e).1.citations) [
    | inl none_cited ↦ rw (none_cited) tt
    | inr some_cited ↦
        let (e1, mode, eq) = from_candidates some_cited in
        All-of _ _ (λ cited m.
          let (c, cites, (mem, within, checked')) =
            All_at _ _ (released-finish p laws parts run req acl candidates sent e1)
              (subst (λ r. Memᴰ cited r.1.citations) eq m) in
          (c, cites, mem, within, checked' (mode ∙ off)))
  ]
