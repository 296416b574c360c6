-- ===== src/Engine/Query/Audited.antt =====
-- What `Execute` has recorded before it answers with citations, and when it answers with none.
use groundwork.Base.{
  ℕ, ◌≡◌, ◌≢◌, refl, sym, ap, subst, ◌∙◌, Bool, true, false, ◌||◌, List, [], ◌∷◌, ◌++◌, Option,
  none, some, length, arith, Bool-cases, ◌⊎◌, inl, inr, length-map, ◌==◌, string_eq,
}
use groundwork.Engine.Types.{QueryRequest, Candidate, RuntimeTrace, QueryResponse, Platform}
use groundwork.Engine.Errors.{GoError}
use groundwork.Engine.CircuitBreaker.{CircuitBreaker, allow}
use groundwork.Engine.Filter.{AclChecker, Outcome, filter_chunks}
use groundwork.Engine.Query.{
  AuditEntry, Retrieval, retrieved, retrieval_failed, Engine, Parts, Run, breaker_or, rerank,
  citation, to_citations, audit_entry_from_trace, write_audit, write_entry, fail_closed, result_set,
  query_trace, answer_with, after_audit, finish, execute,
}
use groundwork.Engine.Query.Citations.{Answered, answered, kept-retrieve, retrieve_found}
use groundwork.Engine.Query.Authorized.{list_cases}

-- The entry records an answered query: whose it was, and how much it cited.
pub record Records (p : Platform) (req : QueryRequest) (r : QueryResponse p.F) (entry : AuditEntry)
    : Type 0 where
  pub same_trace : entry.trace_id ≡ r.trace.trace_id
  pub same_tenant : entry.tenant_id ≡ req.tenant_id
  pub same_user : entry.user_id ≡ req.user_id
  pub same_question : entry.query_hash ≡ p.hash_text req.question
  pub not_failed : entry.fail_closed ≡ false
  pub counted : entry.candidates_allowed ≡ length r.citations
  pub same_decisions : entry.access_decisions ≡ r.trace.access_decisions

-- The auditor is there, and has answered the write of the entry without an error.
pub record Confirms {F : Type 0} (parts : Parts F) (entry : AuditEntry) : Type 0 where
  pub write : AuditEntry → Option GoError
  pub has : parts.auditor ≡ some write
  pub accepts : write entry ≡ none

some-none {ℓ} : {A : Type ℓ} {x : A} → some x ≢ none
some-none h = cc

some_eq {ℓ} : {A : Type ℓ} {x y : A} → some x ≡ some y → x ≡ y
some_eq h = cc

retrieved_failed :
    {F : Type 0} {cs : List (Candidate F)} {err : GoError} → retrieved cs ≢ retrieval_failed err
retrieved_failed h = cc

either_empty : (a b c : Bool) → (a ≡ true) ⊎ ((b ≡ true) ⊎ (c ≡ true)) → (a || b || c) ≡ true
either_empty a b c h = ground arith

module _ (p : Platform) (parts : Parts p.F) (run : Run p.F) (req : QueryRequest) where
  written-write_audit :
      (e : Engine) (t : RuntimeTrace)
      → (write_audit p parts run req e t).1 ≡ none
      → (write_audit p parts run req e t).0.written
        ≡ e.written ++ (audit_entry_from_trace p t req ∷ [])
  unfolding write_audit write_entry
  written-write_audit e t h = ground arith

  accepted-write_entry :
      (e : Engine) (c : CircuitBreaker) (entry : AuditEntry) (answer : Option GoError)
      → (write_entry p parts run req e c entry answer).1 ≡ none
      → answer ≡ none
  unfolding write_entry
  accepted-write_entry e c entry (some err) h = absurd (some-none h)
  accepted-write_entry e c entry none h = refl

  accepted-write_audit :
      (e : Engine) (t : RuntimeTrace)
      → (write_audit p parts run req e t).1 ≡ none
      → (write : AuditEntry → Option GoError) × (parts.auditor ≡ some write)
        × (write (audit_entry_from_trace p t req) ≡ none)
  unfolding write_audit
  accepted-write_audit e t h = accepted parts.auditor refl
    where
      accepted :
          (a : Option (AuditEntry → Option GoError))
          → parts.auditor ≡ a
          → (write : AuditEntry → Option GoError) × (parts.auditor ≡ some write)
            × (write (audit_entry_from_trace p t req) ≡ none)
      accepted none eq = absurd (some-none (rw (eq, write_audit) at h))
      accepted (some write) eq =
          let (c, admitted) = allow run.audit_asked (breaker_or e.audit_circuit 5 30_000_000_000) in
          let h' = rw (eq, write_audit) at h in
          elim (Bool-cases
            (allow run.audit_asked (breaker_or e.audit_circuit 5 30_000_000_000)).1) [
              | inl passed ↦ (write, eq, accepted-write_entry e c _ _ (rw passed at h'))
              | inr refused ↦ absurd (some-none (rw refused at h'))
            ]

  confirmed-after_audit :
      (e : Engine) (t : RuntimeTrace) (reranked : List (Candidate p.F))
      (audit_error : Option GoError)
      → (after_audit p parts run req e t reranked audit_error).1.citations ≢ []
      → (audit_error ≡ none)
        × (after_audit p parts run req e t reranked audit_error
            ≡ (e, answer_with p parts run req t reranked))
  unfolding after_audit fail_closed
  confirmed-after_audit e t reranked (some err) h = absurd (h refl)
  confirmed-after_audit e t reranked none h = (refl, refl)

  length-answer_with :
      (t : RuntimeTrace) (reranked : List (Candidate p.F))
      → length (answer_with p parts run req t reranked).citations ≡ length reranked
  unfolding answer_with to_citations
  length-answer_with t [] = refl
  length-answer_with t (c ∷ cs) = length-map (citation p) (c ∷ cs)

  trace-answer_with :
      (t : RuntimeTrace) (reranked : List (Candidate p.F))
      → (answer_with p parts run req t reranked).trace ≡ t
  unfolding answer_with
  trace-answer_with t [] = refl
  trace-answer_with t (c ∷ cs) = refl

  Records-answer_with :
      (e : Engine) (candidates : List (Candidate p.F)) (o : Outcome p.F)
      (reranked : List (Candidate p.F))
      → let t = query_trace p parts run req e candidates o reranked in
        Records p req (answer_with p parts run req t reranked) (audit_entry_from_trace p t req)
  unfolding query_trace audit_entry_from_trace
  Records-answer_with e candidates o reranked =
      let t = query_trace p parts run req e candidates o reranked in
      let same = trace-answer_with t reranked in
      record {
        same_trace = ap (λ x. x.trace_id) (sym same);
        same_tenant = refl;
        same_user = refl;
        same_question = refl;
        not_failed = refl;
        counted = sym (length-answer_with t reranked);
        same_decisions = ap (λ x. x.access_decisions) (sym same);
      }

  Recorded : Engine → Engine × QueryResponse p.F → Type 0
  Recorded e r =
      (entry : AuditEntry) × (r.0.written ≡ e.written ++ (entry ∷ []))
      × Records p req r.1 entry
      × Confirms parts entry

  Recorded-finish :
      (e : Engine) (acl : AclChecker p.F) (candidates : List (Candidate p.F))
      → (finish p parts run req e acl candidates).1.citations ≢ []
      → Recorded e (finish p parts run req e acl candidates)
  unfolding finish Recorded
  Recorded-finish e acl candidates h =
      let breaker = breaker_or e.acl_circuit 3 10_000_000_000 in
      let filtered =
        filter_chunks acl req run.acl_asked run.acl_reported breaker candidates run.arrivals in
      let reranked = rerank p (result_set p parts run req e filtered.0) 7 in
      let t = query_trace p parts run req e candidates filtered.0 reranked in
      let e1 = record e { acl_circuit = some filtered.1 } in
      let audited = write_audit p parts run req e1 t in
      let (confirmed, same) = confirmed-after_audit audited.0 t reranked audited.1 h in
      let (write, has, accepts) = accepted-write_audit e1 t confirmed in
      (
        audit_entry_from_trace p t req,
        ap (λ r. r.0.written) same ∙ written-write_audit e1 t confirmed,
        subst (λ r. Records p req r.1 (audit_entry_from_trace p t req)) (sym same)
            (Records-answer_with e candidates filtered.0 reranked),
        record { write = write; has = has; accepts = accepts },
      )

  -- An answer with citations is given only after the auditor has confirmed exactly one entry for
  -- it, which has the answer's trace and the request's tenant, user and question, is not marked as
  -- failed closed, and counts as many allowed candidates as there are citations, and holds the trace's decisions.
  pub execute-Records :
      (e : Engine)
      → (execute p parts run req e).1.citations ≢ []
      → (entry : AuditEntry) × ((execute p parts run req e).0.written ≡ e.written ++ (entry ∷ []))
        × Records p req (execute p parts run req e).1 entry
        × Confirms parts entry
  unfolding Recorded
  execute-Records e h =
      let a = answered p parts run req e h in
      let kept = kept-retrieve p parts run req e a.backend 50 in
      let (entry, written, records, confirms) =
        Recorded-finish a.e1 a.acl a.candidates
          (λ none_cited. h (ap (λ r. r.1.citations) a.finished ∙ none_cited)) in
      (
        entry,
        ap (λ r. r.0.written) a.finished
            ∙ written
            ∙ ap (λ w. w ++ (entry ∷ [])) (sym (ap (λ r. r.0.written) a.found) ∙ kept.1),
        subst (λ r. Records p req r.1 entry) (sym a.finished) records,
        confirms,
      )

-- What makes an answer impossible: an incomplete request, a part that is nil, a failed retrieval,
-- or an auditor that refuses every entry.
pub data Outage (F : Type 0) (parts : Parts F) (req : QueryRequest) : Type 0 where
  no_tenant : req.tenant_id ≡ "" → Outage F parts req
  no_user : req.user_id ≡ "" → Outage F parts req
  no_region : req.region ≡ "" → Outage F parts req
  no_backend : parts.backend ≡ none → Outage F parts req
  no_acl : parts.acl ≡ none → Outage F parts req
  backend_fails :
      (backend : QueryRequest → ℕ → Retrieval F) (err : GoError)
      → parts.backend ≡ some backend
      → backend req 50 ≡ retrieval_failed err
      → Outage F parts req
  no_auditor : parts.auditor ≡ none → Outage F parts req
  auditor_fails :
      (write : AuditEntry → Option GoError)
      → parts.auditor ≡ some write
      → ((entry : AuditEntry) → write entry ≢ none)
      → Outage F parts req

module _ (p : Platform) (parts : Parts p.F) (run : Run p.F) (req : QueryRequest) where
  uncited-incomplete :
      (e : Engine)
      → (req.tenant_id == "" || req.user_id == "" || req.region == "") ≡ true
      → (execute p parts run req e).1.citations ≡ []
  unfolding execute fail_closed
  uncited-incomplete e h = rw (h, execute) refl

  -- An answer without citations, where one with citations is impossible.
  uncited :
      (e : Engine)
      → (Answered p parts run req e parts.backend parts.acl (execute p parts run req e)
          → (entry : AuditEntry) → Confirms parts entry
          → ⊥)
      → (execute p parts run req e).1.citations ≡ []
  uncited e impossible = elim (list_cases (execute p parts run req e).1.citations) [
    | inl none_cited ↦ none_cited
    | inr some_cited ↦
        let (entry, written, records, confirms) = execute-Records p parts run req e some_cited in
        absurd (impossible (answered p parts run req e some_cited) entry confirms)
  ]

  -- In an outage nothing is cited: without tenant, user or region in the request, without a
  -- retrieval client, checker or auditor, when retrieval fails, or when every write of an entry is
  -- refused.
  pub execute_fails_closed :
      (e : Engine) → Outage p.F parts req → (execute p parts run req e).1.citations ≡ []
  execute_fails_closed e (no_tenant h) = uncited-incomplete e (
      either_empty (req.tenant_id == "") (req.user_id == "") (req.region == "")
        (inl (ap (λ s. s == "") h)))
  execute_fails_closed e (no_user h) = uncited-incomplete e (
      either_empty (req.tenant_id == "") (req.user_id == "") (req.region == "")
        (inr (inl (ap (λ s. s == "") h))))
  execute_fails_closed e (no_region h) = uncited-incomplete e (
      either_empty (req.tenant_id == "") (req.user_id == "") (req.region == "")
        (inr (inr (ap (λ s. s == "") h))))
  execute_fails_closed e (no_backend h) = uncited e (λ a entry c. some-none (sym a.has_backend ∙ h))
  execute_fails_closed e (no_acl h) = uncited e (λ a entry c. some-none (sym a.has_acl ∙ h))
  execute_fails_closed e (backend_fails backend err has fails) = uncited e (λ a entry c.
      let same = some_eq (sym a.has_backend ∙ has) in
      let result =
        retrieve_found p parts run req e a.backend 50 a.candidates (ap (λ r. r.1) a.found) in
      retrieved_failed (sym result ∙ ap (λ b. b req 50) same ∙ fails))
  execute_fails_closed e (no_auditor h) = uncited e (λ a entry c. some-none (sym c.has ∙ h))
  execute_fails_closed e (auditor_fails write has refuses) =
      uncited e
        (λ a entry c. refuses _ (subst (λ w. w _ ≡ none) (some_eq (sym c.has ∙ has)) c.accepts))
