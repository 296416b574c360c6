-- ===== src/Engine/Query/Citations.antt =====
-- What can be cited in the response of `Execute`, and what must have been recorded before.
use groundwork.Base.{
  ℕ, String, ◌≡◌, ◌≢◌, refl, inl, inr, ◌||◌, List, [], Option, none, some, arith, Bool-cases, ◌==◌,
  string_eq,
}
use groundwork.Engine.Types.{QueryRequest, Candidate, Citation, QueryResponse, Platform}
use groundwork.Engine.Errors.{GoError}
use groundwork.Engine.Filter.{AclChecker}
use groundwork.Engine.Query.{
  Retrieval, retrieved, retrieval_failed, Engine, Parts, Run, retrieve, fail_closed, finish,
  after_retrieval, execute_with, execute,
}

-- How a response with citations came about: retrieval and the audit write succeeded.
pub record Answered (p : Platform) (parts : Parts p.F) (run : Run p.F) (req : QueryRequest)
    (e : Engine) (b : Option (QueryRequest → ℕ → Retrieval p.F)) (a : Option (AclChecker p.F))
    (r : Engine × QueryResponse p.F) : Type 0 where
  pub backend : QueryRequest → ℕ → Retrieval p.F
  pub acl : AclChecker p.F
  pub e1 : Engine
  pub candidates : List (Candidate p.F)
  pub has_backend : b ≡ some backend
  pub has_acl : a ≡ some acl
  pub found : retrieve p parts run req e backend 50 ≡ (e1, retrieved candidates)
  pub finished : r ≡ finish p parts run req e1 acl candidates

module _ (p : Platform) (parts : Parts p.F) (run : Run p.F) (req : QueryRequest) where
  abbrev citations_of : Engine × QueryResponse p.F → List (Citation p.F)
  citations_of r = r.1.citations

  pub uncited-fail_closed :
      (e : Engine) (stage error_code : String) (err : GoError)
      → (fail_closed p parts run req e stage error_code err).1.citations ≡ []
  unfolding fail_closed
  uncited-fail_closed e stage error_code err = refl

  Answered-with :
      (e : Engine) (b : Option (QueryRequest → ℕ → Retrieval p.F)) (a : Option (AclChecker p.F))
      → citations_of (execute_with p parts run req e b a) ≢ []
      → Answered p parts run req e b a (execute_with p parts run req e b a)
  unfolding execute_with
  Answered-with e none a h = absurd (h (uncited-fail_closed e _ _ _))
  Answered-with e (some backend) none h = absurd (h (uncited-fail_closed e _ _ _))
  Answered-with e (some backend) (some acl) h = after (retrieve p parts run req e backend 50) refl h
    where
      after :
          (f : Engine × Retrieval p.F)
          → retrieve p parts run req e backend 50 ≡ f
          → citations_of (after_retrieval p parts run req f.0 acl f.1) ≢ []
          → Answered p parts run req e
              (some backend)
              (some acl)
              (after_retrieval p parts run req f.0 acl f.1)
      after (e1, retrieval_failed err) eq h' =
          absurd (h' (unfold after_retrieval in uncited-fail_closed e1 _ _ _))
      after (e1, retrieved cs) eq h' = record {
        backend = backend;
        acl = acl;
        e1 = e1;
        candidates = cs;
        has_backend = refl;
        has_acl = refl;
        found = eq;
        finished = unfold after_retrieval in refl;
      }

  pub answered :
      (e : Engine)
      → citations_of (execute p parts run req e) ≢ []
      → Answered p parts run req e parts.backend parts.acl (execute p parts run req e)
  unfolding execute
  answered e h = elim (Bool-cases (req.tenant_id == "" || req.user_id == "" || req.region == "")) [
    | inl incomplete ↦ absurd (h (rw (incomplete, execute) (uncited-fail_closed e _ _ _)))
    | inr complete ↦
        rw (complete, execute)
          (Answered-with e parts.backend parts.acl
            (λ none_cited. h (rw (complete, execute) none_cited)))
  ]

  pub retrieve_found :
      (e : Engine) (backend : QueryRequest → ℕ → Retrieval p.F) (limit : ℕ)
      (cs : List (Candidate p.F))
      → (retrieve p parts run req e backend limit).1 ≡ retrieved cs
      → backend req limit ≡ retrieved cs
  unfolding retrieve
  retrieve_found e backend limit cs h = ground arith

  pub kept-retrieve :
      (e : Engine) (backend : QueryRequest → ℕ → Retrieval p.F) (limit : ℕ)
      → ((retrieve p parts run req e backend limit).0.shadow_mode ≡ e.shadow_mode)
        × ((retrieve p parts run req e backend limit).0.written ≡ e.written)
  unfolding retrieve
  kept-retrieve e backend limit = ground arith
