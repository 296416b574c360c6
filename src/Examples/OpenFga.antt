-- ===== src/Examples/OpenFga.antt =====
-- The OpenFGA client on a server that has the store already and grants everything.
use groundwork.Base.{
  ℕ, String, ◌<>◌, ◌≡◌, refl, true, false, [], ◌∷◌, Option, none, some, ok, contains, lowered,
  lowers_to, lowered_contains, positive_or,
}
use groundwork.Engine.Types.{QueryRequest, Chunk}
use groundwork.Runtime.Backoff.{attempts_from, retry_with_backoff}
use groundwork.Runtime.OpenFga.{
  Api, OpenFgaChecker, says_already, refuses, store_named, ensure_store, has_folder,
  reconcile_model, provision, settled, ensure, check_attempt, check_retried, checked, with_breaker,
  ask_checked, ensured_then, can_access,
}
use groundwork.Runtime.OpenFga.Allowed.{can_access-Granted}

-- The server counts the requests.
abbrev generous : Api
generous = record {
  Server = ℕ;
  get_stores = λ n. (ℕ.suc n, ok (("s1", "groundwork_local") ∷ []));
  post_store = λ n name. (ℕ.suc n, ok "s2");
  post_model = λ n store. (ℕ.suc n, none);
  get_latest_types = λ n store. (ℕ.suc n, ok (some ("user" ∷ "folder" ∷ [])));
  post_write = λ n store tuples. (ℕ.suc n, none);
  post_check = λ n store user object. (ℕ.suc n, ok true);
}

abbrev checker : OpenFgaChecker generous
checker = record { store_name = "groundwork_local"; store_id = ""; ready = false; breaker = none }

abbrev request : QueryRequest
request = record {
  tenant_id = "acme";
  user_id = "bob";
  region = "eu";
  question = "q";
  agent_key_id = 1;
  agent_key_name = "k";
}

abbrev chunk : Chunk ℕ
chunk = record {
  tenant_id = "acme";
  region = "eu";
  document_id = "plan";
  chunk_id = "c1";
  chunk_hash = "h";
  page = 1;
  offset = 0;
  text = "text";
  required_scope = "";
  owner_acl_tags = [];
  freshness_score = 0;
  soft_deleted = false;
}

abbrev at_ease : ℕ → Option String
at_ease i = none

granted :
    can_access generous 5 6 at_ease request chunk checker 0
    ≡ (record checker { store_id = "s1"; ready = true }, (3, ok true))
unfolding can_access ensure ask_checked refuses ensured_then ensure_store store_named provision
    reconcile_model has_folder settled check_retried check_attempt checked with_breaker
    retry_with_backoff attempts_from positive_or contains
granted = refl

passes_over : says_already "the tuple is Already there" ≡ true
unfolding says_already lowered_contains lowers_to lowered
passes_over = refl

can_access-Granted_example :
    (refuses request chunk ≡ false)
    × ((t : ℕ) × ((generous.post_check t "s1" ("user:" <> "bob") ("document:" <> "plan")).1
          ≡ ok true))
can_access-Granted_example =
    can_access-Granted generous 5 6 at_ease request chunk checker
      (record checker { store_id = "s1"; ready = true }) 0 3 granted
