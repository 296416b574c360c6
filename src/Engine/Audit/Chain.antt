-- ===== src/Engine/Audit/Chain.antt =====
-- The chain of a tenant under writes and under removal of rows, as `VerifyChain` sees it.
use mathlib.Core.List.{map-append}
use groundwork.Base.{
  ℕ, suc, String, ◌≡◌, ◌≢◌, refl, sym, ap, subst, ◌∙◌, ◌+◌, ◌<◌, true, false, List, [], ◌∷◌, ◌++◌,
  none, some, map, length, arith, Bool-cases, ◌⊎◌, inl, inr, ◌==◌, ==_refl, string_eq, ok, All,
}
use groundwork.Engine.Query.{AuditEntry}
use mathlib.Core.List.{append_assoc}
use native.Mathlib.Nat.{add-zero, zero-add}
use groundwork.Engine.Audit.{
  entry_problems, digest_problem, link_problem, Formats, compute_digest, null_string, scan_string,
  Row, Database, row_of, entry_of, before, insert_row, tenant_rows, load_audit_chain, last_digest,
  latest_digest, stamp, linked, sealed, write, verify_from, verify_chain,
}

insert_row-last :
    (r : Row) (xs : List Row)
    → All (λ x. x.stored.timestamp_utc < r.stored.timestamp_utc) xs
    → insert_row r xs ≡ xs ++ (r ∷ [])
unfolding insert_row before
insert_row-last r [] h = refl
insert_row-last r (x ∷ xs) (first, rest) =
    let older : before r x ≡ false = ground arith in
    rw (older, insert_row, insert_row-last r xs rest)

tenant_rows-last :
    (r : Row) (tenant : String) (rows : List Row)
    → r.stored.tenant_id ≡ tenant
    → All (λ x. x.stored.timestamp_utc < r.stored.timestamp_utc) (tenant_rows tenant rows)
    → tenant_rows tenant (r ∷ rows) ≡ tenant_rows tenant rows ++ (r ∷ [])
unfolding tenant_rows
tenant_rows-last r tenant rows own later =
    let same : (r.stored.tenant_id == tenant) ≡ true =
      (string_eq.equals_iff r.stored.tenant_id tenant).1 own in
    rw (same, tenant_rows, insert_row-last r (tenant_rows tenant rows) later)

stored-row_of : (id : ℕ) (e : AuditEntry) → (row_of id e).stored ≡ e
unfolding row_of
stored-row_of id e = refl

scan_string-null_string : (s : String) → scan_string (null_string s) ≡ s
unfolding null_string scan_string
scan_string-null_string s = elim (Bool-cases (s == "")) [
  | inl empty ↦ rw (empty, null_string) (sym ((string_eq.equals_iff s "").0 empty))
  | inr full ↦ rw (full, null_string, scan_string)
]

-- What is read back of an inserted entry.
entry_of-row_of :
    (id : ℕ) (e : AuditEntry)
    → entry_of (row_of id e)
      ≡ record e { agent_key_id = 0; agent_key_name = ""; access_decisions = [] }
unfolding entry_of row_of
entry_of-row_of id e = rw (
  scan_string-null_string e.fail_stage,
  scan_string-null_string e.error_code,
  scan_string-null_string e.error_message,
  scan_string-null_string e.previous_hash,
)

-- The digest and the link of an entry survive the database.
digest-entry_of :
    (f : Formats) (id : ℕ) (e : AuditEntry)
    → compute_digest f (entry_of (row_of id e)) ≡ compute_digest f e
unfolding compute_digest
digest-entry_of f id e = rw (entry_of-row_of id e, compute_digest)

cons_nil : {A : Type 0} {x : A} {xs : List A} → x ∷ xs ≢ []
cons_nil e = cc

parts-append : {A : Type 0} (xs ys : List A) → xs ++ ys ≡ [] → (xs ≡ []) × (ys ≡ [])
parts-append [] ys h = (refl, h)
parts-append (x ∷ xs) ys h = absurd (cons_nil h)

module _ (f : Formats) where
  -- The digest that the verifier holds after some entries.
  digest_after : String → List AuditEntry → String
  digest_after d [] = d
  digest_after d (e ∷ es) = digest_after e.immutable_digest es

  verify_from-append :
      (i : ℕ) (d : String) (xs ys : List AuditEntry)
      → verify_from f i d (xs ++ ys)
        ≡ verify_from f i d xs ++ verify_from f (i + length xs) (digest_after d xs) ys
  unfolding verify_from digest_after
  verify_from-append i d [] ys = rw (add-zero)
  verify_from-append i d (x ∷ xs) ys =
      rw (verify_from-append (suc i) x.immutable_digest xs ys, append_assoc, shift i (length xs))
    where
      shift : (a b : ℕ) → suc a + b ≡ a + suc b
      shift a b = omega arith

  unbroken :
      (i : ℕ) (d : String) (e : AuditEntry)
      → (i ≡ 0) ⊎ (e.previous_hash ≡ d)
      → link_problem i d e ≡ []
  unfolding link_problem
  unbroken i d e (inl first) = rw (first, link_problem)
  unbroken i d e (inr same) = rw (same, ==_refl d, link_problem) (ground arith)

  -- An entry is fine if its digest is right and it is the first one or linked to the one before.
  entry_problems-none :
      (i : ℕ) (d : String) (e : AuditEntry)
      → compute_digest f e ≡ e.immutable_digest
      → (i ≡ 0) ⊎ (e.previous_hash ≡ d)
      → entry_problems f i d e ≡ []
  unfolding entry_problems digest_problem
  entry_problems-none i d e right place =
      rw (right, ==_refl e.immutable_digest, digest_problem) (unbroken i d e place)

  linked_of_link_problem :
      (i : ℕ) (d : String) (e : AuditEntry) → link_problem (suc i) d e ≡ [] → e.previous_hash ≡ d
  unfolding link_problem
  linked_of_link_problem i d e h = elim (Bool-cases (e.previous_hash == d)) [
    | inl same ↦ (string_eq.equals_iff e.previous_hash d).0 same
    | inr differ ↦ ground arith
  ]

  right_of_digest_problem :
      (i : ℕ) (e : AuditEntry) → digest_problem f i e ≡ [] → compute_digest f e ≡ e.immutable_digest
  unfolding digest_problem
  right_of_digest_problem i e h = elim (Bool-cases (compute_digest f e == e.immutable_digest)) [
    | inl same ↦ (string_eq.equals_iff (compute_digest f e) e.immutable_digest).0 same
    | inr differ ↦ ground arith
  ]

  linked_of_entry_problems :
      (i : ℕ) (d : String) (e : AuditEntry)
      → entry_problems f (suc i) d e ≡ []
      → e.previous_hash ≡ d
  unfolding entry_problems
  linked_of_entry_problems i d e h =
      linked_of_link_problem i d e
        (parts-append (digest_problem f (suc i) e) (link_problem (suc i) d e) h).1

  right_of_entry_problems :
      (i : ℕ) (d : String) (e : AuditEntry)
      → entry_problems f i d e ≡ []
      → compute_digest f e ≡ e.immutable_digest
  unfolding entry_problems
  right_of_entry_problems i d e h =
      right_of_digest_problem i e (parts-append (digest_problem f i e) (link_problem i d e) h).0

  linked_at :
      (i : ℕ) (d : String) (e : AuditEntry) (es : List AuditEntry)
      → verify_from f (suc i) d (e ∷ es) ≡ []
      → e.previous_hash ≡ d
  unfolding verify_from
  linked_at i d e es h =
      linked_of_entry_problems i d e (parts-append (entry_problems f (suc i) d e) _ h).0

  -- After the first entry the index does not matter.
  reindexed :
      (es : List AuditEntry) (i j : ℕ) (d : String)
      → verify_from f (suc i) d es ≡ []
      → verify_from f (suc j) d es ≡ []
  unfolding verify_from
  reindexed [] i j d h = refl
  reindexed (e ∷ es) i j d h =
      let (this, rest) = parts-append (entry_problems f (suc i) d e) _ h in
      rw
        (entry_problems-none (suc j) d e (right_of_entry_problems (suc i) d e this)
          (inr (linked_of_entry_problems i d e this)))
        (reindexed es (suc i) (suc j) e.immutable_digest rest)

  -- Nothing is asked of the first entry's link.
  restart :
      (es : List AuditEntry) (i : ℕ) (d : String)
      → verify_from f i d es ≡ []
      → verify_from f 0 "" es ≡ []
  unfolding verify_from
  restart [] i d h = refl
  restart (e ∷ es) i d h =
      let (this, rest) = parts-append (entry_problems f i d e) _ h in
      rw (entry_problems-none 0 "" e (right_of_entry_problems i d e this) (inl refl))
        (reindexed es i 0 e.immutable_digest rest)

  sealed_digest :
      (now : ℕ) (db : Database) (e : AuditEntry)
      → compute_digest f (sealed f now db e) ≡ (sealed f now db e).immutable_digest
  unfolding sealed compute_digest
  sealed_digest now db e = refl

  last_digest-rows :
      (rows : List Row) → last_digest (map (λ r. r.stored) rows) ≡ last_digest (map entry_of rows)
  unfolding last_digest entry_of
  last_digest-rows [] = refl
  last_digest-rows (r ∷ []) = refl
  last_digest-rows (r ∷ s ∷ rows) = last_digest-rows (s ∷ rows)

  last_digest_after :
      (d : String) (es : List AuditEntry) → (es ≡ []) ⊎ (last_digest es ≡ some (digest_after d es))
  unfolding last_digest digest_after
  last_digest_after d [] = inl refl
  last_digest_after d (e ∷ []) = inr refl
  last_digest_after d (e ∷ f' ∷ es) = elim (last_digest_after e.immutable_digest (f' ∷ es)) [
    | inl none_left ↦ absurd (cons_nil none_left)
    | inr eq ↦ inr eq
  ]

  previous-sealed :
      (now : ℕ) (db : Database) (e : AuditEntry) (d : String)
      → latest_digest db e.tenant_id ≡ some d
      → (sealed f now db e).previous_hash ≡ d
  unfolding sealed linked
  previous-sealed now db e d h = rw (h, linked, sealed)

  -- A sealed entry is fine where it comes last.
  sealed_is_fine :
      (now id : ℕ) (db : Database) (e : AuditEntry)
      → let es = load_audit_chain db e.tenant_id in
        entry_problems f (length es) (digest_after "" es) (entry_of (row_of id (sealed f now db e)))
        ≡ []
  unfolding load_audit_chain latest_digest
  sealed_is_fine now id db e =
      let es = load_audit_chain db e.tenant_id in
      let s = sealed f now db e in
      let same = entry_of-row_of id s in
      entry_problems-none (length es) (digest_after "" es) (entry_of (row_of id s))
        (digest-entry_of f id s ∙ sealed_digest now db e ∙ sym (ap (λ r. r.immutable_digest) same))
        (elim (last_digest_after "" es) [
          | inl empty ↦ inl (ap length empty)
          | inr some_digest ↦ inr (
              ap (λ r. r.previous_hash) same
              ∙ previous-sealed now db e _
                  (last_digest-rows (tenant_rows e.tenant_id db.audit_log) ∙ some_digest))
        ])

  time-sealed :
      (now : ℕ) (db : Database) (e : AuditEntry)
      → ((sealed f now db e).timestamp_utc ≡ stamp now e.timestamp_utc)
        × ((sealed f now db e).tenant_id ≡ e.tenant_id)
  unfolding sealed linked
  time-sealed now db e = ground arith

  written_log :
      (now id : ℕ) (db db' : Database) (e : AuditEntry)
      → write f none now id (some db) e ≡ ok db'
      → db'.audit_log ≡ row_of id (sealed f now db e) ∷ db.audit_log
  unfolding write
  written_log now id db db' e h = ground arith

  -- The chain after a write whose time is later than that of every row of the tenant.
  load-write :
      (now id : ℕ) (db db' : Database) (e : AuditEntry)
      → All
          (λ r. r.stored.timestamp_utc < stamp now e.timestamp_utc)
          (tenant_rows e.tenant_id db.audit_log)
      → write f none now id (some db) e ≡ ok db'
      → load_audit_chain db' e.tenant_id
        ≡ load_audit_chain db e.tenant_id ++ (entry_of (row_of id (sealed f now db e)) ∷ [])
  unfolding load_audit_chain
  load-write now id db db' e later h =
      let rows = tenant_rows e.tenant_id db.audit_log in
      let s = sealed f now db e in
      let row = row_of id s in
      let (time, tenant) = time-sealed now db e in
      let newest =
        tenant_rows-last row e.tenant_id db.audit_log
          (ap (λ x. x.tenant_id) (stored-row_of id s) ∙ tenant)
          (subst (λ t. All (λ r. r.stored.timestamp_utc < t) rows)
            (sym (ap (λ x. x.timestamp_utc) (stored-row_of id s) ∙ time)) later) in
      ap (λ log. map entry_of (tenant_rows e.tenant_id log)) (written_log now id db db' e h)
      ∙ ap (map entry_of) newest
      ∙ map-append entry_of rows (row ∷ [])

  -- A chain that verifies still does after a write whose time is later than that of every row of
  -- the tenant, and the written entry has become its last.
  pub write-verify_chain :
      (now id : ℕ) (db db' : Database) (e : AuditEntry)
      → verify_chain f (load_audit_chain db e.tenant_id) ≡ []
      → All
          (λ r. r.stored.timestamp_utc < stamp now e.timestamp_utc)
          (tenant_rows e.tenant_id db.audit_log)
      → write f none now id (some db) e ≡ ok db'
      → (verify_chain f (load_audit_chain db' e.tenant_id) ≡ [])
        × (load_audit_chain db' e.tenant_id
            ≡ load_audit_chain db e.tenant_id ++ (entry_of (row_of id (sealed f now db e)) ∷ []))
  unfolding verify_chain verify_from
  write-verify_chain now id db db' e fine later h =
      let es = load_audit_chain db e.tenant_id in
      let eq = load-write now id db db' e later h in
      (
        rw (
          eq,
          verify_from-append 0 "" es (entry_of (row_of id (sealed f now db e)) ∷ []),
          fine,
          zero-add,
          sealed_is_fine now id db e,
        ),
        eq,
      )

  -- If a chain verifies with a row between two others, it does not without that row, unless the
  -- digests of the row and of the one before it are the same.
  pub verify_chain_gap :
      (xs ys : List AuditEntry) (a b c : AuditEntry)
      → verify_chain f (xs ++ (a ∷ b ∷ c ∷ ys)) ≡ []
      → a.immutable_digest ≢ b.immutable_digest
      → verify_chain f (xs ++ (a ∷ c ∷ ys)) ≢ []
  unfolding verify_chain verify_from
  verify_chain_gap xs ys a b c fine differ cut =
      let whole =
        (parts-append (verify_from f 0 "" xs) _
          (sym (verify_from-append 0 "" xs (a ∷ b ∷ c ∷ ys)) ∙ fine)).1 in
      let less =
        (parts-append (verify_from f 0 "" xs) _
          (sym (verify_from-append 0 "" xs (a ∷ c ∷ ys)) ∙ cut)).1 in
      let c_after_b =
        linked_at (suc (0 + length xs)) b.immutable_digest c ys
          (parts-append _ _ (parts-append _ _ whole).1).1 in
      let c_after_a = linked_at (0 + length xs) a.immutable_digest c ys (parts-append _ _ less).1 in
      differ (sym c_after_a ∙ c_after_b)

  -- What is left of a chain that verifies when its first rows, or its last rows, are gone verifies
  -- too: such a loss is no problem to the verifier.
  pub verify_chain_truncated :
      (xs ys : List AuditEntry)
      → verify_chain f (xs ++ ys) ≡ []
      → (verify_chain f xs ≡ []) × (verify_chain f ys ≡ [])
  unfolding verify_chain
  verify_chain_truncated xs ys fine =
      let (left, right) =
        parts-append (verify_from f 0 "" xs) _ (sym (verify_from-append 0 "" xs ys) ∙ fine) in
      (left, restart ys _ _ right)
