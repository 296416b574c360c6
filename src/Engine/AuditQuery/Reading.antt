-- ===== src/Engine/AuditQuery/Reading.antt =====
-- A reader that follows the cursors of `ListAuditEntries` from the first page.
use mathlib.Core.List.{append_assoc, map-append}
use groundwork.Base.{
  ℕ, zero, suc, String, ◌+◌, ◌<◌, ◌≤◌, ◌≡◌, ◌≢◌, refl, sym, ap, subst, ◌∙◌, false, List, [], ◌∷◌,
  ◌++◌, Option, none, some, map, ltb, length, length-drop, take, drop, if◌then◌else◌, ◌==◌,
  string_eq, nat_eq, ok, err, ℤ, positive_or, Bool-cases, inl, inr, arith,
}
use groundwork.Engine.Query.{AuditEntry}
use groundwork.Engine.Audit.{Row, Database, before}
use groundwork.Engine.AuditQuery.{
  Codec, AuditFilter, encode_audit_cursor, decode_audit_cursor, parsed_cursor, selects, older,
  newest_first, keep_rows, query_rows, scan_read_row, cursor_after, page_of, page_limit, cursor_of,
  list_audit_entries,
}
use groundwork.Engine.AuditQuery.Pages.{
  CodecLaws, Descending, keep-after, keep_both, keep-Descending, take-drop, take-take, take_short,
  length-take_more,
}

-- The rows that the tenant and the filter ask for, newest first.
unfoldable pub matching : Database → String → AuditFilter → List Row
matching db tenant f = keep_rows (selects tenant f) (newest_first db.audit_log)

page_limit-pos : (limit : ℤ) → 0 < page_limit limit
unfolding page_limit positive_or
page_limit-pos (ℤ.pos zero) = omega arith
page_limit-pos (ℤ.pos (suc n)) = ground arith
page_limit-pos (ℤ.negsuc n) = omega arith

take-pos : (n : ℕ) (rows : List Row) → 0 < n → 0 < length rows → 0 < length (take n rows)
take-pos zero rows hn h = absurd (omega (arith, hn))
take-pos (suc n) [] hn h = absurd (omega (arith, h))
take-pos (suc n) (r ∷ rows) hn h = omega arith

keep-older-none : (rows : List Row) → keep_rows (older none) rows ≡ rows
unfolding keep_rows older
keep-older-none [] = refl
keep-older-none (r ∷ rows) = ap (λ xs. r ∷ xs) (keep-older-none rows)

last_page :
    (c : Codec) (limit : ℕ) (rest : List Row)
    → length rest ≤ limit
    → page_of c limit (take (suc limit) rest)
      ≡ record { entries = map scan_read_row rest; next_cursor = "" }
unfolding page_of
last_page c limit rest h =
    let short : ltb limit (length rest) ≡ false = ground (arith, h) in
    rw (take_short (suc limit) rest (omega (arith, h)), short)

inner_page :
    (c : Codec) (limit : ℕ) (rest : List Row)
    → limit < length rest
    → page_of c limit (take (suc limit) rest) ≡ record {
      entries = map scan_read_row (take limit rest);
      next_cursor = cursor_after c (take limit rest);
    }
unfolding page_of
inner_page c limit rest h = rw (length-take_more limit rest h, take-take limit rest)

module _ (c : Codec) (laws : CodecLaws c) where
  -- The cursor of a row.
  row_cursor : Row → String
  row_cursor r = encode_audit_cursor c r.stored.timestamp_utc (c.uuid_text r.id)

  ne_empty : (s : String) → s ≢ "" → (s == "") ≡ false
  ne_empty s h = elim (Bool-cases (s == "")) [
    | inl same ↦ absurd (h ((string_eq.equals_iff s "").0 same))
    | inr other ↦ other
  ]

  cursor_of-row : (r : Row) → cursor_of c (row_cursor r) ≡ ok (some (r.stored.timestamp_utc, r.id))
  unfolding cursor_of row_cursor encode_audit_cursor decode_audit_cursor parsed_cursor
  cursor_of-row r = rw (
    ne_empty _ (laws.filled (c.format_time r.stored.timestamp_utc, c.uuid_text r.id)),
    laws.base64,
    laws.json,
    laws.time,
    ne_empty _ (laws.uuid_filled r.id),
    laws.uuid,
  )

  cursor_of-row_filled : (r : Row) → (row_cursor r == "") ≡ false
  unfolding row_cursor encode_audit_cursor
  cursor_of-row_filled r =
      ne_empty _ (laws.filled (c.format_time r.stored.timestamp_utc, c.uuid_text r.id))

  -- The last row of a list that has one.
  last_row :
      (rows : List Row)
      → 0 < length rows
      → (init : List Row) × ((r : Row) × ((rows ≡ init ++ r ∷ [])
            × (cursor_after c rows ≡ row_cursor r)))
  unfolding cursor_after row_cursor
  last_row [] h = absurd (omega (arith, h))
  last_row (r ∷ []) h = ([], (r, (refl, refl)))
  last_row (r ∷ s ∷ rows) h =
      let (init, (l, (same, cursor))) = last_row (s ∷ rows) (omega arith) in
      (r ∷ init, (l, (ap (λ xs. r ∷ xs) same, cursor)))

  module _ (db : Database) (tenant : String) (f : AuditFilter) (limit : ℤ) where
    prepend : List AuditEntry → Option (List AuditEntry) → Option (List AuditEntry)
    prepend xs none = none
    prepend xs (some ys) = some (xs ++ ys)

    -- Pages are asked for until one has no cursor, at most as many as the fuel.
    unfoldable pub read_pages : ℕ → String → Option (List AuditEntry)
    unfolding prepend
    read_pages zero cursor = none
    read_pages (suc fuel) cursor = elim (list_audit_entries c (some db) tenant f limit cursor) [
      | err e ↦ none
      | ok page ↦
          if page.next_cursor == ""
          then some page.entries
          else prepend page.entries (read_pages fuel page.next_cursor)
    ]

    -- What a cursor leaves to be read.
    Leaves : String → List Row → Type 0
    Leaves cursor rest =
        (o : Option (ℕ × ℕ)) × ((cursor_of c cursor ≡ ok o)
          × (keep_rows (older o) (matching db tenant f) ≡ rest))

    page_at :
        (cursor : String) (rest : List Row)
        → tenant ≢ ""
        → Leaves cursor rest
        → list_audit_entries c (some db) tenant f limit cursor
          ≡ ok (page_of c (page_limit limit) (take (suc (page_limit limit)) rest))
    unfolding list_audit_entries query_rows Leaves matching
    page_at cursor rest named (o, (decoded, left)) =
        let both = keep_both (selects tenant f) (older o) (newest_first db.audit_log) ∙ left in
        rw (ne_empty tenant named, decoded, both, add_one (page_limit limit))
      where
        add_one : (n : ℕ) → n + 1 ≡ suc n
        add_one n = omega arith

    -- After the last row of a page, its cursor leaves what follows.
    Leaves-row :
        (pre post : List Row) (r : Row)
        → Descending (matching db tenant f)
        → matching db tenant f ≡ pre ++ r ∷ post
        → Leaves (row_cursor r) post
    unfolding Leaves older before
    Leaves-row pre post r sorted same = (
      some (r.stored.timestamp_utc, r.id),
      (
        cursor_of-row r,
        ap (keep_rows (λ s. before s r)) same
            ∙ keep-after pre post r (subst Descending same sorted),
      ),
    )

    read_rest :
        (fuel : ℕ) (pre rest : List Row) (cursor : String)
        → tenant ≢ ""
        → Descending (matching db tenant f)
        → matching db tenant f ≡ pre ++ rest
        → Leaves cursor rest
        → length rest < fuel
        → read_pages fuel cursor ≡ some (map scan_read_row rest)
    unfolding read_pages prepend
    read_rest zero pre rest cursor named sorted same left enough = absurd (omega (arith, enough))
    read_rest (suc fuel) pre rest cursor named sorted same left enough =
        let n = page_limit limit in
        elim (Bool-cases (ltb n (length rest))) [
          | inr short ↦
              rw (page_at cursor rest named left, last_page c n rest (ground arith), read_pages)
          | inl more ↦
              let longer : n < length rest = ground arith in
              let filled = take-pos n rest (page_limit-pos limit) (omega (arith, longer)) in
              let (init, (r, (split, cursor'))) = last_row (take n rest) filled in
              let parts : rest ≡ init ++ r ∷ drop n rest =
                sym (take-drop n rest)
                ∙ ap (λ xs. xs ++ drop n rest) split
                ∙ append_assoc init (r ∷ []) (drop n rest) in
              let same' : matching db tenant f ≡ (pre ++ init) ++ r ∷ drop n rest =
                same ∙ ap (λ xs. pre ++ xs) parts ∙ sym (append_assoc pre init (r ∷ drop n rest)) in
              let fewer : length (drop n rest) < fuel =
                omega (arith, length-drop n rest, page_limit-pos limit, enough, longer) in
              let others =
                read_rest fuel ((pre ++ init) ++ r ∷ []) (drop n rest) (row_cursor r) named sorted
                  (same' ∙ sym (append_assoc (pre ++ init) (r ∷ []) (drop n rest)))
                  (Leaves-row (pre ++ init) (drop n rest) r sorted same') fewer in
              rw
                (
                  page_at cursor rest named left,
                  inner_page c n rest longer,
                  read_pages,
                  cursor',
                  cursor_of-row_filled r,
                  others,
                )
                (ap some (
                  sym (map-append scan_read_row (take n rest) (drop n rest))
                  ∙ ap (map scan_read_row) (take-drop n rest)))
        ]

    matching-Descending : Descending (newest_first db.audit_log) → Descending (matching db tenant f)
    unfolding matching
    matching-Descending h = keep-Descending (selects tenant f) (newest_first db.audit_log) h

    -- With a codec that decodes what it has encoded, a tenant that is named and no two rows of the
    -- ledger at the same place in the order of time and id: whatever limit is asked for, following
    -- the cursors from the first page ends, after at most one page more than there are matching
    -- rows, and has read each row that the tenant and the filter ask for exactly once, newest first.
    pub read_pages-matching :
        (fuel : ℕ)
        → tenant ≢ ""
        → Descending (newest_first db.audit_log)
        → length (matching db tenant f) < fuel
        → read_pages fuel "" ≡ some (map scan_read_row (matching db tenant f))
    unfolding Leaves cursor_of
    read_pages-matching fuel named sorted enough =
        read_rest fuel [] (matching db tenant f) "" named (matching-Descending sorted) refl
          (none, (refl, keep-older-none (matching db tenant f))) enough
