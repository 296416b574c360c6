-- ===== src/Engine/AuditQuery/Pages.antt =====
-- Going from page to page reads every matching row once, newest first.
use groundwork.Base.{
  ℕ, zero, suc, String, ◌<◌, ◌≤◌, ◌≡◌, ◌≢◌, refl, ap, Bool, true, false, ◌&&◌, List, [], ◌∷◌, ◌++◌,
  ltb, length, take, drop, string_eq, nat_eq, ok, All, Bool-cases, inl, inr, arith,
}
use groundwork.Engine.Audit.{Row, before}
use groundwork.Engine.AuditQuery.{Codec, keep_rows}

-- What the codec's parts promise: each decodes what it has encoded, and no text is empty.
pub record CodecLaws (c : Codec) : Type 0 where
  pub base64 : (s : String) → c.base64_decode (c.base64_encode s) ≡ ok s
  pub json : (p : String × String) → c.unmarshal (c.marshal p) ≡ ok p
  pub time : (t : ℕ) → c.parse_time (c.format_time t) ≡ ok t
  pub uuid : (id : ℕ) → c.uuid_of (c.uuid_text id) ≡ id
  pub uuid_filled : (id : ℕ) → c.uuid_text id ≢ ""
  pub filled : (p : String × String) → c.base64_encode (c.marshal p) ≢ ""

-- Each row comes before all that follow it in the order of time and id.
unfoldable pub Descending : List Row → Type 0
Descending [] = Unit
Descending (r ∷ rows) = All (λ s. before s r ≡ true) rows × Descending rows

before_irrefl : (r : Row) → before r r ≡ false
unfolding before
before_irrefl r = ground arith

before_asymm : (a b : Row) → before a b ≡ true → before b a ≡ false
unfolding before
before_asymm a b h = ground arith

pub keep-of_All :
    (p : Row → Bool) (rows : List Row) → All (λ r. p r ≡ true) rows → keep_rows p rows ≡ rows
unfolding keep_rows
keep-of_All p [] h = refl
keep-of_All p (r ∷ rows) h = rw (h.0, keep_rows) (ap (λ xs. r ∷ xs) (keep-of_All p rows h.1))

pub keep-after :
    (pre post : List Row) (r : Row)
    → Descending (pre ++ r ∷ post)
    → keep_rows (λ s. before s r) (pre ++ r ∷ post) ≡ post
unfolding keep_rows Descending
keep-after [] post r h = rw (before_irrefl r, keep_rows) (keep-of_All (λ s. before s r) post h.0)
keep-after (x ∷ pre) post r h =
    rw (before_asymm r x (All-middle pre post r h.0), keep_rows) (keep-after pre post r h.1)
  where
    All-middle :
        (xs ys : List Row) (y : Row)
        → All (λ s. before s x ≡ true) (xs ++ y ∷ ys)
        → before y x ≡ true
    All-middle [] ys y all = all.0
    All-middle (z ∷ xs) ys y all = All-middle xs ys y all.1

pub keep_both :
    (p q : Row → Bool) (rows : List Row)
    → keep_rows (λ r. p r && q r) rows ≡ keep_rows q (keep_rows p rows)
unfolding keep_rows
keep_both p q [] = refl
keep_both p q (r ∷ rows) = elim (Bool-cases (p r)) [
  | inl kept ↦ rw (kept, keep_rows, keep_both p q rows)
  | inr dropped ↦ rw (dropped, keep_rows, keep_both p q rows)
]

All-keep :
    (P : Row → Type 0) (p : Row → Bool) (rows : List Row) → All P rows → All P (keep_rows p rows)
unfolding keep_rows
All-keep P p [] h = tt
All-keep P p (r ∷ rows) h = elim (Bool-cases (p r)) [
  | inl kept ↦ rw (kept, keep_rows) (h.0, All-keep P p rows h.1)
  | inr dropped ↦ rw (dropped, keep_rows) (All-keep P p rows h.1)
]

pub keep-Descending :
    (p : Row → Bool) (rows : List Row) → Descending rows → Descending (keep_rows p rows)
unfolding keep_rows Descending
keep-Descending p [] h = tt
keep-Descending p (r ∷ rows) h = elim (Bool-cases (p r)) [
  | inl kept ↦
      rw (kept, keep_rows)
        (All-keep (λ s. before s r ≡ true) p rows h.0, keep-Descending p rows h.1)
  | inr dropped ↦ rw (dropped, keep_rows) (keep-Descending p rows h.1)
]

pub take-drop : (n : ℕ) (rows : List Row) → take n rows ++ drop n rows ≡ rows
take-drop zero rows = refl
take-drop (suc n) [] = refl
take-drop (suc n) (r ∷ rows) = ap (λ xs. r ∷ xs) (take-drop n rows)

pub take-take : (n : ℕ) (rows : List Row) → take n (take (suc n) rows) ≡ take n rows
take-take zero rows = refl
take-take (suc n) [] = refl
take-take (suc n) (r ∷ rows) = ap (λ xs. r ∷ xs) (take-take n rows)

pub take_short : (n : ℕ) (rows : List Row) → length rows ≤ n → take n rows ≡ rows
take_short zero [] h = refl
take_short zero (r ∷ rows) h = absurd (omega (arith, h))
take_short (suc n) [] h = refl
take_short (suc n) (r ∷ rows) h = ap (λ xs. r ∷ xs) (take_short n rows (omega (arith, h)))

pub length-take_more :
    (n : ℕ) (rows : List Row) → n < length rows → ltb n (length (take (suc n) rows)) ≡ true
length-take_more zero [] h = absurd (omega (arith, h))
length-take_more zero (r ∷ rows) h = refl
length-take_more (suc n) [] h = absurd (omega (arith, h))
length-take_more (suc n) (r ∷ rows) h = ground (arith, length-take_more n rows (omega (arith, h)))
