-- ===== src/LeakReport/Sets.antt =====
-- The sets that the report is made from: the groups of a document, each once, and sets of owners.
use groundwork.Base.{
  suc, String, ◌≡◌, refl, sym, ap, ◌∙◌, true, false, not, ◌&&◌, ◌||◌, List, [], ◌∷◌, length, ltb,
  nat_beq, ◌==◌, ==_refl, string_eq, contains, contains-cons, contains-insert, insert, Bool-cases,
  inl, inr, insert_string, sort_strings, arith,
}
use groundwork.LeakReport.{dedupe_new, dedupe_sorted}

contains-insert_string :
    (s : String) (ts : List String) (v : String)
    → contains (insert_string s ts) v ≡ (s == v || contains ts v)
unfolding contains insert_string
contains-insert_string s [] v = refl
contains-insert_string s (t ∷ ts) v =
    ground (arith, contains-insert_string s ts v, contains-cons s v (t ∷ ts), contains-cons t v ts)

pub contains-sort_strings :
    (ss : List String) (v : String) → contains (sort_strings ss) v ≡ contains ss v
unfolding contains sort_strings
contains-sort_strings [] v = refl
contains-sort_strings (s ∷ ss) v =
    contains-insert_string s (sort_strings ss) v
    ∙ ap (λ b. s == v || b) (contains-sort_strings ss v)

length-insert_string :
    (s : String) (ts : List String) → length (insert_string s ts) ≡ suc (length ts)
unfolding insert_string
length-insert_string s [] = refl
length-insert_string s (t ∷ ts) = ground (arith, length-insert_string s ts)

length-sort_strings : (ss : List String) → length (sort_strings ss) ≡ length ss
unfolding sort_strings
length-sort_strings [] = refl
length-sort_strings (s ∷ ss) =
    length-insert_string s (sort_strings ss) ∙ ap suc (length-sort_strings ss)

contains-dedupe_new :
    (seen vs : List String) (v : String)
    → contains (dedupe_new seen vs) v ≡ (contains vs v && not (contains seen v))
unfolding contains dedupe_new
contains-dedupe_new seen [] v = refl
contains-dedupe_new seen (w ∷ vs) v = ground (
  arith,
  contains-dedupe_new seen vs v,
  contains-dedupe_new (insert w seen) vs v,
  contains-insert w v seen,
  string_eq.equals_iff w v,
)

pub contains-dedupe_sorted :
    (ids : List String) (v : String) → contains (dedupe_sorted ids) v ≡ contains ids v
unfolding dedupe_sorted contains
contains-dedupe_sorted ids v =
    contains-sort_strings (dedupe_new [] ids) v ∙ ground (arith, contains-dedupe_new [] ids v)

-- Every element is there once.
unfoldable pub Once : List String → Type 0
Once [] = Unit
Once (v ∷ vs) = (contains vs v ≡ false) × Once vs

dedupe_new-Once : (seen vs : List String) → Once (dedupe_new seen vs)
unfolding Once dedupe_new contains
dedupe_new-Once seen [] = tt
dedupe_new-Once seen (v ∷ vs) = elim (Bool-cases (contains seen v)) [
  | inl old ↦ rw (old, dedupe_new) (dedupe_new-Once seen vs)
  | inr new ↦
      rw (new, dedupe_new)
        (
          ground (
            arith,
            contains-dedupe_new (insert v seen) vs v,
            contains-insert v v seen,
            ==_refl v,
          ),
          dedupe_new-Once (insert v seen) vs,
        )
]

pub insert-Once : (v : String) (vs : List String) → Once vs → Once (insert v vs)
unfolding Once insert
insert-Once v vs h = elim (Bool-cases (contains vs v)) [
  | inl old ↦ rw old h
  | inr new ↦ rw new (new, h)
]

-- Two different elements.
unfoldable pub Two : List String → Type 0
Two vs =
    (a : String) × ((b : String) × ((contains vs a ≡ true)
        × ((contains vs b ≡ true) × ((a == b) ≡ false))))

pub Two-of_length : (vs : List String) → Once vs → ltb 1 (length vs) ≡ true → Two vs
unfolding Once Two contains
Two-of_length [] once h = absurd (ground arith)
Two-of_length (a ∷ []) once h = absurd (ground arith)
Two-of_length (a ∷ b ∷ vs) once h = (
  a,
  (
    b,
    (
      ground (arith, ==_refl a),
      (
        ground (arith, ==_refl b),
        ground (arith, once.0, string_eq.equals_iff a b, string_eq.equals_iff b a),
      ),
    ),
  ),
)

pub length-of_Two : (vs : List String) → Two vs → ltb 1 (length vs) ≡ true
unfolding Two contains
length-of_Two [] (a, (b, (ha, (hb, ne)))) = absurd (cc ha)
length-of_Two (v ∷ []) (a, (b, (ha, (hb, ne)))) =
    ground (arith, string_eq.equals_iff v a, string_eq.equals_iff v b, string_eq.equals_iff a b)
length-of_Two (v ∷ w ∷ vs) two = ground arith

Two-same : (vs ws : List String) → ((v : String) → contains vs v ≡ contains ws v) → Two vs → Two ws
unfolding Two
Two-same vs ws same (a, (b, (ha, (hb, ne)))) =
    (a, (b, (sym (same a) ∙ ha, (sym (same b) ∙ hb, ne))))

pub Two-of_dedupe_sorted : (ids : List String) → ltb 1 (length (dedupe_sorted ids)) ≡ true → Two ids
unfolding dedupe_sorted contains
Two-of_dedupe_sorted ids h =
    Two-same (dedupe_new [] ids) ids (λ v. ground (arith, contains-dedupe_new [] ids v))
      (Two-of_length (dedupe_new [] ids) (dedupe_new-Once [] ids)
        (ap (ltb 1) (sym (length-sort_strings (dedupe_new [] ids))) ∙ h))

pub length-dedupe_sorted : (ids : List String) → Two ids → ltb 1 (length (dedupe_sorted ids)) ≡ true
length-dedupe_sorted ids two =
    length-of_Two (dedupe_sorted ids)
      (Two-same ids (dedupe_sorted ids) (λ v. sym (contains-dedupe_sorted ids v)) two)

pub nil-dedupe_sorted :
    (ids : List String) → nat_beq (length (dedupe_sorted ids)) 0 ≡ nat_beq (length ids) 0
unfolding dedupe_sorted dedupe_new contains sort_strings
nil-dedupe_sorted [] = refl
nil-dedupe_sorted (v ∷ vs) = ground (arith, length-sort_strings (dedupe_new [] (v ∷ vs)))
