-- ===== src/AclSync/Sync/Reconcile.antt =====
-- `SyncToOpenFGA` makes the sink hold the snapshot's tuples, for any sink that keeps a set of
-- tuples for each tenant.
use groundwork.Base.{
  String, ◌≡◌, ◌≢◌, refl, ◌∙◌, sym, ap, ◌⊎◌, inl, inr, Bool, true, false, not, ◌&&◌, ◌||◌, List, [],
  ◌∷◌, none, length, ltb, ok, ◌==◌, string_eq, if◌then◌else◌, contains, insert, contains-insert,
  contains-cons, contains_head, Bool-cases, arith,
}
use groundwork.AclSync.Tuples.{Tuple, tuple_eq, tuple_beq_iff}
use groundwork.AclSync.Fga.{insert_all}
use groundwork.AclSync.Sync.{
  TupleSink, SyncResult, tuple_set, difference, deletions, write_some, delete_some, push,
}

or_false : (b : Bool) → (b || false) ≡ b
or_false b = ground arith

pub contains-insert_all :
    (set ts : List Tuple) (x : Tuple)
    → contains (insert_all set ts) x ≡ (contains ts x || contains set x)
unfolding insert_all contains
contains-insert_all set [] x = refl
contains-insert_all set (t ∷ ts) x =
    ground (arith, contains-insert_all (insert t set) ts x, contains-insert t x set)

pub contains-tuple_set : (ts : List Tuple) (x : Tuple) → contains (tuple_set ts) x ≡ contains ts x
unfolding tuple_set contains
contains-tuple_set ts x = contains-insert_all [] ts x ∙ or_false (contains ts x)

pub contains-difference :
    (a b : List Tuple) (x : Tuple)
    → contains (difference a b) x ≡ (contains a x && not (contains b x))
unfolding difference contains
contains-difference [] b x = refl
contains-difference (t ∷ a) b x = elim (Bool-cases (t == x)) [
  | inl same ↦
      let e = (tuple_beq_iff t x).0 same in
      ground
        (arith, contains-difference a b x, ap (contains b) e, contains-cons t x (difference a b))
  | inr other ↦ ground (arith, contains-difference a b x, contains-cons t x (difference a b))
]

-- A sink that keeps a set of tuples for each tenant. Nothing is said of an operation that fails.
pub record SetSink (sink : TupleSink) : Type 0 where
  pub has : sink.Store → String → Tuple → Bool
  pub list_has :
      (s : sink.Store) (tenant : String) (ts : List Tuple)
      → sink.list_tuples s tenant ≡ ok ts
      → (x : Tuple) → contains ts x ≡ has s tenant x
  pub write_has :
      (s : sink.Store) (tenant : String) (ts : List Tuple)
      → (sink.write_tuples s tenant ts).1 ≡ none
      → (t : String) (x : Tuple)
      → has (sink.write_tuples s tenant ts).0 t x
        ≡ (if t == tenant then contains ts x || has s t x else has s t x)
  pub delete_has :
      (s : sink.Store) (tenant : String) (ts : List Tuple)
      → (sink.delete_tuples s tenant ts).1 ≡ none
      → (t : String) (x : Tuple)
      → has (sink.delete_tuples s tenant ts).0 t x
        ≡ (if t == tenant then not (contains ts x) && has s t x else has s t x)

if_same : (b c : Bool) → (if b then c else c) ≡ c
if_same b c = ground arith

length-pos_of_contains :
    (xs : List Tuple) (x : Tuple) → contains xs x ≡ true → ltb 0 (length xs) ≡ true
unfolding contains
length-pos_of_contains [] x h = absurd (cc h)
length-pos_of_contains (y ∷ xs) x h = ground arith

pub tuple_set-pos : (ts : List Tuple) → ts ≢ [] → ltb 0 (length (tuple_set ts)) ≡ true
tuple_set-pos [] h = absurd (h refl)
tuple_set-pos (t ∷ ts) h =
    length-pos_of_contains (tuple_set (t ∷ ts)) t
      (contains-tuple_set (t ∷ ts) t ∙ contains_head t ts)

pub deletions_all :
    (allow : Bool) (desired to_delete : List Tuple)
    → (ltb 0 (length desired) ≡ true) ⊎ (allow ≡ true)
    → deletions allow desired to_delete ≡ to_delete
unfolding deletions
deletions_all allow desired to_delete h = ground arith

module _ (sink : TupleSink) (laws : SetSink sink) where
  open laws use {has, list_has, write_has, delete_has}

  write_some_has :
      (s : sink.Store) (tenant : String) (ts : List Tuple)
      → (write_some sink s tenant ts).1 ≡ none
      → (t : String) (x : Tuple)
      → has (write_some sink s tenant ts).0 t x
        ≡ (if t == tenant then contains ts x || has s t x else has s t x)
  unfolding write_some contains
  write_some_has s tenant [] h t x = sym (if_same (t == tenant) (has s t x))
  write_some_has s tenant (y ∷ ts) h t x = write_has s tenant (y ∷ ts) h t x

  delete_some_has :
      (s : sink.Store) (tenant : String) (ts : List Tuple)
      → (delete_some sink s tenant ts).1 ≡ none
      → (t : String) (x : Tuple)
      → has (delete_some sink s tenant ts).0 t x
        ≡ (if t == tenant then not (contains ts x) && has s t x else has s t x)
  unfolding delete_some contains
  delete_some_has s tenant [] h t x = sym (if_same (t == tenant) (has s t x))
  delete_some_has s tenant (y ∷ ts) h t x = delete_has s tenant (y ∷ ts) h t x

  pub push-eq-ok :
      (s s' : sink.Store) (tenant : String) (w d : List Tuple) (r : SyncResult)
      → push sink s tenant w d ≡ (s', ok r)
      → ((write_some sink s tenant w).1 ≡ none)
        × ((delete_some sink (write_some sink s tenant w).0 tenant d).1 ≡ none)
        × ((delete_some sink (write_some sink s tenant w).0 tenant d).0 ≡ s')
        × (r.tuples_written ≡ length w)
        × (r.tuples_deleted ≡ length d)
  unfolding push
  push-eq-ok s s' tenant w d r h = ground arith

  pub push_has :
      (s s' : sink.Store) (tenant : String) (w d : List Tuple) (r : SyncResult)
      → push sink s tenant w d ≡ (s', ok r)
      → (t : String) (x : Tuple)
      → has s' t x
        ≡ (if t == tenant then not (contains d x) && (contains w x || has s t x) else has s t x)
  push_has s s' tenant w d r h t x =
      let (written, deleted, e, _, _) = push-eq-ok s s' tenant w d r h in
      ground (
        arith,
        ap (λ (v : sink.Store). has v t x) e,
        write_some_has s tenant w written t x,
        delete_some_has (write_some sink s tenant w).0 tenant d deleted t x,
      )
