-- ===== src/AclSync/Fga/Member.antt =====
-- `memberOf` of aclsync/fga.go decides membership in nested groups, cycles included.
use groundwork.Base.{
  ℕ, zero, suc, String, ◌≡◌, refl, ap, subst, ◌⊎◌, inl, inr, ◌↔◌, ◌≤◌, Bool, true, false, List, [],
  ◌∷◌, arith, map, length, length-map, string_eq, contains, Bool-cases, contains_head,
  contains_tail, contains-cons, contains-map, unseen, unseen_mono, unseen-cons-lt, unseen-le-length,
  ◌==◌,
}
use groundwork.AclSync.Tuples.{Tuple, tuple_eq, tuple, tuple_beq_iff}
use groundwork.AclSync.Fga.{is_nested, subject_group, scan_nested, member_of, is_member}

-- Membership through the tuples of a set: directly, or through a nested group.
pub data Member (set : List Tuple) (user : String) : String → Type 0 where
  direct : {g : String} → contains set (tuple user "member" g) ≡ true → Member set user g
  nested :
      {g : String} (t : Tuple)
      → contains set t ≡ true
      → is_nested g t ≡ true
      → Member set user (subject_group t.user)
      → Member set user g

module _ (set : List Tuple) (user : String) where
  -- The group has no direct member `user`, and its nested groups are all in `seen`.
  abbrev IsClosed : List String → String → Type 0
  IsClosed seen x =
      (contains set (tuple user "member" x) ≡ false)
      × ((t : Tuple)
          → contains set t ≡ true
          → is_nested x t ≡ true
          → contains seen (subject_group t.user) ≡ true)

  -- What a call leaves behind, from the groups seen before it.
  record Explored (g : String) (seen : List String) (r : Bool × List String) : Type 0 where
    grows : (x : String) → contains seen x ≡ true → contains r.1 x ≡ true
    sound : r.0 ≡ true → Member set user g
    visited : r.0 ≡ false → contains r.1 g ≡ true
    closed :
        r.0 ≡ false
        → (x : String) → contains r.1 x ≡ true
        → (contains seen x ≡ true) ⊎ IsClosed r.1 x

  record Scanned (g : String) (ts : List Tuple) (seen : List String) (r : Bool × List String)
      : Type 0 where
    grows : (x : String) → contains seen x ≡ true → contains r.1 x ≡ true
    sound : r.0 ≡ true → Member set user g
    children :
        r.0 ≡ false
        → (t : Tuple) → contains ts t ≡ true
        → is_nested g t ≡ true
        → contains r.1 (subject_group t.user) ≡ true
    closed :
        r.0 ≡ false
        → (x : String) → contains r.1 x ≡ true
        → (contains seen x ≡ true) ⊎ IsClosed r.1 x

  IsClosed-mono :
      (seen seen' : List String) (x : String)
      → ((y : String) → contains seen y ≡ true → contains seen' y ≡ true)
      → IsClosed seen x
      → IsClosed seen' x
  IsClosed-mono seen seen' x h c = (c.0, λ t m n. h (subject_group t.user) (c.1 t m n))

  module _ (g : String) (t : Tuple) (ts : List Tuple) (seen : List String) where
    head_or_tail : (t' : Tuple) → contains (t ∷ ts) t' ≡ true → (t ≡ t') ⊎ (contains ts t' ≡ true)
    head_or_tail t' m = elim (Bool-cases (t == t')) [
      | inl same ↦ inl ((tuple_beq_iff t t').0 same)
      | inr other ↦ inr (rw (contains-cons, other) at m)
    ]

    -- The tuple is not of this group.
    Scanned-skip :
        (r : Bool × List String)
        → is_nested g t ≡ false
        → Scanned g ts seen r
        → Scanned g (t ∷ ts) seen r
    Scanned-skip r n s = record {
      grows = s.grows;
      sound = s.sound;
      children = λ e t' m n'. elim (head_or_tail t' m) [
        | inl p ↦ cc (n, n', ap (is_nested g) p)
        | inr m' ↦ s.children e t' m' n'
      ];
      closed = s.closed;
    }

    -- The nested group has the user.
    Scanned-found :
        (seen' : List String)
        → contains set t ≡ true
        → is_nested g t ≡ true
        → Explored (subject_group t.user) seen (true, seen')
        → Scanned g (t ∷ ts) seen (true, seen')
    Scanned-found seen' m n x = record {
      grows = x.grows;
      sound = λ e. nested t m n (x.sound e);
      children = λ e. absurd (cc e);
      closed = λ e. absurd (cc e);
    }

    -- The nested group has not, and the loop went on.
    Scanned-next :
        (seen' : List String) (r : Bool × List String)
        → Explored (subject_group t.user) seen (false, seen')
        → Scanned g ts seen' r
        → Scanned g (t ∷ ts) seen r
    Scanned-next seen' r x s = record {
      grows = λ y h. s.grows y (x.grows y h);
      sound = s.sound;
      children = λ e t' m n. elim (head_or_tail t' m) [
        | inl p ↦ rw (← p) (s.grows (subject_group t.user) (x.visited refl))
        | inr m' ↦ s.children e t' m' n
      ];
      closed = λ e y h. elim (s.closed e y h) [
        | inl before ↦ elim (x.closed refl y before) [
          | inl old ↦ inl old
          | inr c ↦ inr (IsClosed-mono seen' r.1 y s.grows c)
        ]
        | inr c ↦ inr c
      ];
    }

  -- The whole loop, for a group with no direct grant.
  Explored-scan :
      (g : String) (seen : List String)
      → contains set (tuple user "member" g) ≡ false
      → (r : Bool × List String) → Scanned g set (g ∷ seen) r
      → Explored g seen r
  Explored-scan g seen denied r s = record {
    grows = λ x h. s.grows x (contains_tail g x seen h);
    sound = s.sound;
    visited = λ e. s.grows g (contains_head g seen);
    closed = λ e x h. elim (s.closed e x h) [
      | inl before ↦ elim (Bool-cases (g == x)) [
        | inl same ↦
            inr (subst (IsClosed r.1) ((string_eq.equals_iff g x).0 same) (denied, s.children e))
        | inr other ↦ inl (rw (contains-cons, other) at before)
      ]
      | inr c ↦ inr c
    ];
  }

  module _ (universe : List String)
      (inside : (t : Tuple)
        → contains set t ≡ true
        → contains universe (subject_group t.user) ≡ true) where
    Scanned-scan_nested :
        (fuel : ℕ) (member : String → List String → Bool × List String)
        → ((h : String) (seen : List String)
            → contains universe h ≡ true
            → unseen universe seen ≤ fuel
            → Explored h seen (member h seen))
        → (g : String) (ts : List Tuple) (seen : List String)
        → ((t : Tuple) → contains ts t ≡ true → contains set t ≡ true)
        → unseen universe seen ≤ fuel
        → Scanned g ts seen (scan_nested set user member g ts seen)
    unfolding scan_nested
    Scanned-scan_nested fuel member ih g [] seen sub enough = record {
      grows = λ x h. h;
      sound = λ e. cc;
      children = λ e t m n. absurd (unfold contains in cc m);
      closed = λ e x h. inl h;
    }
    Scanned-scan_nested fuel member ih g (t ∷ ts) seen sub enough =
        let in_set = sub t (contains_head t ts) in
        let sub' = λ (u : Tuple) (m : contains ts u ≡ true). sub u (contains_tail t u ts m) in
        let x = ih (subject_group t.user) seen (inside t in_set) enough in
        let seen' = (member (subject_group t.user) seen).1 in
        let with_result = λ (b : Bool) (p : (member (subject_group t.user) seen).0 ≡ b).
          subst (λ c. Explored (subject_group t.user) seen (c, seen')) p x in
        elim (Bool-cases (is_nested g t)) [
          | inr n ↦
              rw (n, scan_nested)
                (Scanned-skip g t ts seen (scan_nested set user member g ts seen) n
                  (Scanned-scan_nested fuel member ih g ts seen sub' enough))
          | inl n ↦ elim (Bool-cases (member (subject_group t.user) seen).0) [
            | inl found ↦
                rw (n, scan_nested, found)
                  (Scanned-found g t ts seen seen' in_set n (with_result true found))
            | inr more ↦
                rw (n, scan_nested, more)
                  (Scanned-next g t ts seen seen' (scan_nested set user member g ts seen')
                    (with_result false more)
                    (Scanned-scan_nested fuel member ih g ts seen' sub'
                      (omega (arith, unseen_mono universe seen seen' x.grows))))
          ]
        ]

    Explored-member_of :
        (fuel : ℕ) (g : String) (seen : List String)
        → contains universe g ≡ true
        → unseen universe seen ≤ fuel
        → Explored g seen (member_of set user fuel g seen)
    unfolding member_of
    Explored-member_of zero g seen m enough = record {
      grows = λ x h. h;
      sound = λ e. absurd (cc e);
      visited = λ e. elim (Bool-cases (contains seen g)) [
        | inl old ↦ old
        | inr new ↦ absurd (omega (arith, unseen-cons-lt universe seen g m new))
      ];
      closed = λ e x h. inl h;
    }
    Explored-member_of (suc fuel) g seen m enough = elim (Bool-cases (contains seen g)) [
      | inl old ↦
          rw (old, member_of)
            (record {
              grows = λ x h. h;
              sound = λ e. absurd (cc e);
              visited = λ e. old;
              closed = λ e x h. inl h;
            })
      | inr new ↦ elim (Bool-cases (contains set (tuple user "member" g))) [
        | inl granted ↦
            rw (new, granted, member_of)
              (record {
                grows = λ x h. contains_tail g x seen h;
                sound = λ e. direct granted;
                visited = λ e. contains_head g seen;
                closed = λ e. absurd (cc e);
              })
        | inr denied ↦
            rw (new, denied, member_of)
              (Explored-scan g seen denied
                (scan_nested set user (member_of set user fuel) g set (g ∷ seen))
                (Scanned-scan_nested fuel (member_of set user fuel) (Explored-member_of fuel) g set
                  (g ∷ seen) (λ t h. h) (omega (arith, unseen-cons-lt universe seen g m new))))
      ]
    ]

  not-Member :
      (seen : List String)
      → ((x : String) → contains seen x ≡ true → IsClosed seen x)
      → {g : String} → Member set user g
      → contains seen g ≡ true
      → ⊥
  not-Member seen all (direct {g} granted) m = cc (granted, (all g m).0)
  not-Member seen all (nested {g} t in_set n deeper) m =
      not-Member seen all deeper ((all g m).1 t in_set n)

  -- The groups that a search from `g` can meet.
  abbrev reachable : String → List String
  reachable g = g ∷ map (λ (t : Tuple). subject_group t.user) set

  explored : (g : String) → Explored g [] (member_of set user (suc (length set)) g [])
  explored g =
      Explored-member_of (reachable g)
        (λ t m.
          contains_tail g (subject_group t.user) (map (λ (u : Tuple). subject_group u.user) set)
            (contains-map (λ (u : Tuple). subject_group u.user) set t m))
        (suc (length set)) g [] (contains_head g (map (λ (u : Tuple). subject_group u.user) set))
        (omega (
          arith,
          unseen-le-length (reachable g) [],
          length-map (λ (u : Tuple). subject_group u.user) set,
        ))

  -- The search answers `true` exactly for the members, whatever cycles the groups form.
  pub is_member_iff : (g : String) → (is_member set user g ≡ true) ↔ Member set user g
  unfolding is_member
  is_member_iff g = (
    (explored g).sound,
    λ p. elim (Bool-cases (is_member set user g)) [
      | inl found ↦ found
      | inr missed ↦ absurd (
          not-Member (member_of set user (suc (length set)) g []).1
            (λ x h. elim ((explored g).closed missed x h) [
              | inl none_before ↦ absurd (unfold contains in cc none_before)
              | inr c ↦ c
            ])
            p ((explored g).visited missed))
    ],
  )
