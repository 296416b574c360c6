-- ===== src/Runtime/RateLimiter/Budget.antt =====
-- How many requests of a key the limiter lets through, among those of other keys.
use groundwork.Base.{
  ℕ, zero, suc, ◌≡◌, refl, sym, ap, subst, ◌∙◌, ◌+◌, ◌≤◌, ◌<◌, Bool, true, false, ◌&&◌, List, [],
  ◌∷◌, Option, none, some, arith, Bool-cases, ◌⊎◌, inl, inr, ltb, leb, if◌then◌else◌, ℤ, ◌==◌,
  ==_refl, nat_eq, All,
}
use groundwork.Runtime.RateLimiter.{Window, RateLimiter, put, allow_window, allow}

-- A request of a key at a time.
pub record Request : Type 0 where
  pub key : ℕ
  pub now : ℕ

-- The requests of `key` that are let through and those that are made, in turn.
unfoldable pub passed : Option RateLimiter → (ℕ → ℤ) → ℕ → List Request → ℕ
passed r rpm key [] = 0
passed r rpm key (q ∷ qs) =
    let (r', (yes_or_no, wait)) = allow r q.now q.key (rpm q.key) in
    let later = passed r' rpm key qs in if q.key == key && yes_or_no then suc later else later

unfoldable pub made : ℕ → List Request → ℕ
made key [] = 0
made key (q ∷ qs) = let later = made key qs in if q.key == key then suc later else later

other-allow_window :
    (r : RateLimiter) (now key other rpm : ℕ) (w : Option Window)
    → (key == other) ≡ false
    → (allow_window r now key rpm w).0 other ≡ r other
unfolding allow_window put
other-allow_window r now key other rpm none differ = rw (differ, put)
other-allow_window r now key other rpm (some w) differ = elim (Bool-cases (ltb w.reset_at now)) [
  | inl late ↦ rw (late, allow_window, differ, put)
  | inr in_time ↦ elim (Bool-cases (leb rpm w.count)) [
    | inl spent ↦ rw (in_time, spent, allow_window)
    | inr left ↦ rw (in_time, left, allow_window, differ, put)
  ]
]

-- A request of one key leaves the windows of the others.
allow-other :
    (r : RateLimiter) (now key other : ℕ) (rpm : ℤ)
    → (key == other) ≡ false
    → (r' : RateLimiter) × ((allow (some r) now key rpm).0 ≡ some r') × (r' other ≡ r other)
unfolding allow
allow-other r now key other (ℤ.negsuc n) differ = (r, refl, refl)
allow-other r now key other (ℤ.pos zero) differ = (r, refl, refl)
allow-other r now key other (ℤ.pos (suc n)) differ = (
  (allow_window r now key (suc n) (r key)).0,
  refl,
  other-allow_window r now key other (suc n) (r key) differ,
)

-- A request within its key's window: refused with nothing changed if the budget is spent, else
-- counted.
allow-own :
    (r : RateLimiter) (now key n : ℕ) (w : Window)
    → r key ≡ some w
    → now ≤ w.reset_at
    → (r' : RateLimiter) × (w' : Window) × ((allow (some r) now key (ℤ.pos (suc n))).0 ≡ some r')
      × (r' key ≡ some w')
      × (w'.reset_at ≡ w.reset_at)
      × (((suc n ≤ w.count)
            × ((allow (some r) now key (ℤ.pos (suc n))).1.0 ≡ false)
            × (w'.count ≡ w.count))
          ⊎ ((w.count < suc n)
              × ((allow (some r) now key (ℤ.pos (suc n))).1.0 ≡ true)
              × (w'.count ≡ w.count + 1)))
unfolding allow allow_window put
allow-own r now key n w here in_time =
    let early : ltb w.reset_at now ≡ false = ground arith in
    elim (Bool-cases (leb (suc n) w.count)) [
      | inl spent ↦
          rw (here, allow_window, early, spent)
            (r, w, refl, here, refl, inl (ground arith, refl, refl))
      | inr left ↦
          rw (here, allow_window, early, left)
            (
              put r key (record w { count = w.count + 1 }),
              record w { count = w.count + 1 },
              refl,
              rw (put, ==_refl key),
              refl,
              inr (ground arith, refl, refl),
            )
    ]

-- The step of the count for a request of another key, and for one of the key.
passed-other :
    (r r' : RateLimiter) (rpm : ℕ → ℤ) (key : ℕ) (q : Request) (qs : List Request)
    → (q.key == key) ≡ false
    → (allow (some r) q.now q.key (rpm q.key)).0 ≡ some r'
    → (passed (some r) rpm key (q ∷ qs) ≡ passed (some r') rpm key qs)
      × (made key (q ∷ qs) ≡ made key qs)
unfolding passed made
passed-other r r' rpm key q qs differ next = (rw (differ, passed, next), rw (differ, made))

passed-own :
    (r r' : RateLimiter) (rpm : ℕ → ℤ) (key : ℕ) (q : Request) (qs : List Request)
    (yes_or_no : Bool)
    → (q.key == key) ≡ true
    → (allow (some r) q.now q.key (rpm q.key)).0 ≡ some r'
    → (allow (some r) q.now q.key (rpm q.key)).1.0 ≡ yes_or_no
    → (passed (some r) rpm key (q ∷ qs)
        ≡ (if yes_or_no then suc (passed (some r') rpm key qs) else passed (some r') rpm key qs))
      × (made key (q ∷ qs) ≡ suc (made key qs))
unfolding passed made
passed-own r r' rpm key q qs yes_or_no own next answer =
    (rw (own, passed, next, answer), rw (own, made))

one_more :
    (p m c c' n : ℕ)
    → c' ≡ c + 1
    → (p ≡ m) ⊎ (p + c' ≡ suc n)
    → (suc p ≡ suc m) ⊎ (suc p + c ≡ suc n)
one_more p m c c' n counted (inl all_made) = inl (ap suc all_made)
one_more p m c c' n counted (inr spent) = inr (omega arith)

-- Within one window of a key with a positive budget, among any requests of other keys: the counted
-- requests never exceed the budget, and either all of the key's requests are let through or the
-- budget is spent exactly.
pub passed_within_window :
    (r : RateLimiter) (rpm : ℕ → ℤ) (key n : ℕ) (w : Window) (qs : List Request)
    → rpm key ≡ ℤ.pos (suc n)
    → r key ≡ some w
    → w.count ≤ suc n
    → All (λ q. q.now ≤ w.reset_at) qs
    → (passed (some r) rpm key qs + w.count ≤ suc n)
      × ((passed (some r) rpm key qs ≡ made key qs)
          ⊎ (passed (some r) rpm key qs + w.count ≡ suc n))
unfolding passed made
passed_within_window r rpm key n w [] budget here fits in_time = (omega arith, inl refl)
passed_within_window r rpm key n w (q ∷ qs) budget here fits in_time =
    elim (Bool-cases (q.key == key)) [
      | inr differ ↦
          let (r', next, same) = allow-other r q.now q.key key (rpm q.key) differ in
          let (count, all_made) = passed-other r r' rpm key q qs differ next in
          rw (count, all_made)
            (passed_within_window r' rpm key n w qs budget (same ∙ here) fits in_time.1)
      | inl own ↦
          let is_key : q.key ≡ key = (nat_eq.equals_iff q.key key).0 own in
          let same_call : allow (some r) q.now q.key (rpm q.key)
              ≡ allow (some r) q.now key (ℤ.pos (suc n)) =
            ap (λ k. allow (some r) q.now k (rpm k)) is_key
            ∙ ap (allow (some r) q.now key) budget in
          let (r', w', next, here', reset, outcome) = allow-own r q.now key n w here in_time.0 in
          let in_time' = subst (λ t. All (λ q. q.now ≤ t) qs) (sym reset) in_time.1 in
          elim outcome [
            | inl (spent, answer, kept) ↦
                let (count, all_made) =
                  passed-own r r' rpm key q qs false own (ap (λ a. a.0) same_call ∙ next)
                    (ap (λ a. a.1.0) same_call ∙ answer) in
                let later =
                  passed_within_window r' rpm key n w' qs budget here' (omega arith) in_time' in
                rw (count, all_made) (omega arith, inr (omega arith))
            | inr (left, answer, counted) ↦
                let (count, all_made) =
                  passed-own r r' rpm key q qs true own (ap (λ a. a.0) same_call ∙ next)
                    (ap (λ a. a.1.0) same_call ∙ answer) in
                let later =
                  passed_within_window r' rpm key n w' qs budget here' (omega arith) in_time' in
                rw (count, all_made) (omega arith, one_more _ _ _ _ _ counted later.1)
          ]
    ]
