-- ===== src/AclSync/Service/Backoff.antt =====
-- The delays of the service's retries.
use Prim.Native.Nat.{min}
use native.Mathlib.Nat.{pow-suc, pow-succ', mul_assoc, mul-one}
use groundwork.Base.{
  ℕ, zero, suc, ◌+◌, ◌-◌, ◌*◌, ◌/◌, ◌%◌, ◌^◌, ◌≤◌, ◌<◌, ◌≡◌, refl, ◌∙◌, sym, ap, true, false, ◌||◌,
  arith, ltb, Bool-cases, inl, inr,
}
use groundwork.AclSync.Service.{is_negative, doubled, full_delay, backoff_delay}

doubled_at_max : (rounds max d : ℕ) → max ≤ d → d < 2 ^ 63 → doubled rounds max d ≡ d
unfolding doubled
doubled_at_max zero max d h small = refl
doubled_at_max (suc n) max d h small = ground arith

two_pow_pos : (n : ℕ) → 0 < 2 ^ n
two_pow_pos zero = omega arith
two_pow_pos (suc n) = rw (pow-suc 2 n) (omega (arith, two_pow_pos n))

grow : (d n : ℕ) → d * 2 ^ suc n ≡ d * 2 * 2 ^ n
grow d n = rw (pow-succ' 2 n) (sym (mul_assoc d 2 (2 ^ n)))

le-mul_pow : (d n : ℕ) → d ≤ d * 2 ^ n
le-mul_pow d n = let h = two_pow_pos n in grind arith

min_at : (d e max : ℕ) → max ≤ d → d ≤ e → min d max ≡ min e max
min_at d e max h k = omega arith

-- Up to the maximum the loop doubles once a round, and it never reaches the sign bit.
doubled_lem :
    (rounds max d : ℕ)
    → max ≤ 2 ^ 62
    → d < 2 ^ 63
    → (doubled rounds max d < 2 ^ 63)
      × (min (doubled rounds max d) max ≡ min (d * 2 ^ rounds) max)
      × (d ≤ doubled rounds max d)
unfolding doubled
doubled_lem zero max d hm hd = (hd, ap (λ k. min k max) (sym (mul-one d)), omega arith)
doubled_lem (suc n) max d hm hd = elim (Bool-cases (ltb d max)) [
  | inl below ↦
      let low : is_negative d || ltb d max ≡ true = ground arith in
      let exact : d * 2 % 2 ^ 64 ≡ d * 2 = ground arith in
      let (small, same, more) = doubled_lem n max (d * 2) hm (ground arith) in
      rw (low, exact) (small, same ∙ ap (λ k. min k max) (sym (grow d n)), omega arith)
  | inr above ↦
      let high : is_negative d || ltb d max ≡ false = ground arith in
      rw high (hd, min_at d (d * 2 ^ suc n) max (ground arith) (le-mul_pow d (suc n)), omega arith)
]

full_delay_lem :
    (base max attempt : ℕ)
    → 0 < base
    → base < 2 ^ 63
    → 0 < max
    → max ≤ 2 ^ 62
    → full_delay base max attempt ≡ min (base * 2 ^ (attempt - 1)) max
unfolding full_delay
full_delay_lem base max attempt hb small hm hmax =
    let (fits, same, more) = doubled_lem (attempt - 1) max base hmax small in ground arith

-- The delay before a retry lies between the half and the whole of the base doubled once for each
-- attempt before it and capped at the maximum, if the base is an int64 and the maximum at most
-- 2 ^ 62 nanoseconds, both positive, and the random number is below its bound.
pub backoff_delay_bounds :
    (int63n : ℕ → ℕ) (base max attempt : ℕ)
    → ((n : ℕ) → 0 < n → int63n n < n)
    → 0 < base
    → base < 2 ^ 63
    → 0 < max
    → max ≤ 2 ^ 62
    → (min (base * 2 ^ (attempt - 1)) max / 2 ≤ backoff_delay int63n base max attempt)
      × (backoff_delay int63n base max attempt ≤ min (base * 2 ^ (attempt - 1)) max)
unfolding backoff_delay
backoff_delay_bounds int63n base max attempt law hb small hm hmax =
    let exact = full_delay_lem base max attempt hb small hm hmax in
    let random = law (full_delay base max attempt / 2 + 1) (omega arith) in
    rw (← exact) (omega arith)
