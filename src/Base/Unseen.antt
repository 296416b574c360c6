-- ===== src/Base/Unseen.antt =====
-- Membership in lists of keys: growth, insertion, removal, and how many keys are not yet seen.
use Prim.Native.Nat.{ℕ, suc, ◌≤◌, ◌<◌}
use mathlib.Core.Path.{◌≡◌, refl, ap}
use mathlib.Core.Logic.{inl, inr}
use mathlib.Core.Bool.{true, false, not, ◌&&◌, ◌||◌}
use mathlib.Core.List.{List, [], ◌∷◌, ◌++◌, map}
use native.Mathlib.Omega.{arith}
use groundwork.Base.Tests.{if◌then◌else◌, Comparable, ◌==◌, ==_refl, Bool-cases}
use groundwork.Base.Lists.{length, contains, insert, remove}

module _ {ℓ} {A : Type ℓ} ⦃e : Comparable A⦄ where
  pub contains-cons : (x y : A) (xs : List A) → contains (x ∷ xs) y ≡ (x == y || contains xs y)
  unfolding contains
  contains-cons x y xs = refl

  pub contains_head : (x : A) (xs : List A) → contains (x ∷ xs) x ≡ true
  unfolding contains
  contains_head x xs = rw (==_refl x)

  pub contains_tail : (x y : A) (xs : List A) → contains xs y ≡ true → contains (x ∷ xs) y ≡ true
  unfolding contains
  contains_tail x y xs h = ground arith

  pub contains-append :
      (xs ys : List A) (a : A) → contains (xs ++ ys) a ≡ (contains xs a || contains ys a)
  unfolding contains
  contains-append [] ys a = refl
  contains-append (x ∷ xs) ys a = ground (arith, contains-append xs ys a)

  pub contains-insert :
      (a b : A) (xs : List A) → contains (insert a xs) b ≡ (a == b || contains xs b)
  unfolding contains insert
  contains-insert a b xs = elim (Bool-cases (contains xs a)) [
    | inl old ↦ ground (arith, e.equals_iff a b)
    | inr new ↦ rw new
  ]

  pub contains-remove :
      (a b : A) (xs : List A) → contains (remove a xs) b ≡ (not (a == b) && contains xs b)
  unfolding contains remove
  contains-remove a b [] = ground arith
  contains-remove a b (x ∷ xs) =
      ground (arith, contains-remove a b xs, e.equals_iff x a, e.equals_iff x b, e.equals_iff a b)

  -- How many elements of `us`, counted with repetition, `seen` does not hold.
  abbrev pub unseen : List A → List A → ℕ
  unseen [] seen = 0
  unseen (u ∷ us) seen = if contains seen u then unseen us seen else suc (unseen us seen)

  pub unseen-le-length : (us seen : List A) → unseen us seen ≤ length us
  unseen-le-length [] seen = omega arith
  unseen-le-length (u ∷ us) seen = ground (arith, unseen-le-length us seen)

  pub unseen_mono :
      (us seen seen' : List A)
      → ((x : A) → contains seen x ≡ true → contains seen' x ≡ true)
      → unseen us seen' ≤ unseen us seen
  unseen_mono [] seen seen' h = omega arith
  unseen_mono (u ∷ us) seen seen' h = ground (arith, h u, unseen_mono us seen seen' h)

  pub unseen-cons-lt :
      (us seen : List A) (g : A)
      → contains us g ≡ true
      → contains seen g ≡ false
      → unseen us (g ∷ seen) < unseen us seen
  unfolding contains
  unseen-cons-lt [] seen g h n = absurd (ground arith)
  unseen-cons-lt (u ∷ us) seen g h n = ground (
    arith,
    e.equals_iff u g,
    e.equals_iff g u,
    unseen-cons-lt us seen g,
    unseen_mono us seen (g ∷ seen) (λ x. contains_tail g x seen),
  )

pub contains-map {ℓ κ} :
    {A : Type ℓ} {B : Type κ} ⦃e : Comparable A⦄ ⦃d : Comparable B⦄ (f : A → B) (xs : List A)
    (a : A)
    → contains xs a ≡ true
    → contains (map f xs) (f a) ≡ true
unfolding contains
contains-map f [] a h = ground arith
contains-map ⦃e⦄ ⦃d⦄ f (x ∷ xs) a h = elim (Bool-cases (x == a)) [
  | inl same ↦ ground (arith, (d.equals_iff (f x) (f a)).1 (ap f ((e.equals_iff x a).0 same)))
  | inr other ↦ ground (arith, contains-map f xs a)
]
