-- ===== src/Base/Elements.antt =====
-- A predicate that holds of every element of a list.
use Prim.Native.Nat.{ℕ, zero, suc}
use mathlib.Core.Path.{refl, subst, sym}
use mathlib.Core.List.{List, [], ◌∷◌, ◌++◌, map, Memᴰ}
use mathlib.Core.List.Memᴰ
use groundwork.Base.Lists.{take}

abbrev pub All {ℓ κ} : {A : Type ℓ} → (A → Type κ) → List A → Type κ
All P [] = Unit
All P (x ∷ xs) = P x × All P xs

pub All-append {ℓ κ} :
    {A : Type ℓ} (P : A → Type κ) (xs ys : List A) → All P xs → All P ys → All P (xs ++ ys)
All-append P [] ys hx hy = hy
All-append P (x ∷ xs) ys hx hy = (hx.0, All-append P xs ys hx.1 hy)

pub All_at {ℓ κ} : {A : Type ℓ} (P : A → Type κ) (xs : List A) {x : A} → All P xs → Memᴰ x xs → P x
All_at P [] h m = absurd (Memᴰ.not-nil m)
All_at P (y ∷ ys) h (Memᴰ.head e) = subst P (sym e) h.0
All_at P (y ∷ ys) h (Memᴰ.tail m) = All_at P ys h.1 m

pub All-of {ℓ κ} :
    {A : Type ℓ} (P : A → Type κ) (xs : List A) → ((x : A) → Memᴰ x xs → P x) → All P xs
All-of P [] h = tt
All-of P (y ∷ ys) h = (h y (Memᴰ.head refl), All-of P ys (λ x m. h x (Memᴰ.tail m)))

pub All-mono {ℓ κ μ} :
    {A : Type ℓ} (P : A → Type κ) (Q : A → Type μ) (xs : List A)
    → ((x : A) → P x → Q x)
    → All P xs
    → All Q xs
All-mono P Q [] f h = tt
All-mono P Q (y ∷ ys) f h = (f y h.0, All-mono P Q ys f h.1)

pub mem_of_mem-take {ℓ} :
    {A : Type ℓ} (n : ℕ) (xs : List A) {x : A} → Memᴰ x (take n xs) → Memᴰ x xs
mem_of_mem-take zero xs m = absurd (Memᴰ.not-nil m)
mem_of_mem-take (suc n) [] m = absurd (Memᴰ.not-nil m)
mem_of_mem-take (suc n) (y ∷ ys) (Memᴰ.head e) = Memᴰ.head e
mem_of_mem-take (suc n) (y ∷ ys) (Memᴰ.tail m) = Memᴰ.tail (mem_of_mem-take n ys m)

pub All-map {ℓ κ μ} :
    {A : Type ℓ} {B : Type κ} (P : B → Type μ) (f : A → B) (xs : List A)
    → All (λ x. P (f x)) xs
    → All P (map f xs)
All-map P f [] h = tt
All-map P f (x ∷ xs) h = (h.0, All-map P f xs h.1)
