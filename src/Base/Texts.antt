-- ===== src/Base/Texts.antt =====
-- Go's `strings.HasPrefix`, `HasSuffix`, `TrimPrefix` and `TrimSuffix`.
use Prim.Native.Nat.{ℕ, ◌+◌, ◌-◌}
use Prim.Native.Char.{code}
use mathlib.Core.Logic.{◌≢◌, inl, inr}
use text.Mathlib.TextLemmas.{append_inj, append_assoc}
use text.Mathlib.TextEquality.{starts_with_iff}
use Prim.Native.String.{String, ◌++◌, len, slice, count}
use mathlib.Core.Path.{◌≡◌, sym, ◌∙◌}
use mathlib.Core.Bool.{Bool, true, false, ◌&&◌, ◌||◌}
use native.Mathlib.Omega.{arith}
use text.Mathlib.Text.{starts_with}
use text.Mathlib.TextPositions.{
  len-append, slice-append_left, slice-append_right, starts_with-append,
}
use groundwork.Base.Tests.{leb, nat_beq, Bool-cases, ◌==◌, ==_refl, string_eq, if◌then◌else◌}

unfoldable pub has_prefix : String → String → Bool
has_prefix s p = starts_with s p

unfoldable pub has_suffix : String → String → Bool
has_suffix s t = leb (len t) (len s) && slice s (len s - len t) (len s) == t

unfoldable pub trim_prefix : String → String → String
unfolding has_prefix
trim_prefix s p = if has_prefix s p then slice s (len p) (len s) else s

unfoldable pub trim_suffix : String → String → String
unfolding has_suffix
trim_suffix s t = if has_suffix s t then slice s 0 (len s - len t) else s

pub has_prefix-append : (p s : String) → has_prefix (p ++ s) p ≡ true
unfolding has_prefix
has_prefix-append p s = starts_with-append p s

leb-add : (a b : ℕ) → leb b (a + b) ≡ true
leb-add a b = ground arith

add_sub : (a b : ℕ) → a + b - b ≡ a
add_sub a b = omega arith

pub has_suffix-append : (s t : String) → has_suffix (s ++ t) t ≡ true
unfolding has_suffix
has_suffix-append s t = rw (len-append, leb-add, add_sub, slice-append_right) (==_refl t)

pub trim_prefix-append : (p s : String) → trim_prefix (p ++ s) p ≡ s
unfolding trim_prefix
trim_prefix-append p s = rw (has_prefix-append p s, len-append, slice-append_right)

pub trim_suffix-append : (s t : String) → trim_suffix (s ++ t) t ≡ s
unfolding trim_suffix
trim_suffix-append s t = rw (has_suffix-append s t, len-append, add_sub, slice-append_left)

-- Texts that differ in a prefix of one length differ, whatever follows.
pub prefix_ne :
    (p q p' q' a b : String) → count p ≡ count q → p ≢ q → ((p ++ p') ++ a) ≢ ((q ++ q') ++ b)
prefix_ne p q p' q' a b h ne e =
    ne (append_inj (sym (append_assoc p p' a) ∙ e ∙ append_assoc q q' b) h).0

-- A text that is no extension of `q` does not have the prefix `q`.
pub has_prefix-eq-false : (s q : String) → ((b : String) → s ≢ (q ++ b)) → has_prefix s q ≡ false
unfolding has_prefix
has_prefix-eq-false s q h = elim (Bool-cases (starts_with s q)) [
  | inl yes_prefix ↦ let (b, e) = (starts_with_iff s q).0 yes_prefix in absurd (h b (sym e))
  | inr no_prefix ↦ no_prefix
]

-- A letter lowered by `strings.ToLower`, in the cases whose result is ASCII: beside A to Z these are
-- the dotted capital I and the sign for Kelvin.
unfoldable pub lowered : ℕ → ℕ
lowered c =
    if leb 65 c && leb c 90
    then c + 32
    else if nat_beq c 304
    then 105
    else if nat_beq c 8490
    then 107
    else c

-- Whether a text starts with a word of ASCII letters, once lowered.
unfoldable pub lowers_to : String → String → Bool
unfolding lowered
lowers_to s String.[] = true
lowers_to String.[] (String.◌∷◌ d t) = false
lowers_to (String.◌∷◌ c s) (String.◌∷◌ d t) = nat_beq (lowered (code c)) (code d) && lowers_to s t

-- `strings.Contains(strings.ToLower(s), word)` for such a word, which is not empty.
unfoldable pub lowered_contains : String → String → Bool
unfolding lowers_to
lowered_contains String.[] word = false
lowered_contains (String.◌∷◌ c s) word =
    let rest = lowered_contains s word in lowers_to (String.◌∷◌ c s) word || rest
