-- ===== src/Base/Trim.antt =====
-- Go's `strings.TrimSpace`, `sort.Strings` and `strings.Join`.
use Prim.Native.Nat.{ℕ}
use Prim.Native.Char.{code}
use Prim.Native.String.{String, compare, ◌++◌}
use mathlib.Core.Bool.{Bool, ◌&&◌, ◌||◌}
use mathlib.Core.List.{List, [], ◌∷◌}
use text.Mathlib.Text.{is_le}
use groundwork.Base.Tests.{leb, nat_beq, if◌then◌else◌, ◌==◌, string_eq}

-- The characters with the property White_Space.
unfoldable pub is_space : ℕ → Bool
is_space c =
    leb 9 c && leb c 13
    || nat_beq c 32
    || nat_beq c 133
    || nat_beq c 160
    || nat_beq c 5760
    || leb 8192 c && leb c 8202
    || nat_beq c 8232
    || nat_beq c 8233
    || nat_beq c 8239
    || nat_beq c 8287
    || nat_beq c 12288

unfoldable pub trim_left : String → String
trim_left String.[] = ""
trim_left (String.◌∷◌ c s) =
    let rest = trim_left s in if is_space (code c) then rest else String.◌∷◌ c s

unfoldable pub trim_right : String → String
trim_right String.[] = ""
trim_right (String.◌∷◌ c s) =
    let rest = trim_right s in if is_space (code c) && rest == "" then "" else String.◌∷◌ c rest

unfoldable pub trim_space : String → String
trim_space s = trim_right (trim_left s)

unfoldable pub insert_string : String → List String → List String
insert_string s [] = s ∷ []
insert_string s (t ∷ ts) =
    let rest = insert_string s ts in if is_le (compare s t) then s ∷ t ∷ ts else t ∷ rest

-- In the order of the bytes.
unfoldable pub sort_strings : List String → List String
unfolding insert_string
sort_strings [] = []
sort_strings (s ∷ ss) = insert_string s (sort_strings ss)

unfoldable pub join_strings_from : String → List String → String → String
join_strings_from head [] sep = head
join_strings_from head (s ∷ ss) sep = head ++ (sep ++ join_strings_from s ss sep)

unfoldable pub join_strings : List String → String → String
unfolding join_strings_from
join_strings [] sep = ""
join_strings (s ∷ ss) sep = join_strings_from s ss sep
