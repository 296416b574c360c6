-- ===== src/Runtime/ApiKeys/Scopes.antt =====
-- A created key: how it resolves, and the prefix that can be read off it.
use Prim.Native.Char.{code}
use text.Mathlib.TextLemmas.{nil-append, cons-append, append-nil, append_assoc}
use groundwork.Base.{
  ℕ, ◌<>◌, String, ◌≡◌, refl, sym, ap, ◌∙◌, Bool, true, false, not, ◌&&◌, [], ◌∷◌, ◌==◌, nat_eq,
  arith,
}
use groundwork.Runtime.ApiKeys.{generate_api_key, split_from, prefix_of, api_key_prefix}

-- The separator is not in the text.
unfoldable pub lacks : ℕ → String → Bool
lacks sep String.[] = true
lacks sep (String.◌∷◌ c s) = not (code c == sep) && lacks sep s

split_from-append :
    (sep : ℕ) (part p s : String)
    → lacks sep p ≡ true
    → split_from sep part (p <> s) ≡ split_from sep (part <> p) s
unfolding lacks split_from
split_from-append sep part String.[] s h = rw (nil-append, append-nil)
split_from-append sep part (String.◌∷◌ c p) s h =
    let differ : (code c == sep) ≡ false = ground arith in
    rw (cons-append, split_from, differ)
      (split_from-append sep (part <> String.◌∷◌ c "") p s (ground arith)
        ∙ ap (λ q. split_from sep q s)
            (append_assoc part (String.◌∷◌ c "") p
              ∙ ap (λ q. part <> q) (cons-append c "" p ∙ ap (λ r. String.◌∷◌ c r) (nil-append p))))

split_from-part :
    (p s : String) → lacks 95 p ≡ true → split_from 95 "" (p <> ("_" <> s)) ≡ p ∷ split_from 95 "" s
unfolding split_from
split_from-part p s h =
    split_from-append 95 "" p ("_" <> s) h
    ∙ ap (λ q. split_from 95 q ("_" <> s)) (nil-append p)
    ∙ ap (split_from 95 p) (cons-append "_" "" s ∙ ap (λ r. String.◌∷◌ "_" r) (nil-append s))

-- The prefix of a generated key, which has no underscore, is what is read off the key.
pub api_key_prefix-generate_api_key :
    (prefix secret : String)
    → lacks 95 prefix ≡ true
    → api_key_prefix (generate_api_key prefix secret) ≡ prefix
unfolding api_key_prefix generate_api_key prefix_of lacks
api_key_prefix-generate_api_key prefix secret h =
    let key = prefix <> ("_" <> secret) in
    let spelled : "gw" <> ("_" <> ("live" <> ("_" <> key))) ≡ "gw_live_" <> key =
      sym (append_assoc "gw" "_" ("live" <> ("_" <> key)))
      ∙ sym (append_assoc "gw_" "live" ("_" <> key))
      ∙ sym (append_assoc "gw_live" "_" key) in
    let parts : split_from 95 "" ("gw_live_" <> key)
        ≡ "gw" ∷ "live" ∷ prefix ∷ split_from 95 "" secret =
      ap (split_from 95 "") (sym spelled)
      ∙ split_from-part "gw" ("live" <> ("_" <> key)) refl
      ∙ ap (λ ps. "gw" ∷ ps) (split_from-part "live" key refl)
      ∙ ap (λ ps. "gw" ∷ "live" ∷ ps) (split_from-part prefix secret h) in
    ap prefix_of parts
