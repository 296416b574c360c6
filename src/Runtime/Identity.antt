-- ===== src/Runtime/Identity.antt =====
-- services/query-runtime/internal/runtime/identity.go: who the end user of a query is.
pub mod Accepted
use Prim.Native.Char.{code}
use groundwork.Base.{
  ℕ, ◌+◌, String, Bool, true, false, ◌&&◌, List, [], ◌∷◌, Option, none, some, ◌⊎◌, inl, inr, leb,
  nat_beq, if◌then◌else◌, ◌==◌, string_eq, Result, ok, err, trim_space,
}

-- `ErrIdentityMissing`, `ErrIdentityInvalid`, with what they are wrapped with, or another error.
pub data IdentityError : Type 0 where
  identity_missing identity_invalid other_error : String → IdentityError

pub record Identity : Type 0 where
  pub user_id : String
  pub subject : String
  pub oid : String
  pub email : String
  pub username : String
  pub issuer : String
  pub email_verified : Bool
  pub verified : Bool

-- A claim's value: a string, a boolean or anything else.
pub data ClaimValue : Type 0 where
  text : String → ClaimValue
  flag : Bool → ClaimValue
  other_value : ClaimValue

-- `jwt.MapClaims`
abbrev pub Claims : Type 0
Claims = String → Option ClaimValue

unfoldable pub text_of : Option ClaimValue → String
text_of (some (text value)) = trim_space value
text_of (some (flag b)) = ""
text_of (some other_value) = ""
text_of none = ""

unfoldable pub claim_string : Claims → String → String
unfolding text_of
claim_string claims key = text_of (claims key)

unfoldable lower : ℕ → ℕ
lower c = if leb 65 c && leb c 90 then c + 32 else c

-- `strings.EqualFold`, for a second text without the letters k and s, whose other cases are not
-- all ASCII.
unfoldable pub equal_fold : String → String → Bool
unfolding lower
equal_fold String.[] String.[] = true
equal_fold (String.◌∷◌ c s) (String.◌∷◌ d t) =
    nat_beq (lower (code c)) (lower (code d)) && equal_fold s t
equal_fold String.[] (String.◌∷◌ d t) = false
equal_fold (String.◌∷◌ c s) String.[] = false

unfoldable pub flag_of : Option ClaimValue → Bool
flag_of (some (flag b)) = b
flag_of (some (text value)) = equal_fold (trim_space value) "true"
flag_of (some other_value) = false
flag_of none = false

unfoldable pub claim_bool : Claims → String → Bool
unfolding flag_of
claim_bool claims key = flag_of (claims key)

unfoldable pub first_claim : Claims → List String → String
first_claim claims [] = ""
first_claim claims (key ∷ keys) =
    let value = claim_string claims key in
    let rest = first_claim claims keys in if value == "" then rest else value

unfoldable pub effective_user_id : Claims → String
unfolding first_claim
effective_user_id claims = first_claim claims ("sub" ∷ "email" ∷ "preferred_username" ∷ [])

unfoldable pub identity_of : Claims → Identity
identity_of claims = record {
  user_id = effective_user_id claims;
  subject = claim_string claims "sub";
  oid = claim_string claims "oid";
  email = claim_string claims "email";
  username = claim_string claims "preferred_username";
  issuer = claim_string claims "iss";
  email_verified = claim_bool claims "email_verified";
  verified = true;
}

-- The end of `Verify`, from the claims and the validity that the parser answers with.
unfoldable pub accept : Result (Claims × Bool) → IdentityError ⊎ Identity
unfolding identity_of
accept (err e) = inl (identity_invalid e)
accept (ok (claims, false)) = inl (identity_invalid "token is not valid")
accept (ok (claims, true)) =
    if effective_user_id claims == ""
    then inl (identity_invalid "token has no sub/email/preferred_username claim")
    else inr (identity_of claims)

-- `JWTVerifier.Verify`; `parse` is the parser of the JWT library with its key.
unfoldable pub verify : (String → Result (Claims × Bool)) → String → IdentityError ⊎ Identity
unfolding accept
verify parse token =
    let trimmed = trim_space token in
    if trimmed == "" then inl (identity_missing "") else accept (parse trimmed)

-- `IdentityVerifier`
abbrev pub IdentityVerifier : Type 0
IdentityVerifier = String → IdentityError ⊎ Identity

unfoldable pub verify_with : Option IdentityVerifier → String → IdentityError ⊎ Identity
verify_with none token = inl (identity_invalid "no identity verifier configured")
verify_with (some verifier) token = verifier token

unfoldable pub demo_identity : String → Identity
demo_identity user = record {
  user_id = user;
  subject = user;
  oid = "";
  email = "";
  username = "";
  issuer = "";
  email_verified = false;
  verified = false;
}

unfoldable pub resolve_effective_identity :
    Option IdentityVerifier → Bool → String → String → IdentityError ⊎ Identity
unfolding verify_with demo_identity
resolve_effective_identity verifier allow_demo token demo_user_id =
    let trimmed = trim_space token in
    let user = trim_space demo_user_id in
    let demo =
      if user == ""
      then inl (identity_missing "demo identity enabled but no user_id supplied")
      else inr (demo_identity user) in
    if trimmed == ""
    then if allow_demo then demo else inl (identity_missing "")
    else verify_with verifier trimmed
