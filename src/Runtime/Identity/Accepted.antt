-- ===== src/Runtime/Identity/Accepted.antt =====
-- Which identities are accepted.
use groundwork.Base.{
  String, ◌≡◌, ◌≢◌, refl, ap, Bool, true, false, some, ◌⊎◌, ◌↔◌, inl, inr, ◌==◌, string_eq,
  Bool-cases, Result, ok, err, trim_space, arith,
}
use groundwork.Runtime.Identity.{
  Identity, Claims, effective_user_id, identity_of, accept, verify, verify_with, demo_identity,
  resolve_effective_identity,
}

module _ (parse : String → Result (Claims × Bool)) where
  -- The identity is that of valid claims which the parser answers for the token.
  pub Signed : String → Identity → Type 0
  Signed token i =
      (claims : Claims) × (parse token ≡ ok (claims, true))
      × (effective_user_id claims ≢ "")
      × (i ≡ identity_of claims)

  accept-Signed :
      (token : String) (answer : Result (Claims × Bool)) (i : Identity)
      → parse token ≡ answer
      → accept answer ≡ inr i
      → Signed token i
  unfolding accept Signed
  accept-Signed token (err e) i parsed h = absurd (cc h)
  accept-Signed token (ok (claims, false)) i parsed h = absurd (cc h)
  accept-Signed token (ok (claims, true)) i parsed h =
      elim (Bool-cases (effective_user_id claims == "")) [
        | inl blank ↦ absurd (cc (rw (blank, accept) at h))
        | inr filled ↦ (claims, parsed, (λ e. cc (filled, ap (λ s. s == "") e)), ground arith)
      ]

  verify-Signed :
      (token : String) (i : Identity) → verify parse token ≡ inr i → Signed (trim_space token) i
  unfolding verify
  verify-Signed token i h =
      accept-Signed (trim_space token) (parse (trim_space token)) i refl (ground arith)

  -- `verify` accepts exactly the signed identities of tokens that are not blank.
  verify_iff :
      (token : String) (i : Identity)
      → (verify parse token ≡ inr i) ↔ ((trim_space token ≢ "") × Signed (trim_space token) i)
  unfolding verify accept Signed
  verify_iff token i = elim (Bool-cases (trim_space token == "")) [
    | inl blank ↦ (
      (λ h. absurd (cc (rw (blank, verify) at h))),
      (λ (filled, signed). absurd (filled ((string_eq.equals_iff (trim_space token) "").0 blank))),
    )
    | inr filled ↦ (
      (λ h. ((λ e. cc (filled, ap (λ s. s == "") e)), verify-Signed token i h)),
      (λ (_, (claims, parsed, named, same)).
          rw (filled, parsed, verify, accept)
            (ground (arith, named, same, string_eq.equals_iff (effective_user_id claims) ""))),
    )
  ]

  -- The identity is the demo user's.
  pub Demo : Bool → String → Identity → Type 0
  Demo allow_demo demo_user_id i =
      (allow_demo ≡ true)
      × (trim_space demo_user_id ≢ "")
      × (i ≡ demo_identity (trim_space demo_user_id))

  blank_token :
      (allow_demo : Bool) (token demo_user_id : String) (i : Identity)
      → trim_space token ≡ ""
      → (resolve_effective_identity (some (verify parse)) allow_demo token demo_user_id ≡ inr i)
        ↔ Demo allow_demo demo_user_id i
  unfolding resolve_effective_identity Demo
  blank_token allow_demo token demo_user_id i blank =
      let blank_demo = string_eq.equals_iff (trim_space demo_user_id) "" in
      ground (arith, ap (λ t. t == "") blank, blank_demo)

  signed_token :
      (allow_demo : Bool) (token demo_user_id : String) (i : Identity)
      → trim_space token ≢ ""
      → (resolve_effective_identity (some (verify parse)) allow_demo token demo_user_id ≡ inr i)
        ↔ (verify parse (trim_space token) ≡ inr i)
  unfolding resolve_effective_identity verify_with
  signed_token allow_demo token demo_user_id i filled =
      let same = string_eq.equals_iff (trim_space token) "" in ground (arith, same)

  -- With the verifier of JWTs, for any parser: an identity is accepted exactly if the trimmed token
  -- is not blank, the parser answers valid claims for it and these name a user, and the identity is
  -- then the claims'; or if the trimmed token is blank, demo identities are allowed and the trimmed
  -- demo user is not blank, and the identity is then the demo user's, not verified.
  pub resolve_effective_identity_iff :
      (allow_demo : Bool) (token demo_user_id : String) (i : Identity)
      → (resolve_effective_identity (some (verify parse)) allow_demo token demo_user_id ≡ inr i) ↔ (
          ((trim_space token ≢ "")
            × ((trim_space (trim_space token) ≢ "") × Signed (trim_space (trim_space token)) i))
          ⊎ ((trim_space token ≡ "") × Demo allow_demo demo_user_id i))
  resolve_effective_identity_iff allow_demo token demo_user_id i =
      elim (Bool-cases (trim_space token == "")) [
        | inl same ↦
            let blank = (string_eq.equals_iff (trim_space token) "").0 same in
            let demo = blank_token allow_demo token demo_user_id i blank in
            (
              (λ h. inr (blank, demo.0 h)),
              (λ r. elim r [ inl (filled, _) ↦ absurd (filled blank) | inr (_, d) ↦ demo.1 d ]),
            )
        | inr other ↦
            let filled : trim_space token ≢ "" = λ e. cc (other, ap (λ s. s == "") e) in
            let signed = signed_token allow_demo token demo_user_id i filled in
            let accepted = verify_iff (trim_space token) i in
            (
              (λ h. inl (filled, accepted.0 (signed.0 h))),
              (λ r. elim r [
                | inl (_, s) ↦ signed.1 (accepted.1 s)
                | inr (blank, _) ↦ absurd (filled blank)
              ]),
            )
      ]
