-- ===== src/Admin/Session/Logout.antt =====
-- That a token does not outlive its logout, in admin/service/auth.go and revocation_validator.go.
use aeus.Common.{
  ℕ, ◌<◌, Bytes, Bool, true, false, [], ◌=ᵇ◌, test_of_ne, none, some, ok, err, ◌≡◌, ◌≢◌, ap, subst,
  ◌∙◌, inl, inr, =ᵇ_refl, arith, Option-cases, Result-cases,
}
use aeus.Tokens.Interface.{TokenStore}
use aeus.Admin.Session.Model.{
  Claims, token_type_refresh, AuthError, ParsesSoundly, token_type_refresh,
}
use aeus.Admin.Session.Renew.{
  LogoutRequest, Renewer, future_window, revoke_token, revoke_given, revoke_second, logout,
  denylisted, validate_token,
}

-- A logout with an access token alone.
abbrev pub access_only : Bytes → LogoutRequest
access_only raw = record { access_token = raw; refresh_token = [] }

module _ {T : TokenStore} (r : Renewer T) where
  -- A jti that the store has revoked is denied, whether the store answers or fails.
  denylisted-revoke :
      (t t' : T.State) (jti : Bytes) (until now later : ℕ)
      → jti ≢ []
      → now < until
      → later < until
      → T.revoke t jti until now ≡ ok t'
      → (denylisted r t' jti later).0 ≡ some AuthError.access_denied
  unfolding denylisted
  denylisted-revoke t t' jti until now later j n l h =
      elim (Result-cases (T.revoked t' jti later)) [
        | inl (e, p) ↦ ground (arith, p)
        | inr (answer, p) ↦
            let (b, left) = answer in
            let held = T.revoke_holds t t' jti until now later j n l h b left p in
            ground (arith, p, held)
      ]

  revoke_token-eq-ok :
      (t t' : T.State) (now : ℕ) (raw : Bytes) (c : Claims) (e : ℕ) (uid : Bytes)
      → r.fenced ≡ true
      → r.externals.parse raw now ≡ ok c
      → c.jti ≢ []
      → c.expires_at ≡ some e
      → now < e
      → revoke_token r t now raw ≡ (ok uid, t')
      → T.revoke t c.jti e now ≡ ok t'
  unfolding revoke_token future_window
  revoke_token-eq-ok t t' now raw c e uid f p j x n h =
      elim (Result-cases (T.revoke t c.jti e now)) [
        | inl (failure, q) ↦ absurd (failed failure q)
        | inr (left, q) ↦ q ∙ ap ok (kept left q)
      ]
    where
      failed : (failure : ℕ) → T.revoke t c.jti e now ≡ err failure → ⊥
      failed failure q = ground (arith, f, p, test_of_ne _ _ j, x, n, h, q)

      kept : (left : T.State) → T.revoke t c.jti e now ≡ ok left → left ≡ t'
      kept left q = ground (arith, f, p, test_of_ne _ _ j, x, n, h, q)

  validate_token-denied :
      (t : T.State) (now : ℕ) (raw : Bytes) (c : Claims)
      → r.fenced ≡ true
      → raw ≢ []
      → r.externals.parse_unchecked raw ≡ some c
      → c.jti ≢ []
      → (denylisted r t c.jti now).0 ≡ some AuthError.access_denied
      → (validate_token r t now raw).0 ≡ some AuthError.access_denied
  unfolding validate_token
  validate_token-denied t now raw c f raw_filled p j d =
      ground (arith, f, test_of_ne _ _ raw_filled, p, test_of_ne _ _ j, d)

  -- A token that is not empty, that the validator of a service with a store can parse and that it
  -- passes is no refresh token, and the store has answered that its jti is not revoked, if it has
  -- one.
  pub validate_token-passed :
      (t : T.State) (now : ℕ) (raw : Bytes) (c : Claims)
      → r.fenced ≡ true
      → raw ≢ []
      → r.externals.parse_unchecked raw ≡ some c
      → (validate_token r t now raw).0 ≡ none
      → (c.token_type ≢ token_type_refresh)
        × (c.jti ≢ [] → (left : T.State) × (T.revoked t c.jti now ≡ ok (false, left)))
  unfolding validate_token denylisted
  validate_token-passed t now raw c f raw_filled p h = (typed, λ j. answered j)
    where
      typed : c.token_type ≢ token_type_refresh
      typed e = ground (
        arith,
        f,
        test_of_ne _ _ raw_filled,
        p,
        h,
        subst (λ k. (c.token_type =ᵇ k) ≡ true) e (=ᵇ_refl c.token_type),
      )

      other : (c.token_type =ᵇ token_type_refresh) ≡ false
      other = test_of_ne _ _ typed

      outage : (e : ℕ) → c.jti ≢ [] → T.revoked t c.jti now ≡ err e → ⊥
      outage e j q = ground (arith, f, test_of_ne _ _ raw_filled, p, other, test_of_ne _ _ j, q, h)

      clear :
          (b : Bool) (left : T.State)
          → c.jti ≢ []
          → T.revoked t c.jti now ≡ ok (b, left)
          → b ≡ false
      clear b left j q =
          ground (arith, f, test_of_ne _ _ raw_filled, p, other, test_of_ne _ _ j, q, h)

      answered : c.jti ≢ [] → (left : T.State) × (T.revoked t c.jti now ≡ ok (false, left))
      answered j = elim (Result-cases (T.revoked t c.jti now)) [
        | inl (e, q) ↦ absurd (outage e j q)
        | inr (answer, q) ↦
            let (b, left) = answer in (left, q ∙ ap (λ k. ok (k, left)) (clear b left j q))
      ]

  logout-eq-ok :
      (t t' : T.State) (now : ℕ) (raw uid : Bytes)
      → raw ≢ []
      → logout r t now (access_only raw) ≡ (ok uid, t')
      → revoke_token r t now raw ≡ (ok uid, t')
  unfolding logout revoke_second revoke_given
  logout-eq-ok t t' now raw uid filled h =
      elim (Option-cases (r.validate_logout (access_only raw))) [
        | inr (e, p) ↦ absurd (invalid e p)
        | inl p ↦ elim (Result-cases (revoke_token r t now raw).0) [
          | inl (e, q) ↦ absurd (failed p e q)
          | inr (answer, q) ↦ kept p answer q
        ]
      ]
    where
      invalid : (e : ℕ) → r.validate_logout (access_only raw) ≡ some e → ⊥
      invalid e p = ground (arith, p, h)

      failed :
          r.validate_logout (access_only raw) ≡ none
          → (e : AuthError) → (revoke_token r t now raw).0 ≡ err e
          → ⊥
      failed p e q = ground (arith, p, q, h, test_of_ne _ _ filled, =ᵇ_refl [])

      kept :
          r.validate_logout (access_only raw) ≡ none
          → (answer : Bytes) → (revoke_token r t now raw).0 ≡ ok answer
          → revoke_token r t now raw ≡ (ok uid, t')
      kept p answer q = ground (arith, p, q, h, test_of_ne _ _ filled, =ᵇ_refl [])

  -- Once a logout with an access token alone has answered, the validator denies that token up to its
  -- expiry: of a service with a store, for a token that is not empty, parsed at the logout and has a
  -- jti and an expiry, where the parser refuses an expired token and gives a token the same claims
  -- with and without the checks.
  pub logout-denies :
      ParsesSoundly r.externals
      → (t t' : T.State) (now later : ℕ) (raw uid : Bytes) (c : Claims) (e : ℕ) → r.fenced ≡ true
      → raw ≢ []
      → r.externals.parse raw now ≡ ok c
      → c.jti ≢ []
      → c.expires_at ≡ some e
      → later < e
      → logout r t now (access_only raw) ≡ (ok uid, t')
      → (validate_token r t' later raw).0 ≡ some AuthError.access_denied
  logout-denies sound t t' now later raw uid c e f filled p j x l h =
      let n = sound.unexpired raw now c e p x in
      let revoked =
        revoke_token-eq-ok t t' now raw c e uid f p j x n
          (logout-eq-ok t t' now raw uid filled h) in
      validate_token-denied t' later raw c f filled (sound.same_claims raw now c p) j
        (denylisted-revoke t t' c.jti e now later j n l revoked)
