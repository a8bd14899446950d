-- ===== src/Admin/Session/Rotation.antt =====
-- That a refresh token is good for one refresh, and what a refresh has established, in
-- admin/service/auth.go.
use aeus.Common.{
  ℕ, ◌+◌, ◌<◌, Bytes, Bool, true, false, not, ◌&&◌, [], ◌=ᵇ◌, test_of_ne, Option, some, Result, ok,
  err, ◌≡◌, ◌≢◌, sym, ap, subst, ◌∙◌, inl, inr, arith, Bool-cases, Result-cases,
}
use aeus.Tokens.Interface.{TokenStore}
use aeus.Admin.Session.Model.{
  Claims, token_type_access, token_type_refresh, User, AuthError, ParsesSoundly, refresh_token_ttl,
  ttl, new_claims, create_token,
}
use aeus.Admin.Session.Login.{Fresh}
use aeus.Admin.Session.Renew.{
  RefreshResponse, Renewer, window, mint, rotate, admitted, refresh_token,
}
use aeus.Admin.Session.Gates.{create_token-eq-ok}
use aeus.Admin.Session.Admission.{Admitted, admitted-Admitted}

some_inj {ℓ} : {A : Type ℓ} {a b : A} → ◌≡◌ {A = Option A} (some a) (some b) → a ≡ b
some_inj h = ground (arith, h)

module _ {T : TokenStore} (r : Renewer T) where
  -- What the store answers to the claim of the old jti.
  abbrev claim : T.State → Fresh → Claims → Result ℕ (Bool × T.State)
  claim t fresh c =
      T.revoke_if_not_revoked t c.jti (window c.expires_at (fresh.now + refresh_token_ttl))
        fresh.now

  rotate-eq-ok :
      (t t' : T.State) (fresh : Fresh) (c : Claims) (u : User) (res : RefreshResponse)
      → r.fenced ≡ true
      → (c.jti =ᵇ []) ≡ false
      → rotate r t fresh c u ≡ (ok res, t')
      → (claim t fresh c ≡ ok (true, t')) × (mint r fresh u ≡ ok res)
  unfolding rotate
  rotate-eq-ok t t' fresh c u res f j h = elim (Result-cases (claim t fresh c)) [
    | inl (e, p) ↦ absurd (failed e p)
    | inr (answer, p) ↦
        let (won, left) = answer in
        elim (Bool-cases won) [
          | inl w ↦ (granted won left p w, minted won left p w)
          | inr w ↦ absurd (lost won left p w)
        ]
  ]
    where
      failed : (e : ℕ) → claim t fresh c ≡ err e → ⊥
      failed e p = ground (arith, f, j, h, p)

      lost : (won : Bool) (left : T.State) → claim t fresh c ≡ ok (won, left) → won ≡ false → ⊥
      lost won left p w = ground (arith, f, j, h, p, w)

      granted :
          (won : Bool) (left : T.State)
          → claim t fresh c ≡ ok (won, left)
          → won ≡ true
          → claim t fresh c ≡ ok (true, t')
      granted won left p w = ground (arith, f, j, h, p, w)

      minted :
          (won : Bool) (left : T.State)
          → claim t fresh c ≡ ok (won, left)
          → won ≡ true
          → mint r fresh u ≡ ok res
      minted won left p w = ground (arith, f, j, h, p, w)

  refresh_token-eq-ok :
      (t t' : T.State) (fresh : Fresh) (raw : Bytes) (res : RefreshResponse)
      → refresh_token r t fresh raw ≡ (ok res, t')
      → (c : Claims) × (u : User) × Admitted r raw fresh.now c u
        × (rotate r t fresh c u ≡ (ok res, t'))
  unfolding refresh_token
  refresh_token-eq-ok t t' fresh raw res h = elim (Result-cases (admitted r raw fresh.now)) [
    | inl (e, p) ↦ absurd (refusal e p)
    | inr (found, p) ↦
        let (c, u) = found in (c, u, admitted-Admitted r raw fresh.now c u p, passed c u p)
  ]
    where
      refusal : (e : AuthError) → admitted r raw fresh.now ≡ err e → ⊥
      refusal e p = ground (arith, h, p)

      passed :
          (c : Claims) (u : User)
          → admitted r raw fresh.now ≡ ok (c, u)
          → rotate r t fresh c u ≡ (ok res, t')
      passed c u p = ground (arith, h, p)

  claim-fenced :
      (t t' t'' : T.State) (fresh fresh' : Fresh) (c : Claims) (e : ℕ)
      → c.expires_at ≡ some e
      → fresh'.now < e
      → claim t fresh c ≡ ok (true, t')
      → claim t' fresh' c ≢ ok (true, t'')
  claim-fenced t t' t'' fresh fresh' c e x l h =
      T.claim_fences t t' c.jti (window c.expires_at (fresh.now + refresh_token_ttl)) fresh.now
        (window c.expires_at (fresh'.now + refresh_token_ttl)) fresh'.now h (rw (x) l) t''

  -- A refresh that succeeds has parsed its token, and has claimed its jti where it must.
  refresh_token-claimed :
      ParsesSoundly r.externals
      → (t t' : T.State) (fresh : Fresh) (raw : Bytes) (c : Claims) (res : RefreshResponse)
      → r.fenced ≡ true
      → r.externals.parse_unchecked raw ≡ some c
      → c.jti ≢ []
      → refresh_token r t fresh raw ≡ (ok res, t')
      → (r.externals.parse raw fresh.now ≡ ok c) × (claim t fresh c ≡ ok (true, t'))
  refresh_token-claimed sound t t' fresh raw c res f k j h =
      let (d, u, a, rotated) = refresh_token-eq-ok t t' fresh raw res h in
      let same = some_inj (sym (sound.same_claims raw fresh.now d a.parsed) ∙ k) in
      (
        a.parsed ∙ ap ok same,
        (rotate-eq-ok t t' fresh c u res f (test_of_ne _ _ j)
            (subst (λ x. rotate r t fresh x u ≡ (ok res, t')) same rotated)).0,
      )

  -- A refresh with the same token after one that succeeded fails, at any instant that the parser
  -- accepts it: of a service with a store, for a token with a jti and an expiry, where the parser
  -- refuses an expired token and gives a token the same claims each time.
  pub refresh_token-once :
      ParsesSoundly r.externals
      → (t t' t'' : T.State) (fresh fresh' : Fresh) (raw : Bytes) (c : Claims) (e : ℕ)
        (res res' : RefreshResponse)
      → r.fenced ≡ true
      → r.externals.parse_unchecked raw ≡ some c
      → c.jti ≢ []
      → c.expires_at ≡ some e
      → refresh_token r t fresh raw ≡ (ok res, t')
      → refresh_token r t' fresh' raw ≢ (ok res', t'')
  refresh_token-once sound t t' t'' fresh fresh' raw c e res res' f k j x h h' =
      let (p, won) = refresh_token-claimed sound t t' fresh raw c res f k j h in
      let (p', again) = refresh_token-claimed sound t' t'' fresh' raw c res' f k j h' in
      claim-fenced t t' t'' fresh fresh' c e x (sound.unexpired raw fresh'.now c e p' x) won again

  abbrev refresh_claims : Fresh → User → Claims
  refresh_claims fresh u =
      new_claims u.uid u.role_key u.tenant_id token_type_refresh refresh_token_ttl fresh.refresh_id
        fresh.now

  abbrev access_claims : Fresh → User → Claims
  access_claims fresh u =
      new_claims u.uid u.role_key u.tenant_id token_type_access (ttl r.token_expire_seconds)
        fresh.access_id fresh.now

  -- What the answer to a refresh has established.
  pub record Renewed (raw : Bytes) (fresh : Fresh) (res : RefreshResponse) : Type 0 where
    pub claims : Claims
    pub user : User
    pub admission : Admitted r raw fresh.now claims user
    pub refresh : r.externals.sign (refresh_claims fresh user) ≡ ok res.refresh_token
    pub access : r.externals.sign (access_claims fresh user) ≡ ok res.access_token

  mint-eq-ok :
      (fresh : Fresh) (u : User) (res : RefreshResponse)
      → mint r fresh u ≡ ok res
      → (r.externals.sign (refresh_claims fresh u) ≡ ok res.refresh_token)
        × (r.externals.sign (access_claims fresh u) ≡ ok res.access_token)
  unfolding mint
  mint-eq-ok fresh u res h =
      elim (Result-cases (create_token r.externals (refresh_claims fresh u))) [
        | inl (e, p) ↦ absurd (no_refresh e p)
        | inr (refresh, p) ↦
            elim (Result-cases (create_token r.externals (access_claims fresh u))) [
              | inl (e, q) ↦ absurd (no_access refresh e p q)
              | inr (access, q) ↦ (
                create_token-eq-ok r.externals (refresh_claims fresh u)
                    (p ∙ ap ok (ground (arith, h, p, q))),
                create_token-eq-ok r.externals (access_claims fresh u)
                    (q ∙ ap ok (ground (arith, h, p, q))),
              )
            ]
      ]
    where
      no_refresh : (e : AuthError) → create_token r.externals (refresh_claims fresh u) ≡ err e → ⊥
      no_refresh e p = ground (arith, h, p)

      no_access :
          (refresh : Bytes) (e : AuthError)
          → create_token r.externals (refresh_claims fresh u) ≡ ok refresh
          → create_token r.externals (access_claims fresh u) ≡ err e
          → ⊥
      no_access refresh e p q = ground (arith, h, p, q)

  rotate-mint :
      (t t' : T.State) (fresh : Fresh) (c : Claims) (u : User) (res : RefreshResponse)
      → rotate r t fresh c u ≡ (ok res, t')
      → mint r fresh u ≡ ok res
  unfolding rotate
  rotate-mint t t' fresh c u res h = elim (Bool-cases (r.fenced && not (c.jti =ᵇ []))) [
    | inl b ↦ (rotate-eq-ok t t' fresh c u res (ground (arith, b)) (ground (arith, b)) h).1
    | inr b ↦ ground (arith, h, b)
  ]

  -- A refresh that succeeds has parsed a token of type refresh, whose user and role are in the
  -- database and not disabled; its new pair of tokens, one of each type, carries the uid, the role
  -- and the tenant of the row, not those of the old token.
  pub refresh_token-Renewed :
      (t t' : T.State) (fresh : Fresh) (raw : Bytes) (res : RefreshResponse)
      → refresh_token r t fresh raw ≡ (ok res, t')
      → Renewed raw fresh res
  refresh_token-Renewed t t' fresh raw res h =
      let (c, u, a, rotated) = refresh_token-eq-ok t t' fresh raw res h in
      let (refresh, access) = mint-eq-ok fresh u res (rotate-mint t t' fresh c u res rotated) in
      record { claims = c; user = u; admission = a; refresh = refresh; access = access }
