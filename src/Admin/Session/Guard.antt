-- ===== src/Admin/Session/Guard.antt =====
-- The JWT middleware of middleware/auth/jwt.go with the validator of the auth service.
use aeus.Common.{ℕ, ◌<◌, Bytes, true, false, some, ok, [], ◌≡◌, ◌≢◌, arith}
use aeus.Auth.Jwt.{
  JwtOptions, JwtRequest, stop, invalid, listed, token_of, validated, authorize, jwt,
}
use aeus.Tokens.Interface.{TokenStore}
use aeus.Admin.Session.Model.{Claims, AuthError, ParsesSoundly}
use aeus.Admin.Session.Renew.{Renewer, logout, validate_token}
use aeus.Admin.Session.Logout.{access_only, logout-denies}

module _ {T : TokenStore} (r : Renewer T) {P : Type 0}
    (o : JwtOptions Claims AuthError P T.State) where
  authorize-invalid :
      (t : T.State) (raw : Bytes) (e : AuthError)
      → (validated o t raw).0 ≡ some e
      → (authorize o t raw).0 ≡ stop (invalid e)
  unfolding authorize
  authorize-invalid t raw e h = ground (arith, h)

  -- Once a logout with an access token alone has answered, the middleware stops every request whose
  -- header gives that token up to its expiry, on any path that is not on its allowlist: where its
  -- validator is the one of the service, with a store, over what the logout left; for a token with a
  -- jti and an expiry that parsed at the logout, and a parser that refuses an expired token and
  -- gives a token the same claims with and without the checks.
  pub jwt-after_logout :
      ParsesSoundly r.externals
      → (t t' : T.State) (now later : ℕ) (raw uid header : Bytes) (c : Claims) (e : ℕ)
        (q : JwtRequest)
      → r.fenced ≡ true
      → raw ≢ []
      → r.externals.parse raw now ≡ ok c
      → c.jti ≢ []
      → c.expires_at ≡ some e
      → later < e
      → logout r t now (access_only raw) ≡ (ok uid, t')
      → o.validate ≡ some (λ s token. validate_token r s later token)
      → listed o q ≡ false
      → q.authorization ≡ some header
      → token_of header ≡ raw
      → (jwt o t' q).0 ≡ stop (invalid AuthError.access_denied)
  unfolding jwt
  jwt-after_logout sound t t' now later raw uid header c e q f filled p j x l out v unlisted a
        token =
      rw (unlisted, a, jwt, token) (authorize-invalid t' raw AuthError.access_denied denied)
    where
      denied : (validated o t' raw).0 ≡ some AuthError.access_denied
      denied =
          rw (v, validated) (logout-denies r sound t t' now later raw uid c e f filled p j x l out)
