-- ===== src/Admin/Session/Renew.antt =====
-- `RefreshToken`, `Logout` and `revokeToken` of admin/service/auth.go, and `Validate` of
-- admin/service/revocation_validator.go, over any token store. Each gives the store it leaves.
use aeus.Common.{
  ℕ, ◌+◌, Bytes, Bool, not, ◌&&◌, ◌||◌, [], ltb, if◌then◌else◌, ◌=ᵇ◌, Option, none, some, Result,
  ok, err,
}
use aeus.Tokens.Interface.{TokenStore}
use aeus.Admin.Session.Model.{
  Claims, token_type_access, token_type_refresh, disabled, User, Db, AuthError, Externals, role_of,
  user_of, refresh_token_ttl, ttl, new_claims, create_token,
}
use aeus.Admin.Session.Login.{Fresh}

pub record RefreshResponse : Type 0 where
  pub access_token : Bytes
  pub refresh_token : Bytes
  pub uid : Bytes
  pub expires : ℕ

pub record LogoutRequest : Type 0 where
  pub access_token : Bytes
  pub refresh_token : Bytes

-- What the parts of the service that work on a token are built from; a service without a store has
-- `fenced` off. `validate` is the generated validation of a refresh token, `validate_logout` of the
-- two tokens of a logout.
pub record Renewer (T : TokenStore) : Type 0 where
  pub externals : Externals
  pub db : Db
  pub token_expire_seconds : ℕ
  pub fenced : Bool
  pub validate : Bytes → Option ℕ
  pub validate_logout : LogoutRequest → Option ℕ

-- The window of a revocation, from the claims or a default.
abbrev pub window : Option ℕ → ℕ → ℕ
window none default = default
window (some e) default = e

-- As `window`, where an expiry that is not after now counts as none.
unfoldable pub future_window : Option ℕ → ℕ → ℕ → ℕ
future_window none now default = default
future_window (some e) now default = if ltb now e then e else default

module _ {T : TokenStore} (r : Renewer T) where
  abbrev pub Replied : Type 0 → Type 0
  Replied A = Result AuthError A × T.State

  -- The pair of tokens for the fresh row of the user.
  unfoldable pub mint : Fresh → User → Result AuthError RefreshResponse
  mint fresh u =
      let lifetime = ttl r.token_expire_seconds in
      elim (create_token r.externals (
        new_claims u.uid u.role_key u.tenant_id token_type_refresh refresh_token_ttl
          fresh.refresh_id fresh.now)) [
            | err e ↦ err e
            | ok refresh ↦
                elim (create_token r.externals (
                  new_claims u.uid u.role_key u.tenant_id token_type_access lifetime fresh.access_id
                    fresh.now)) [
                      | err e ↦ err e
                      | ok access ↦ ok (record {
                        access_token = access;
                        refresh_token = refresh;
                        uid = u.uid;
                        expires = lifetime;
                      })
                    ]
          ]

  -- The claim of the old jti, before anything is minted. A token without a jti skips it.
  unfoldable pub rotate : T.State → Fresh → Claims → User → Replied RefreshResponse
  rotate t fresh c u =
      if r.fenced && not (c.jti =ᵇ [])
      then elim (T.revoke_if_not_revoked t c.jti
          (window c.expires_at (fresh.now + refresh_token_ttl)) fresh.now) [
            | err e ↦ (err (AuthError.store_error e), t)
            | ok (won, left) ↦
                if won then (mint fresh u, left) else (err AuthError.access_denied, left)
          ]
      else (mint fresh u, t)

  -- The row of the role, there and not disabled.
  unfoldable pub live_role : User → Result AuthError User
  live_role u = elim (role_of r.db u.role_key u.tenant_id) [
    | err e ↦ err e
    | ok found ↦ elim found [
      | none ↦ err AuthError.access_denied
      | some role ↦ if role.status =ᵇ disabled then err AuthError.role_disabled else ok u
    ]
  ]

  -- The row of the user, there and not disabled, and that of its role.
  unfoldable pub live_user : Claims → Result AuthError User
  live_user c = elim (user_of r.db c.uid c.tenant_id) [
    | err e ↦ err e
    | ok found ↦ elim found [
      | none ↦ err AuthError.access_denied
      | some u ↦ if u.status =ᵇ disabled then err AuthError.user_disabled else live_role u
    ]
  ]

  -- The checks before the claim: the token parses, is a refresh token, and its user is live.
  unfoldable pub admitted : Bytes → ℕ → Result AuthError (Claims × User)
  admitted raw now = elim (r.validate raw) [
    | some e ↦ err (AuthError.request_error e)
    | none ↦ elim (r.externals.parse raw now) [
      | err e ↦ err (AuthError.token_error e)
      | ok c ↦
          if not (c.token_type =ᵇ token_type_refresh)
          then err AuthError.access_denied
          else elim (live_user c) [ err e ↦ err e | ok u ↦ ok (c, u) ]
    ]
  ]

  unfoldable pub refresh_token : T.State → Fresh → Bytes → Replied RefreshResponse
  refresh_token t fresh raw = elim (admitted raw fresh.now) [
    | err e ↦ (err e, t)
    | ok (c, u) ↦ rotate t fresh c u
  ]

  -- `revokeToken`: the uid of the token, empty where it does not parse.
  unfoldable pub revoke_token : T.State → ℕ → Bytes → Replied Bytes
  revoke_token t now raw = elim (r.externals.parse raw now) [
    | err e ↦ (ok [], t)
    | ok c ↦
        if (c.jti =ᵇ []) || not r.fenced
        then (ok c.uid, t)
        else elim (T.revoke t c.jti
            (future_window c.expires_at now (now + ttl r.token_expire_seconds)) now) [
              | err e ↦ (err (AuthError.store_error e), t)
              | ok left ↦ (ok c.uid, left)
            ]
  ]

  -- The revocation of one field of the request, where it is given.
  unfoldable pub revoke_given : T.State → ℕ → Bytes → Replied Bytes
  revoke_given t now raw = if raw =ᵇ [] then (ok [], t) else revoke_token t now raw

  -- The refresh token after the access token, whose uid is the answer.
  unfoldable pub revoke_second : ℕ → Bytes → Replied Bytes → Replied Bytes
  revoke_second now raw (first_reply, t) = elim first_reply [
    | err e ↦ (err e, t)
    | ok uid ↦
        let (second_reply, left) = revoke_given t now raw in
        elim second_reply [ err e ↦ (err e, left) | ok _ ↦ (ok uid, left) ]
  ]

  unfoldable pub logout : T.State → ℕ → LogoutRequest → Replied Bytes
  logout t now req = elim (r.validate_logout req) [
    | some e ↦ (err (AuthError.request_error e), t)
    | none ↦
        if (req.access_token =ᵇ []) && (req.refresh_token =ᵇ [])
        then (err AuthError.token_required, t)
        else revoke_second now req.refresh_token (revoke_given t now req.access_token)
  ]

  -- The verdict of the store on a jti. An outage counts as revoked.
  unfoldable pub denylisted : T.State → Bytes → ℕ → Option AuthError × T.State
  denylisted t jti now = elim (T.revoked t jti now) [
    | err e ↦ (some AuthError.access_denied, t)
    | ok (b, left) ↦ (if b then some AuthError.access_denied else none, left)
  ]

  -- `(*RevocationValidator).Validate`: none, or the error.
  unfoldable pub validate_token : T.State → ℕ → Bytes → Option AuthError × T.State
  validate_token t now raw =
      if not r.fenced || (raw =ᵇ []) then (none, t) else elim (r.externals.parse_unchecked raw) [
        | none ↦ (none, t)
        | some c ↦
            if c.token_type =ᵇ token_type_refresh
            then (some AuthError.access_denied, t)
            else if c.jti =ᵇ []
            then (none, t)
            else denylisted t c.jti now
      ]
