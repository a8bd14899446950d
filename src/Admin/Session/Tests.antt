-- ===== src/Admin/Session/Tests.antt =====
-- A service with one user at concrete inputs.
use aeus.Common.{
  ℕ, ◌<◌, Bytes, codes, true, false, [], ◌∷◌, ltb, if◌then◌else◌, ◌=ᵇ◌, ne_of_test, Option, none,
  some, Result, ok, err, ◌≡◌, ◌≢◌, refl, ap, ◌∙◌, inl, inr, arith, Option-cases,
}
use aeus.Common.Dict.{lookup, insert, remove, keep}
use aeus.Tokens.Store.{Store, make_room, sweep, record_revocation, revoke, revoke_if_not_revoked}
use aeus.Tokens.Interface.{memory_token_store}
use aeus.Admin.Session.Model.{
  Claims, token_type_access, token_type_refresh, User, first_role, Db, AuthError, Externals,
  ParsesSoundly, first, where_rows, find_candidates, role_of, user_of, validate_password, ttl,
  new_claims, create_token,
}
use aeus.Admin.Session.Login.{
  LoginRequest, LoginResponse, Service, Fresh, record_login, resolve_tenant, issue, tenant_gate,
  role_gate, credentials, login,
}
use aeus.Admin.Session.Gates.{LoggedIn, login-LoggedIn}
use aeus.Admin.Session.Audit.{Audited, login-Audited}
use aeus.Admin.Session.Renew.{
  RefreshResponse, Renewer, mint, rotate, live_role, live_user, admitted, refresh_token,
  future_window, revoke_token, revoke_given, revoke_second, logout, validate_token,
}
use aeus.Admin.Session.Rotation.{Renewed, refresh_token-once, refresh_token-Renewed}
use aeus.Admin.Session.Logout.{access_only, logout-denies}
use aeus.Admin.Session.Guard.{jwt-after_logout}
use aeus.Auth.Jwt.{
  JwtOptions, JwtRequest, token, failure, stop, invalid, listed, token_of, cut_prefix, trim_front,
  trim_reversed, trim_space, jwt,
}
use aeus.Common.{has_prefix, byte_is}
use aeus.Auth.Allow.{is_allowed}

abbrev ann : User
ann = record {
  uid = codes "u1";
  username = codes "ann";
  password = codes "hash";
  role_key = codes "ops";
  tenant_id = [];
  status = [];
}

-- The tokens are "a" and "r", for the one user, good up to instant 1000.
abbrev ann_claims : Bytes → Bytes → Claims
ann_claims token_type jti = record {
  uid = codes "u1";
  role = codes "ops";
  tenant_id = [];
  token_type = token_type;
  jti = jti;
  expires_at = some 1000;
  issued_at = 100;
  not_before = 100;
}

claims_of : Bytes → Option Claims
claims_of raw =
    if raw =ᵇ codes "a"
    then some (ann_claims token_type_access (codes "ja"))
    else if raw =ᵇ codes "r"
    then some (ann_claims token_type_refresh (codes "jr"))
    else none

parse_before : Bytes → ℕ → Result ℕ Claims
parse_before raw now =
    if ltb now 1000 then elim (claims_of raw) [ none ↦ err 1 | some c ↦ ok c ] else err 2

abbrev parts : Externals
parts = record {
  sign = λ c. if c.token_type =ᵇ token_type_access then ok (codes "a") else ok (codes "r");
  parse = parse_before;
  parse_unchecked = claims_of;
  compare_hash = λ hash pwd. pwd =ᵇ codes "secret";
}

abbrev tables : Db
tables = record {
  users = ann ∷ [];
  roles = record { key = codes "ops"; tenant_id = []; status = [] } ∷ [];
  tenants = [];
  has_tenants = false;
  failure = λ q. none;
}

abbrev service : Service
service = record {
  externals = parts;
  db = tables;
  token_expire_seconds = 0;
  validate = λ req. none;
  before_login = λ req. none;
}

abbrev at_100 : Fresh
at_100 = record { now = 100; access_id = codes "x"; refresh_id = codes "y" }

abbrev by_name : Bytes → LoginRequest
by_name password = record { username = codes "ann"; password = password }

abbrev answer : LoginResponse
answer = record {
  access_token = codes "a";
  refresh_token = codes "r";
  uid = codes "u1";
  username = codes "ann";
  expires = 7200;
  tenant_id = [];
  tenant_name = [];
}

login-LoggedIn_example : LoggedIn service at_100 (by_name (codes "secret")) answer
unfolding login credentials role_gate tenant_gate issue resolve_tenant find_candidates role_of
    where_rows first validate_password create_token ttl new_claims record_login ◌=ᵇ◌
login-LoggedIn_example = login-LoggedIn service at_100 (by_name (codes "secret")) answer refl

login-Audited_example :
    Audited (by_name (codes "guess")) (login service at_100 (by_name (codes "guess")))
login-Audited_example = login-Audited service at_100 (by_name (codes "guess"))

-- The same tables where the query for the role fails.
abbrev no_roles : Db
no_roles = record {
  users = ann ∷ [];
  roles = [];
  tenants = [];
  has_tenants = false;
  failure = λ q. elim q [ first_role ↦ some 7 | _ ↦ none ];
}

abbrev without_roles : Service
without_roles = record {
  externals = parts;
  db = no_roles;
  token_expire_seconds = 0;
  validate = λ req. none;
  before_login = λ req. none;
}

parse_before-eq-ok :
    (raw : Bytes) (now : ℕ) (c : Claims)
    → parse_before raw now ≡ ok c
    → (now < 1000) × (claims_of raw ≡ some c)
unfolding parse_before
parse_before-eq-ok raw now c h = elim (Option-cases (claims_of raw)) [
  | inl p ↦ absurd (unknown p)
  | inr (d, p) ↦ (early d p, p ∙ ap some (ground (arith, p, h)))
]
  where
    unknown : claims_of raw ≡ none → ⊥
    unknown p = ground (arith, p, h)

    early : (d : Claims) → claims_of raw ≡ some d → now < 1000
    early d p = ground (arith, p, h)

claims_of-expires : (raw : Bytes) (c : Claims) → claims_of raw ≡ some c → c.expires_at ≡ some 1000
unfolding claims_of
claims_of-expires raw c h = ground (arith, h)

parts-ParsesSoundly : ParsesSoundly parts
parts-ParsesSoundly = record {
  unexpired = λ raw now c e p x.
      let (early, known) = parse_before-eq-ok raw now c p in
      let expires = claims_of-expires raw c known in ground (arith, early, expires, x);
  same_claims = λ raw now c p. (parse_before-eq-ok raw now c p).1;
}

-- The part that renews, over an empty denylist.
abbrev renewer : Renewer memory_token_store
renewer = record {
  externals = parts;
  db = tables;
  token_expire_seconds = 0;
  fenced = true;
  validate = λ raw. none;
  validate_logout = λ req. none;
}

abbrev nothing_revoked : Store
nothing_revoked = record { capacity = 4; revoked = [] }

abbrev one_revoked : Bytes → Store
one_revoked jti = record { capacity = 4; revoked = (jti, 1000) ∷ [] }

abbrev renewed : RefreshResponse
renewed = record {
  access_token = codes "a";
  refresh_token = codes "r";
  uid = codes "u1";
  expires = 7200;
}

abbrev at_200 : Fresh
at_200 = record { now = 200; access_id = codes "z"; refresh_id = codes "w" }

renews :
    refresh_token renewer nothing_revoked at_100 (codes "r")
    ≡ (ok renewed, one_revoked (codes "jr"))
unfolding refresh_token admitted live_user live_role user_of role_of first rotate mint create_token
    ttl new_claims parse_before claims_of ◌=ᵇ◌ revoke_if_not_revoked record_revocation make_room
    sweep insert remove keep lookup
renews = refl

refresh_token-once_example :
    refresh_token renewer (one_revoked (codes "jr")) at_200 (codes "r")
    ≢ (ok renewed, one_revoked (codes "jr"))
unfolding claims_of ◌=ᵇ◌
refresh_token-once_example =
    refresh_token-once renewer parts-ParsesSoundly nothing_revoked (one_revoked (codes "jr"))
      (one_revoked (codes "jr")) at_100 at_200 (codes "r")
      (ann_claims token_type_refresh (codes "jr")) 1000 renewed renewed refl refl
      (ne_of_test _ _ refl) refl renews

refresh_token-Renewed_example : Renewed renewer (codes "r") at_100 renewed
refresh_token-Renewed_example =
    refresh_token-Renewed renewer nothing_revoked (one_revoked (codes "jr")) at_100 (codes "r")
      renewed renews

logs_out :
    logout renewer nothing_revoked 100 (access_only (codes "a"))
    ≡ (ok (codes "u1"), one_revoked (codes "ja"))
unfolding logout revoke_second revoke_given revoke_token future_window parse_before claims_of ◌=ᵇ◌
    revoke record_revocation make_room sweep insert remove keep lookup
logs_out = refl

logout-denies_example :
    (validate_token renewer (one_revoked (codes "ja")) 900 (codes "a")).0
    ≡ some AuthError.access_denied
unfolding parse_before claims_of ◌=ᵇ◌
logout-denies_example =
    logout-denies renewer parts-ParsesSoundly nothing_revoked (one_revoked (codes "ja")) 100 900
      (codes "a") (codes "u1") (ann_claims token_type_access (codes "ja")) 1000 refl
      (ne_of_test _ _ refl) refl (ne_of_test _ _ refl) refl (omega arith) logs_out

-- The middleware with the validator of the service, at instant 900.
abbrev options : JwtOptions Claims AuthError ℕ Store
options = record {
  allows = codes "/auth/*" ∷ [];
  parse_claims = none;
  parse_map = λ raw. elim (claims_of raw) [
    | none ↦
        failure false (record {
          malformed = true;
          unverifiable = false;
          not_valid_yet = false;
          expired = false;
        })
    | some c ↦ token c true
  ];
  validate = some (λ s raw. validate_token renewer s 900 raw);
  permission_checker = none;
}

abbrev with_token_a : JwtRequest
with_token_a = record { path = some (codes "/users"); authorization = some (codes "Bearer a") }

jwt-after_logout_example :
    (jwt options (one_revoked (codes "ja")) with_token_a).0 ≡ stop (invalid AuthError.access_denied)
unfolding parse_before claims_of listed is_allowed token_of cut_prefix trim_space trim_front
    trim_reversed has_prefix byte_is ◌=ᵇ◌
jwt-after_logout_example =
    jwt-after_logout renewer options parts-ParsesSoundly nothing_revoked (one_revoked (codes "ja"))
      100 900 (codes "a") (codes "u1") (codes "Bearer a")
      (ann_claims token_type_access (codes "ja")) 1000 with_token_a refl (ne_of_test _ _ refl) refl
      (ne_of_test _ _ refl) refl (omega arith) logs_out refl refl refl refl
