-- ===== src/Admin/Session/Model.antt =====
-- The data of admin/service/auth.go: claims, rows, and what the service is built from. Instants and
-- lifetimes are in seconds, the precision of a JWT. A table is the list of its live rows in key
-- order, so `First` is the first match; a query fails where `failure` says so.
use aeus.Common.{
  ℕ, ◌*◌, ◌+◌, ◌<◌, Bytes, codes, Bool, false, ◌&&◌, ◌||◌, List, [], ◌∷◌, ltb, if◌then◌else◌, ◌=ᵇ◌,
  Option, none, some, Result, ok, err, take, ◌≡◌,
}

-- `auth.Claims`; `jti` is RegisteredClaims.ID, and an instant that is not set is `none`.
pub record Claims : Type 0 where
  pub uid : Bytes
  pub role : Bytes
  pub tenant_id : Bytes
  pub token_type : Bytes
  pub jti : Bytes
  pub expires_at : Option ℕ
  pub issued_at : ℕ
  pub not_before : ℕ

abbrev pub token_type_access : Bytes
token_type_access = codes "access"

abbrev pub token_type_refresh : Bytes
token_type_refresh = codes "refresh"

abbrev pub disabled : Bytes
disabled = codes "disabled"

-- The columns of models.User, models.Role and sys_tenants that the service reads.
pub record User : Type 0 where
  pub uid : Bytes
  pub username : Bytes
  pub password : Bytes
  pub role_key : Bytes
  pub tenant_id : Bytes
  pub status : Bytes

pub record Role : Type 0 where
  pub key : Bytes
  pub tenant_id : Bytes
  pub status : Bytes

pub record Tenant : Type 0 where
  pub id : Bytes
  pub name : Bytes
  pub status : Bytes

pub data Query : Type 0 where
  find_users first_user first_role scan_tenant : Query

pub record Db : Type 0 where
  pub users : List User
  pub roles : List Role
  pub tenants : List Tenant
  pub has_tenants : Bool
  pub failure : Query → Option ℕ

-- The errors that the service returns. A number stands for an error that it passes on.
pub data AuthError : Type 0 where
  request_error hook_error db_error token_error store_error : ℕ → AuthError
  invalid_password user_disabled role_disabled role_not_found tenant_disabled : AuthError
  access_denied token_required : AuthError

-- What golang-jwt does for the service: signing with the secret, parsing with all checks at an
-- instant (ParseWithClaims with `keyfunc`), and parsing without the checks of the claims, as the
-- validator does; with bcrypt, and the validation of requests that protoc generates.
pub record Externals : Type 0 where
  pub sign : Claims → Result ℕ Bytes
  pub parse : Bytes → ℕ → Result ℕ Claims
  pub parse_unchecked : Bytes → Option Claims
  pub compare_hash : Bytes → Bytes → Bool

-- The documented behaviour of the parsers that the service relies on: a token past its expiry is
-- refused, and parsing without the checks gives the claims that parsing with them gave.
pub record ParsesSoundly (x : Externals) : Type 0 where
  pub unexpired :
      (raw : Bytes) (now : ℕ) (c : Claims) (e : ℕ)
      → x.parse raw now ≡ ok c
      → c.expires_at ≡ some e
      → now < e
  pub same_claims :
      (raw : Bytes) (now : ℕ) (c : Claims) → x.parse raw now ≡ ok c → x.parse_unchecked raw ≡ some c

-- `First(&row)`: the first match.
unfoldable pub first {ℓ} : {A : Type ℓ} → (A → Bool) → List A → Option A
first p [] = none
first p (row ∷ rows) = if p row then some row else first p rows

unfoldable pub where_rows {ℓ} : {A : Type ℓ} → (A → Bool) → List A → List A
where_rows p [] = []
where_rows p (row ∷ rows) = if p row then row ∷ where_rows p rows else where_rows p rows

-- A query that may fail.
abbrev pub run_query {ℓ} : {A : Type ℓ} → Db → Query → A → Result AuthError A
run_query db q rows = elim (db.failure q) [ none ↦ ok rows | some e ↦ err (db_error e) ]

-- `Where("uid = ? OR username = ?", name, name).Limit(2).Find(&candidates)`.
unfoldable pub find_candidates : Db → Bytes → Result AuthError (List User)
find_candidates db name =
    run_query db find_users
      (take 2 (where_rows (λ u. (u.uid =ᵇ name) || (u.username =ᵇ name)) db.users))

-- `Where("key = ? AND tenant_id = ?", key, tenant).First(&role)`.
unfoldable pub role_of : Db → Bytes → Bytes → Result AuthError (Option Role)
role_of db key tenant_id =
    run_query db first_role (first (λ r. (r.key =ᵇ key) && (r.tenant_id =ᵇ tenant_id)) db.roles)

-- `Where("uid = ? AND tenant_id = ?", uid, tenant).First(&user)`.
unfoldable pub user_of : Db → Bytes → Bytes → Result AuthError (Option User)
user_of db uid tenant_id =
    run_query db first_user (first (λ u. (u.uid =ᵇ uid) && (u.tenant_id =ᵇ tenant_id)) db.users)

-- `(*User).ValidatePassword` of admin/models/user.go.
unfoldable pub validate_password : Externals → User → Bytes → Bool
validate_password x u pwd =
    if (u.password =ᵇ []) || (pwd =ᵇ []) then false else x.compare_hash u.password pwd

abbrev pub default_token_expire_seconds : ℕ
default_token_expire_seconds = 2 * 60 * 60

abbrev pub refresh_token_ttl : ℕ
refresh_token_ttl = 48 * 60 * 60

-- `(*AuthService).ttl`; a setting that is not positive is 0 here.
unfoldable pub ttl : ℕ → ℕ
ttl token_expire_seconds =
    if ltb 0 token_expire_seconds then token_expire_seconds else default_token_expire_seconds

-- The claims that `createToken` signs, with `uuid.NewString()` and `time.Now()` as arguments.
unfoldable pub new_claims : Bytes → Bytes → Bytes → Bytes → ℕ → Bytes → ℕ → Claims
new_claims userid role tenant_id token_type ttl_seconds uuid now = record {
  uid = userid;
  role = role;
  tenant_id = tenant_id;
  token_type = token_type;
  jti = uuid;
  expires_at = some (now + ttl_seconds);
  issued_at = now;
  not_before = now;
}

-- `createToken`.
unfoldable pub create_token : Externals → Claims → Result AuthError Bytes
create_token x c = elim (x.sign c) [ ok raw ↦ ok raw | err e ↦ err (token_error e) ]
