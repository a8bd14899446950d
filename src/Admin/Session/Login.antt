-- ===== src/Admin/Session/Login.antt =====
-- `Login`, `resolveTenant` and `recordLogin` of admin/service/auth.go. The address and the user agent
-- of the log entry come from the request's metadata and are left out.
use aeus.Common.{
  ℕ, Bytes, Bool, true, false, not, List, [], ◌∷◌, if◌then◌else◌, ◌=ᵇ◌, Option, none, some, Result,
  ok, err,
}
use aeus.Admin.Session.Model.{
  token_type_access, token_type_refresh, disabled, User, Tenant, Query, Db, AuthError, Externals,
  first, find_candidates, role_of, validate_password, refresh_token_ttl, ttl, new_claims,
  create_token,
}

pub record LoginRequest : Type 0 where
  pub username : Bytes
  pub password : Bytes

pub record LoginResponse : Type 0 where
  pub access_token : Bytes
  pub refresh_token : Bytes
  pub uid : Bytes
  pub username : Bytes
  pub expires : ℕ
  pub tenant_id : Bytes
  pub tenant_name : Bytes

-- `LoginLogInfo`.
pub record LogEntry : Type 0 where
  pub success : Bool
  pub uid : Bytes
  pub tenant_id : Bytes
  pub username : Bytes
  pub access_token : Bytes

-- The service, with the generated request validation and the BeforeLogin hook (a nil hook is one
-- that gives no error).
pub record Service : Type 0 where
  pub externals : Externals
  pub db : Db
  pub token_expire_seconds : ℕ
  pub validate : LoginRequest → Option ℕ
  pub before_login : LoginRequest → Option ℕ

-- What a login returns, and what it hands to LoginLogFunc.
pub record Outcome : Type 0 where
  pub response : Result AuthError LoginResponse
  pub log : List LogEntry

-- The clock and the two values of `uuid.NewString()` of one call.
pub record Fresh : Type 0 where
  pub now : ℕ
  pub access_id : Bytes
  pub refresh_id : Bytes

-- `recordLogin`.
unfoldable pub record_login : LoginRequest → Bool → Option User → Bytes → LogEntry
record_login req success none token = record {
  success = success;
  uid = [];
  tenant_id = [];
  username = req.username;
  access_token = token;
}
record_login req success (some u) token = record {
  success = success;
  uid = u.uid;
  tenant_id = u.tenant_id;
  username = req.username;
  access_token = token;
}

abbrev pub refused : LoginRequest → AuthError → Option User → Outcome
refused req e who = record { response = err e; log = record_login req false who [] ∷ [] }

abbrev pub unlogged : AuthError → Outcome
unlogged e = record { response = err e; log = [] }

abbrev pub tenant_display : Bytes → Option Tenant → Bytes × Bytes
tenant_display tenant_id none = (tenant_id, [])
tenant_display tenant_id (some row) =
    if row.name =ᵇ [] then (tenant_id, []) else (row.name, row.status)

-- `resolveTenant`: the name to show and the status.
unfoldable pub resolve_tenant : Db → Bytes → Bytes × Bytes
resolve_tenant db tenant_id =
    if tenant_id =ᵇ []
    then (tenant_id, [])
    else if not db.has_tenants
    then (tenant_id, [])
    else elim (db.failure Query.scan_tenant) [
      | some _ ↦ (tenant_id, [])
      | none ↦ tenant_display tenant_id (first (λ t. t.id =ᵇ tenant_id) db.tenants)
    ]

module _ (s : Service) (fresh : Fresh) (req : LoginRequest) where
  -- The tokens and the response, after all gates.
  unfoldable pub issue : User → Bytes → Outcome
  issue u tenant_name =
      let lifetime = ttl s.token_expire_seconds in
      elim (create_token s.externals (
        new_claims u.uid u.role_key u.tenant_id token_type_access lifetime fresh.access_id
          fresh.now)) [
            | err e ↦ unlogged e
            | ok access ↦
                elim (create_token s.externals (
                  new_claims u.uid u.role_key u.tenant_id token_type_refresh refresh_token_ttl
                    fresh.refresh_id fresh.now)) [
                      | err e ↦ unlogged e
                      | ok refresh ↦ record {
                        response = ok (record {
                          access_token = access;
                          refresh_token = refresh;
                          uid = u.uid;
                          username = u.username;
                          expires = lifetime;
                          tenant_id = u.tenant_id;
                          tenant_name = tenant_name;
                        });
                        log = record_login req true (some u) access ∷ [];
                      }
                    ]
          ]

  unfoldable pub tenant_gate : User → Outcome
  tenant_gate u =
      let tenant = resolve_tenant s.db u.tenant_id in
      if tenant.1 =ᵇ disabled
      then refused req AuthError.tenant_disabled (some u)
      else issue u tenant.0

  unfoldable pub role_gate : User → Outcome
  role_gate u = elim (role_of s.db u.role_key u.tenant_id) [
    | err e ↦ unlogged e
    | ok found ↦ elim found [
      | none ↦ refused req AuthError.role_not_found (some u)
      | some r ↦
          if r.status =ᵇ disabled
          then refused req AuthError.role_disabled (some u)
          else tenant_gate u
    ]
  ]

  unfoldable pub credentials : List User → Outcome
  credentials [] = refused req AuthError.invalid_password none
  credentials (u ∷ v ∷ more) = refused req AuthError.invalid_password none
  credentials (u ∷ []) =
      if not (validate_password s.externals u req.password)
      then refused req AuthError.invalid_password (some u)
      else if u.status =ᵇ disabled
      then refused req AuthError.user_disabled (some u)
      else role_gate u

  unfoldable pub login : Outcome
  login = elim (s.validate req) [
    | some e ↦ refused req (AuthError.request_error e) none
    | none ↦ elim (s.before_login req) [
      | some e ↦ refused req (AuthError.hook_error e) none
      | none ↦ elim (find_candidates s.db req.username) [
        | err e ↦ refused req e none
        | ok candidates ↦ credentials candidates
      ]
    ]
  ]
