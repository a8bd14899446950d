-- ===== src/Admin/Session/Gates.antt =====
-- What a login of admin/service/auth.go has established when it succeeds, and what it logs.
use aeus.Common.{
  Bytes, true, false, ◌||◌, List, [], ◌∷◌, ◌=ᵇ◌, Option, none, some, ok, err, ◌≡◌, refl, ap, ◌∙◌,
  inl, inr, arith, Bool-cases, Option-cases, Result-cases, take,
}
use aeus.Admin.Session.Model.{
  Claims, token_type_access, token_type_refresh, disabled, User, Role, AuthError, Externals,
  where_rows, find_candidates, role_of, validate_password, refresh_token_ttl, ttl, new_claims,
  create_token,
}
use aeus.Admin.Session.Login.{
  LoginRequest, LoginResponse, Service, Fresh, resolve_tenant, issue, tenant_gate, role_gate,
  credentials, login,
}
use aeus.Admin.Session.TenantStatus.{TenantOpen, resolve_tenant-TenantOpen}

pub create_token-eq-ok :
    (x : Externals) (c : Claims) {raw : Bytes} → create_token x c ≡ ok raw → x.sign c ≡ ok raw
unfolding create_token
create_token-eq-ok x c h = ground (arith, h)

module _ (s : Service) (fresh : Fresh) (req : LoginRequest) where
  abbrev pub access_claims : User → Claims
  access_claims u =
      new_claims u.uid u.role_key u.tenant_id token_type_access (ttl s.token_expire_seconds)
        fresh.access_id fresh.now

  abbrev pub refresh_claims : User → Claims
  refresh_claims u =
      new_claims u.uid u.role_key u.tenant_id token_type_refresh refresh_token_ttl fresh.refresh_id
        fresh.now

  -- The tokens of a response stand for the user, and so does the rest of it.
  pub record Issued (u : User) (res : LoginResponse) : Type 0 where
    pub access : s.externals.sign (access_claims u) ≡ ok res.access_token
    pub refresh : s.externals.sign (refresh_claims u) ≡ ok res.refresh_token
    pub uid : res.uid ≡ u.uid
    pub tenant : res.tenant_id ≡ u.tenant_id
    pub lifetime : res.expires ≡ ttl s.token_expire_seconds

  issue-Issued :
      (u : User) (name : Bytes) {res : LoginResponse}
      → (issue s fresh req u name).response ≡ ok res
      → Issued u res
  unfolding issue
  issue-Issued u name {res} h = elim (Result-cases (create_token s.externals (access_claims u))) [
    | inl (e, p) ↦ absurd (failed_access e p)
    | inr (access, p) ↦ elim (Result-cases (create_token s.externals (refresh_claims u))) [
      | inl (e, q) ↦ absurd (failed_refresh access e p q)
      | inr (refresh, q) ↦ record {
        access =
            create_token-eq-ok s.externals (access_claims u) (p ∙ ap ok (ground (arith, h, p, q)));
        refresh =
            create_token-eq-ok s.externals (refresh_claims u) (q ∙ ap ok (ground (arith, h, p, q)));
        uid = ground (arith, h, p, q);
        tenant = ground (arith, h, p, q);
        lifetime = ground (arith, h, p, q);
      }
    ]
  ]
    where
      failed_access : (e : AuthError) → create_token s.externals (access_claims u) ≡ err e → ⊥
      failed_access e p = ground (arith, h, p)

      failed_refresh :
          (access : Bytes) (e : AuthError)
          → create_token s.externals (access_claims u) ≡ ok access
          → create_token s.externals (refresh_claims u) ≡ err e
          → ⊥
      failed_refresh access e p q = ground (arith, h, p, q)

  -- The role of the user exists and is enabled, and the tenant is open.
  pub record Enabled (u : User) : Type 0 where
    pub role : Role
    pub role_found : role_of s.db u.role_key u.tenant_id ≡ ok (some role)
    pub role_enabled : (role.status =ᵇ disabled) ≡ false
    pub tenant_open : TenantOpen s.db u.tenant_id

  tenant_gate-eq-ok :
      (u : User) {res : LoginResponse}
      → (tenant_gate s fresh req u).response ≡ ok res
      → TenantOpen s.db u.tenant_id × Issued u res
  unfolding tenant_gate
  tenant_gate-eq-ok u {res} h =
      elim (Bool-cases ((resolve_tenant s.db u.tenant_id).1 =ᵇ disabled)) [
        | inl e ↦ absurd (stopped e)
        | inr e ↦ (
          resolve_tenant-TenantOpen s.db u.tenant_id e,
          issue-Issued u (resolve_tenant s.db u.tenant_id).0 (passed e),
        )
      ]
    where
      stopped : ((resolve_tenant s.db u.tenant_id).1 =ᵇ disabled) ≡ true → ⊥
      stopped e = ground (arith, h, e)

      passed :
          ((resolve_tenant s.db u.tenant_id).1 =ᵇ disabled) ≡ false
          → (issue s fresh req u (resolve_tenant s.db u.tenant_id).0).response ≡ ok res
      passed e = ground (arith, h, e)

  role_gate-eq-ok :
      (u : User) {res : LoginResponse}
      → (role_gate s fresh req u).response ≡ ok res
      → Enabled u × Issued u res
  unfolding role_gate
  role_gate-eq-ok u {res} h = elim (Result-cases (role_of s.db u.role_key u.tenant_id)) [
    | inl (e, p) ↦ absurd (failed e p)
    | inr (found, p) ↦ elim (Option-cases found) [
      | inl n ↦ absurd (missing found p n)
      | inr (r, m) ↦ elim (Bool-cases (r.status =ᵇ disabled)) [
        | inl d ↦ absurd (stopped found r p m d)
        | inr d ↦
            let (t, i) = tenant_gate-eq-ok u (passed found r p m d) in
            (record { role = r; role_found = p ∙ ap ok m; role_enabled = d; tenant_open = t }, i)
      ]
    ]
  ]
    where
      failed : (e : AuthError) → role_of s.db u.role_key u.tenant_id ≡ err e → ⊥
      failed e p = ground (arith, h, p)

      missing :
          (found : Option Role) → role_of s.db u.role_key u.tenant_id ≡ ok found → found ≡ none → ⊥
      missing found p n = ground (arith, h, p, n)

      stopped :
          (found : Option Role) (r : Role)
          → role_of s.db u.role_key u.tenant_id ≡ ok found
          → found ≡ some r
          → (r.status =ᵇ disabled) ≡ true
          → ⊥
      stopped found r p m d = ground (arith, h, p, m, d)

      passed :
          (found : Option Role) (r : Role)
          → role_of s.db u.role_key u.tenant_id ≡ ok found
          → found ≡ some r
          → (r.status =ᵇ disabled) ≡ false
          → (tenant_gate s fresh req u).response ≡ ok res
      passed found r p m d = ground (arith, h, p, m, d)

  -- What a successful login has established.
  pub record LoggedIn (res : LoginResponse) : Type 0 where
    pub user : User
    pub only_user :
        where_rows (λ u. (u.uid =ᵇ req.username) || (u.username =ᵇ req.username)) s.db.users
        ≡ user ∷ []
    pub password : validate_password s.externals user req.password ≡ true
    pub user_enabled : (user.status =ᵇ disabled) ≡ false
    pub enabled : Enabled user
    pub issued : Issued user res

  credentials-eq-ok :
      (us : List User) {res : LoginResponse}
      → (credentials s fresh req us).response ≡ ok res
      → (u : User) × (us ≡ u ∷ [])
        × (validate_password s.externals u req.password ≡ true)
        × ((u.status =ᵇ disabled) ≡ false)
        × Enabled u
        × Issued u res
  unfolding credentials
  credentials-eq-ok [] h = cc
  credentials-eq-ok (u ∷ v ∷ us) h = cc
  credentials-eq-ok (u ∷ []) {res} h =
      let (e, i) = role_gate-eq-ok u passed in (u, refl, ground (arith, h), ground (arith, h), e, i)
    where
      passed : (role_gate s fresh req u).response ≡ ok res
      passed = ground (arith, h)

  take_two : (xs : List User) (u : User) → take 2 xs ≡ u ∷ [] → xs ≡ u ∷ []
  take_two [] u h = cc
  take_two (x ∷ []) u h = h
  take_two (x ∷ y ∷ xs) u h = cc

  candidates_only :
      (us : List User) (u : User)
      → find_candidates s.db req.username ≡ ok us
      → us ≡ u ∷ []
      → where_rows (λ v. (v.uid =ᵇ req.username) || (v.username =ᵇ req.username)) s.db.users
        ≡ u ∷ []
  unfolding find_candidates
  candidates_only us u h e =
      take_two
        (where_rows (λ v. (v.uid =ᵇ req.username) || (v.username =ᵇ req.username)) s.db.users) u
        (ground (arith, h, e))

  -- A login that succeeds has found exactly one row whose uid or username is the one given, with the
  -- password right and the user and the role not disabled; the tenant of the user has a row that is
  -- not disabled, or has none, or one without a name, or the user has no tenant, or the service no
  -- tenants table, or the read of the row failed. The two tokens carry that user's uid, role and
  -- tenant, one as an access and one as a refresh token.
  pub login-LoggedIn : (res : LoginResponse) → (login s fresh req).response ≡ ok res → LoggedIn res
  unfolding login
  login-LoggedIn res h = elim (Result-cases (find_candidates s.db req.username)) [
    | inl (e, p) ↦ absurd (failed e p)
    | inr (us, p) ↦
        let (u, e, w, d, en, i) = credentials-eq-ok us (passed us p) in
        record {
          user = u;
          only_user = candidates_only us u p e;
          password = w;
          user_enabled = d;
          enabled = en;
          issued = i;
        }
  ]
    where
      failed : (e : AuthError) → find_candidates s.db req.username ≡ err e → ⊥
      failed e p = ground (arith, h, p)

      passed :
          (us : List User)
          → find_candidates s.db req.username ≡ ok us
          → (credentials s fresh req us).response ≡ ok res
      passed us p = ground (arith, h, p)
