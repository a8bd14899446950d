-- ===== src/Admin/Session/Audit.antt =====
-- What a login of admin/service/auth.go hands to LoginLogFunc.
use aeus.Common.{
  ℕ, Bytes, true, false, List, [], ◌∷◌, ◌=ᵇ◌, Option, none, some, ok, err, ◌≡◌, refl, ◌⊎◌, inl, inr,
  arith, Bool-cases, Option-cases, Result-cases,
}
use aeus.Admin.Session.Model.{
  ttl, disabled, User, Db, AuthError, db_error, token_error, Externals, find_candidates, first_role,
  role_of, validate_password, create_token, Claims,
}
use aeus.Admin.Session.Gates.{access_claims, refresh_claims}
use aeus.Admin.Session.Login.{
  LoginRequest, LoginResponse, Service, Outcome, Fresh, record_login, refused, resolve_tenant,
  issue, tenant_gate, role_gate, credentials, login,
}

-- A success is logged once, with the uid, the tenant and the access token of the answer and the
-- username of the request, and a refusal once as a failure with
-- no token; only an error of a query or of signing may go unlogged.
pub data Audited (req : LoginRequest) (o : Outcome) : Type 0 where
  success :
      (res : LoginResponse)
      → o.response ≡ ok res
      → o.log
        ≡ record {
          success = true;
          uid = res.uid;
          tenant_id = res.tenant_id;
          username = req.username;
          access_token = res.access_token;
        }
          ∷ []
      → Audited req o
  refusal :
      (e : AuthError) (who : Option User)
      → o.response ≡ err e
      → o.log ≡ record_login req false who [] ∷ []
      → Audited req o
  dropped :
      (n : ℕ)
      → (o.response ≡ err (db_error n)) ⊎ (o.response ≡ err (token_error n))
      → o.log ≡ []
      → Audited req o

create_token-eq-err :
    (x : Externals) (c : Claims) (e : AuthError)
    → create_token x c ≡ err e
    → (n : ℕ) × (e ≡ token_error n)
unfolding create_token
create_token-eq-err x c e h = elim (Result-cases (x.sign c)) [
  | inl (n, p) ↦ (n, ground (arith, h, p))
  | inr (raw, p) ↦ absurd (signed raw p)
]
  where
    signed : (raw : Bytes) → x.sign c ≡ ok raw → ⊥
    signed raw p = ground (arith, h, p)

role_of-eq-err :
    (db : Db) (key tenant_id : Bytes) (e : AuthError)
    → role_of db key tenant_id ≡ err e
    → (n : ℕ) × (e ≡ db_error n)
unfolding role_of
role_of-eq-err db key tenant_id e h = elim (Option-cases (db.failure first_role)) [
  | inl p ↦ absurd (queried p)
  | inr (n, p) ↦ (n, ground (arith, h, p))
]
  where
    queried : db.failure first_role ≡ none → ⊥
    queried p = ground (arith, h, p)

module _ (s : Service) (fresh : Fresh) (req : LoginRequest) where
  refused-Audited : (e : AuthError) (who : Option User) → Audited req (refused req e who)
  refused-Audited e who = refusal e who refl refl

  issue-Audited : (u : User) (name : Bytes) → Audited req (issue s fresh req u name)
  unfolding issue record_login
  issue-Audited u name =
      elim (Result-cases (create_token s.externals (access_claims s fresh req u))) [
        | inl (e, p) ↦
            let (n, q) = create_token-eq-err s.externals (access_claims s fresh req u) e p in
            rw (p, issue, q) (dropped n (inr refl) refl)
        | inr (access, p) ↦
            elim (Result-cases (create_token s.externals (refresh_claims s fresh req u))) [
              | inl (e, r) ↦
                  let (n, q) = create_token-eq-err s.externals (refresh_claims s fresh req u) e r in
                  rw (p, r, issue, q) (dropped n (inr refl) refl)
              | inr (refresh, r) ↦
                  rw (p, r, issue)
                    (success
                      (record {
                        access_token = access;
                        refresh_token = refresh;
                        uid = u.uid;
                        username = u.username;
                        expires = ttl s.token_expire_seconds;
                        tenant_id = u.tenant_id;
                        tenant_name = name;
                      })
                      refl refl)
            ]
      ]

  tenant_gate-Audited : (u : User) → Audited req (tenant_gate s fresh req u)
  unfolding tenant_gate
  tenant_gate-Audited u = elim (Bool-cases ((resolve_tenant s.db u.tenant_id).1 =ᵇ disabled)) [
    | inl e ↦ rw (e, tenant_gate) (refused-Audited AuthError.tenant_disabled (some u))
    | inr e ↦ rw (e, tenant_gate) (issue-Audited u (resolve_tenant s.db u.tenant_id).0)
  ]

  role_gate-Audited : (u : User) → Audited req (role_gate s fresh req u)
  unfolding role_gate
  role_gate-Audited u = elim (Result-cases (role_of s.db u.role_key u.tenant_id)) [
    | inl (e, p) ↦
        let (n, q) = role_of-eq-err s.db u.role_key u.tenant_id e p in
        rw (p, role_gate, q) (dropped n (inl refl) refl)
    | inr (found, p) ↦ elim (Option-cases found) [
      | inl none_found ↦
          rw (p, none_found, role_gate) (refused-Audited AuthError.role_not_found (some u))
      | inr (r, m) ↦ elim (Bool-cases (r.status =ᵇ disabled)) [
        | inl d ↦ rw (p, m, d, role_gate) (refused-Audited AuthError.role_disabled (some u))
        | inr d ↦ rw (p, m, d, role_gate) (tenant_gate-Audited u)
      ]
    ]
  ]

  credentials-Audited : (us : List User) → Audited req (credentials s fresh req us)
  unfolding credentials
  credentials-Audited [] = refused-Audited AuthError.invalid_password none
  credentials-Audited (u ∷ v ∷ more) = refused-Audited AuthError.invalid_password none
  credentials-Audited (u ∷ []) = elim (Bool-cases (validate_password s.externals u req.password)) [
    | inr w ↦ rw (w, credentials) (refused-Audited AuthError.invalid_password (some u))
    | inl w ↦ elim (Bool-cases (u.status =ᵇ disabled)) [
      | inl d ↦ rw (w, d, credentials) (refused-Audited AuthError.user_disabled (some u))
      | inr d ↦ rw (w, d, credentials) (role_gate-Audited u)
    ]
  ]

  -- A login that succeeds logs one success, with the uid, the tenant and the access token of its
  -- answer and the username of the request; one that fails logs one failure without a token, or, when
  -- a query or signing gave the error, it may log nothing.
  pub login-Audited : Audited req (login s fresh req)
  unfolding login
  login-Audited = elim (Option-cases (s.validate req)) [
    | inr (e, p) ↦ rw (p, login) (refused-Audited (AuthError.request_error e) none)
    | inl p ↦ elim (Option-cases (s.before_login req)) [
      | inr (e, q) ↦ rw (p, q, login) (refused-Audited (AuthError.hook_error e) none)
      | inl q ↦ elim (Result-cases (find_candidates s.db req.username)) [
        | inl (e, r) ↦ rw (p, q, r, login) (refused-Audited e none)
        | inr (us, r) ↦ rw (p, q, r, login) (credentials-Audited us)
      ]
    ]
  ]

  -- Where the request is valid, the hook gives no error, one row is found, the password is right and
  -- the user is not disabled, a role query that fails ends a login that logs nothing.
  pub login-unlogged :
      (u : User) (n : ℕ)
      → s.validate req ≡ none
      → s.before_login req ≡ none
      → find_candidates s.db req.username ≡ ok (u ∷ [])
      → validate_password s.externals u req.password ≡ true
      → (u.status =ᵇ disabled) ≡ false
      → role_of s.db u.role_key u.tenant_id ≡ err (db_error n)
      → (login s fresh req).log ≡ []
  unfolding login credentials role_gate
  login-unlogged u n p q r w d e = rw (p, q, r, w, d, e, login, credentials, role_gate) refl

  -- Where the request is valid, the hook gives no error and one row is found, a wrong password is
  -- refused and logged as one failure under the uid and the tenant of that row.
  pub login-wrong_password :
      (u : User)
      → s.validate req ≡ none
      → s.before_login req ≡ none
      → find_candidates s.db req.username ≡ ok (u ∷ [])
      → validate_password s.externals u req.password ≡ false
      → ((login s fresh req).response ≡ err AuthError.invalid_password)
        × ((login s fresh req).log ≡ record_login req false (some u) [] ∷ [])
  unfolding login credentials
  login-wrong_password u p q r w = rw (p, q, r, w, login, credentials) (refl, refl)
