-- ===== src/Admin/Session/Admission.antt =====
-- What the checks of `RefreshToken` in admin/service/auth.go establish before the claim.
use aeus.Common.{
  ℕ, Bytes, true, false, ◌=ᵇ◌, =ᵇ_sound, Option, none, some, ok, err, ◌≡◌, ap, subst, ◌∙◌, inl, inr,
  arith, Bool-cases, Option-cases, Result-cases,
}
use aeus.Tokens.Interface.{TokenStore}
use aeus.Admin.Session.Model.{
  Claims, token_type_refresh, disabled, User, Role, AuthError, role_of, user_of,
}
use aeus.Admin.Session.Renew.{Renewer, live_role, live_user, admitted}

module _ {T : TokenStore} (r : Renewer T) where
  -- The role of a user is there and enabled.
  pub record LiveRole (u : User) : Type 0 where
    pub role : Role
    pub role_found : role_of r.db u.role_key u.tenant_id ≡ ok (some role)
    pub role_enabled : (role.status =ᵇ disabled) ≡ false

  live_role-LiveRole : (u v : User) → live_role r u ≡ ok v → (u ≡ v) × LiveRole u
  unfolding live_role
  live_role-LiveRole u v h = elim (Result-cases (role_of r.db u.role_key u.tenant_id)) [
    | inl (e, p) ↦ absurd (failed e p)
    | inr (found, p) ↦ elim (Option-cases found) [
      | inl n ↦ absurd (missing found p n)
      | inr (role, m) ↦ elim (Bool-cases (role.status =ᵇ disabled)) [
        | inl d ↦ absurd (stopped found role p m d)
        | inr d ↦ (
          same found role p m d,
          record { role = role; role_found = p ∙ ap ok m; role_enabled = d },
        )
      ]
    ]
  ]
    where
      failed : (e : AuthError) → role_of r.db u.role_key u.tenant_id ≡ err e → ⊥
      failed e p = ground (arith, h, p)

      missing :
          (found : Option Role) → role_of r.db u.role_key u.tenant_id ≡ ok found → found ≡ none → ⊥
      missing found p n = ground (arith, h, p, n)

      stopped :
          (found : Option Role) (role : Role)
          → role_of r.db u.role_key u.tenant_id ≡ ok found
          → found ≡ some role
          → (role.status =ᵇ disabled) ≡ true
          → ⊥
      stopped found role p m d = ground (arith, h, p, m, d)

      same :
          (found : Option Role) (role : Role)
          → role_of r.db u.role_key u.tenant_id ≡ ok found
          → found ≡ some role
          → (role.status =ᵇ disabled) ≡ false
          → u ≡ v
      same found role p m d = ground (arith, h, p, m, d)

  -- The user of a token is there and enabled, and so is its role.
  pub record Live (c : Claims) (u : User) : Type 0 where
    pub user_found : user_of r.db c.uid c.tenant_id ≡ ok (some u)
    pub user_enabled : (u.status =ᵇ disabled) ≡ false
    pub role_live : LiveRole u

  live_user-Live : (c : Claims) (u : User) → live_user r c ≡ ok u → Live c u
  unfolding live_user
  live_user-Live c u h = elim (Result-cases (user_of r.db c.uid c.tenant_id)) [
    | inl (e, p) ↦ absurd (failed e p)
    | inr (found, p) ↦ elim (Option-cases found) [
      | inl n ↦ absurd (missing found p n)
      | inr (v, m) ↦ elim (Bool-cases (v.status =ᵇ disabled)) [
        | inl d ↦ absurd (stopped found v p m d)
        | inr d ↦
            let (same, l) = live_role-LiveRole v u (passed found v p m d) in
            subst (λ w. Live c w) same
              (record { user_found = p ∙ ap ok m; user_enabled = d; role_live = l })
      ]
    ]
  ]
    where
      failed : (e : AuthError) → user_of r.db c.uid c.tenant_id ≡ err e → ⊥
      failed e p = ground (arith, h, p)

      missing : (found : Option User) → user_of r.db c.uid c.tenant_id ≡ ok found → found ≡ none → ⊥
      missing found p n = ground (arith, h, p, n)

      stopped :
          (found : Option User) (v : User)
          → user_of r.db c.uid c.tenant_id ≡ ok found
          → found ≡ some v
          → (v.status =ᵇ disabled) ≡ true
          → ⊥
      stopped found v p m d = ground (arith, h, p, m, d)

      passed :
          (found : Option User) (v : User)
          → user_of r.db c.uid c.tenant_id ≡ ok found
          → found ≡ some v
          → (v.status =ᵇ disabled) ≡ false
          → live_role r v ≡ ok u
      passed found v p m d = ground (arith, h, p, m, d)

  -- What a token that is admitted has passed.
  pub record Admitted (raw : Bytes) (now : ℕ) (c : Claims) (u : User) : Type 0 where
    pub parsed : r.externals.parse raw now ≡ ok c
    pub refresh_type : c.token_type ≡ token_type_refresh
    pub live : Live c u

  pub admitted-Admitted :
      (raw : Bytes) (now : ℕ) (c : Claims) (u : User)
      → admitted r raw now ≡ ok (c, u)
      → Admitted raw now c u
  unfolding admitted
  admitted-Admitted raw now c u h = elim (Option-cases (r.validate raw)) [
    | inr (e, p) ↦ absurd (invalid e p)
    | inl p ↦ elim (Result-cases (r.externals.parse raw now)) [
      | inl (e, q) ↦ absurd (unparsed p e q)
      | inr (d, q) ↦ elim (Bool-cases (d.token_type =ᵇ token_type_refresh)) [
        | inr w ↦ absurd (mistyped p d q w)
        | inl w ↦ elim (Result-cases (live_user r d)) [
          | inl (e, l) ↦ absurd (dead p d q w e l)
          | inr (v, l) ↦
              let (cd, uv) = same p d q w v l in
              record {
                parsed = q ∙ ap ok cd;
                refresh_type = subst (λ k. k.token_type ≡ token_type_refresh) cd (=ᵇ_sound _ _ w);
                live = live_user-Live c u (subst (λ k. live_user r k ≡ ok u) cd (l ∙ ap ok uv));
              }
        ]
      ]
    ]
  ]
    where
      invalid : (e : ℕ) → r.validate raw ≡ some e → ⊥
      invalid e p = ground (arith, h, p)

      unparsed : r.validate raw ≡ none → (e : ℕ) → r.externals.parse raw now ≡ err e → ⊥
      unparsed p e q = ground (arith, h, p, q)

      mistyped :
          r.validate raw ≡ none
          → (d : Claims) → r.externals.parse raw now ≡ ok d
          → (d.token_type =ᵇ token_type_refresh) ≡ false
          → ⊥
      mistyped p d q w = ground (arith, h, p, q, w)

      dead :
          r.validate raw ≡ none
          → (d : Claims) → r.externals.parse raw now ≡ ok d
          → (d.token_type =ᵇ token_type_refresh) ≡ true
          → (e : AuthError) → live_user r d ≡ err e
          → ⊥
      dead p d q w e l = ground (arith, h, p, q, w, l)

      same :
          r.validate raw ≡ none
          → (d : Claims) → r.externals.parse raw now ≡ ok d
          → (d.token_type =ᵇ token_type_refresh) ≡ true
          → (v : User) → live_user r d ≡ ok v
          → (d ≡ c) × (v ≡ u)
      same p d q w v l = (ground (arith, h, p, q, w, l), ground (arith, h, p, q, w, l))
