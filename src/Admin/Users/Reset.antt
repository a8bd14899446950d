-- ===== src/Admin/Users/Reset.antt =====
-- What `ResetPassword` of admin/service/user.go has checked and written.
use aeus.Common.{
  ℕ, Bytes, true, List, ◌=ᵇ◌, Option, some, ok, ◌≡◌, ◌⊎◌, ap, ◌∙◌, inl, inr, arith, Bool-cases,
  Option-cases, Result-cases,
}
use aeus.Admin.TenantScope.{query}
use aeus.Admin.Users.Defs.{
  Account, RoleRow, Claims, find_role, Tables, Bcrypt, HashesSoundly, Context, head, run, Reply,
  with_claims, load_by_uid, saved, store, is_hashed,
}
use aeus.Admin.Users.Methods.{
  validate_password, role_tenant, reset_target, reset_as, reset_password,
}
use aeus.Admin.Users.Policy.{Strong}
use aeus.Admin.Users.Written.{with_claims-eq-ok, checked-eq-ok, saved-eq-ok, SameUser}
use aeus.Admin.Users.Own.{password-SameUser, accepted_password}

module _ (x : Bcrypt) (db : Tables) (ctx : Context) where
  pub record Reset (target_uid new answer : Bytes) (accounts : List Account) : Type 0 where
    pub claims : Claims
    pub signed_in : ctx.claims ≡ some claims
    pub role : RoleRow
    pub role_found :
        run db find_role (head (query role_tenant ctx.scope (λ r. r.key =ᵇ claims.role) db.roles))
        ≡ ok (some role)
    pub super_caller : role.is_super ≡ true
    pub before : Account
    pub loaded : load_by_uid ctx.scope db target_uid ≡ ok before
    pub after : Account
    pub written : accounts ≡ store after db.accounts
    pub same_user : SameUser before after
    pub answered : before.uid ≡ answer
    pub accepted :
        (is_hashed new ≡ true) ⊎ (Strong new × (validate_password x db ctx after new ≡ true))

  -- What a stored row of a target is.
  reset_target-eq-ok :
      (target_uid new answer : Bytes) (accounts : List Account)
      → reset_target x db ctx target_uid new ≡ (ok answer, accounts)
      → (u : Account) × (load_by_uid ctx.scope db target_uid ≡ ok u)
        × (saved x db (record u { password = new }) u.uid ≡ (ok answer, accounts))
  unfolding reset_target
  reset_target-eq-ok target_uid new answer accounts h =
      elim (Result-cases (load_by_uid ctx.scope db target_uid)) [
        | inl (e, l) ↦ absurd (ground (arith, l, h))
        | inr (u, l) ↦ (u, l, ground (arith, l, h))
      ]

  -- The caller's role was read as a super one.
  reset_as-eq-ok :
      (role target_uid new answer : Bytes) (accounts : List Account)
      → reset_as x db ctx role target_uid new ≡ (ok answer, accounts)
      → (r : RoleRow) × (run db find_role
            (head (query role_tenant ctx.scope (λ r. r.key =ᵇ role) db.roles))
          ≡ ok (some r))
        × (r.is_super ≡ true)
        × (reset_target x db ctx target_uid new ≡ (ok answer, accounts))
  unfolding reset_as
  reset_as-eq-ok role target_uid new answer accounts h =
      elim (Result-cases
        (run db find_role (head (query role_tenant ctx.scope (λ r. r.key =ᵇ role) db.roles)))) [
          | inl (e, l) ↦ absurd (ground (arith, l, h))
          | inr (found, l) ↦ elim (Option-cases found) [
            | inl n ↦ absurd (ground (arith, l, n, h))
            | inr (r, f) ↦ elim (Bool-cases (r.is_super)) [
              | inr s ↦ absurd (ground (arith, l, f, s, h))
              | inl s ↦ (r, l ∙ ap ok f, s, ground (arith, l, f, s, h))
            ]
          ]
        ]

  -- A reset of a password that answers was asked by a signed-in caller whose role, read in the caller's
  -- tenant scope, is super; the target was loaded in the same scope, its uid is the answer, and the
  -- table is the one before with that row written under its id, uid, role and tenant; the new password
  -- is one that counts as hashed, or it is strong and is now the password of the row. The hashes match
  -- the passwords that they were made from.
  pub reset_password-Reset :
      HashesSoundly x
      → (invalid : Option ℕ) (target_uid new answer : Bytes) (accounts : List Account)
      → reset_password x db ctx invalid target_uid new ≡ (ok answer, accounts)
      → Reset target_uid new answer accounts
  unfolding reset_password
  reset_password-Reset sound invalid target_uid new answer accounts h =
      let next : Claims → Reply Bytes = λ c. reset_as x db ctx c.role target_uid new in
      let (c, p, asked) =
        with_claims-eq-ok x db ctx next answer accounts
          (checked-eq-ok x db ctx invalid (with_claims db ctx next) answer accounts h) in
      let (r, f, s, targeted) = reset_as-eq-ok c.role target_uid new answer accounts asked in
      let (u, l, stored) = reset_target-eq-ok target_uid new answer accounts targeted in
      let (m', b, w, same) =
        saved-eq-ok x db ctx (record u { password = new }) u.uid answer accounts stored in
      record {
        claims = c;
        signed_in = p;
        role = r;
        role_found = f;
        super_caller = s;
        before = u;
        loaded = l;
        after = m';
        written = w;
        same_user = password-SameUser x db ctx u new m' b;
        answered = same;
        accepted = accepted_password x db ctx sound (record u { password = new }) m' b;
      }
