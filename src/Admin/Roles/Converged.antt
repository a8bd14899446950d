-- ===== src/Admin/Roles/Converged.antt =====
-- The promise of `GrantMissingPermissions` of admin/models/role.go: after it, nothing is missing.
use aeus.Common.{
  ◌==◌, Bytes, true, false, ◌&&◌, List, [], ◌++◌, All, length, ◌=ᵇ◌, ok, ◌≡◌, refl, sym, ap, ◌∙◌,
  subst, inl, inr, arith, Bool-cases, Option-cases,
}
use aeus.Admin.TenantScope.{Scope, in_scope}
use aeus.Admin.Permission.Checker.{GrantRow, member, role_permission_type_permission, load_grants}
use aeus.Admin.Roles.Defs.{
  find_grants, Tables, role_permission_type_menu, missing_values, new_grants,
  grant_missing_permissions,
}
use aeus.Admin.Roles.Missing.{
  missing_values-All, missing_values-have, tenant_of_new-same, held_by, held_by-append,
  held_by-new_grants, held_by-load_grants, new_menus, new_perms, grant_missing_permissions-rows,
}

module _ (sc : Scope) (db : Tables) (key tenant : Bytes) (menus perms : List Bytes)
    (scoped : in_scope sc tenant ≡ true) where
  pub record Converged (grants : List GrantRow) : Type 0 where
    pub added :
        grants
        ≡ db.grants
          ++ new_grants sc key tenant
              (new_menus sc db key tenant menus perms scoped)
              (new_perms sc db key tenant menus perms scoped)
    pub menus_held :
        All
          (λ n. member n (held_by sc key tenant scoped role_permission_type_menu grants) ≡ true)
          menus
    pub perms_loaded :
        All
          (λ n. member n (load_grants (record { role = key; tenant_id = tenant }) grants) ≡ true)
          perms
    pub again :
        grant_missing_permissions sc (record db { grants = grants }) key tenant menus perms
        ≡ ok grants

  held_after :
      (type : Bytes) (grants values : List GrantRow) (more : List Bytes)
      → grants ≡ db.grants ++ values
      → held_by sc key tenant scoped type values ≡ more
      → held_by sc key tenant scoped type grants
        ≡ held_by sc key tenant scoped type db.grants ++ more
  held_after type grants values more e m =
      ap (held_by sc key tenant scoped type) e
      ∙ held_by-append sc key tenant scoped type db.grants values
      ∙ ap (λ x. held_by sc key tenant scoped type db.grants ++ x) m

  grant_missing_permissions-again :
      (grants g : List GrantRow)
      → grant_missing_permissions sc db key tenant menus perms ≡ ok g
      → missing_values (held_by sc key tenant scoped role_permission_type_menu grants) menus ≡ []
      → missing_values (held_by sc key tenant scoped role_permission_type_permission grants) perms
        ≡ []
      → grant_missing_permissions sc (record db { grants = grants }) key tenant menus perms
        ≡ ok grants
  unfolding grant_missing_permissions
  grant_missing_permissions-again grants g h m p =
      elim (Bool-cases ((length menus == 0) && (length perms == 0))) [
        | inl z ↦ ground (arith, z)
        | inr z ↦ elim (Option-cases (db.failure find_grants)) [
          | inr (e, f) ↦ absurd (ground (arith, z, f, h))
          | inl f ↦ rw (z, f, m, p) refl
        ]
      ]

  -- A call for a tenant that is not empty and is in the scope and that goes through has added a row of
  -- the role and the tenant for each menu and permission that the role lacked, and nothing else; then
  -- the role holds every menu of the request, the permission checker loads every permission of it, and
  -- the same call again changes nothing.
  pub grant_missing_permissions-Converged :
      (grants : List GrantRow)
      → (tenant =ᵇ []) ≡ false
      → grant_missing_permissions sc db key tenant menus perms ≡ ok grants
      → Converged grants
  grant_missing_permissions-Converged grants filled h =
      let nm : List Bytes = new_menus sc db key tenant menus perms scoped in
      let np : List Bytes = new_perms sc db key tenant menus perms scoped in
      let rows = grant_missing_permissions-rows sc db key tenant menus perms scoped grants h in
      let (m, p) =
        held_by-new_grants sc key tenant scoped nm np
          (tenant_of_new-same sc tenant filled scoped) in
      let new : List GrantRow = new_grants sc key tenant nm np in
      let held_menus =
        subst (λ x. All (λ n. member n x ≡ true) menus)
          (sym (held_after role_permission_type_menu grants new nm rows m))
          (missing_values-All (held_by sc key tenant scoped role_permission_type_menu db.grants) nm
            menus (λ n k. k)) in
      let held_perms =
        subst (λ x. All (λ n. member n x ≡ true) perms)
          (sym (held_after role_permission_type_permission grants new np rows p))
          (missing_values-All
            (held_by sc key tenant scoped role_permission_type_permission db.grants) np perms
            (λ n k. k)) in
      record {
        added = rows;
        menus_held = held_menus;
        perms_loaded =
            subst (λ x. All (λ n. member n x ≡ true) perms)
              (held_by-load_grants sc key tenant scoped grants) held_perms;
        again =
            grant_missing_permissions-again grants grants h
              (missing_values-have (held_by sc key tenant scoped role_permission_type_menu grants)
                menus held_menus)
              (missing_values-have
                (held_by sc key tenant scoped role_permission_type_permission grants) perms
                held_perms);
      }
