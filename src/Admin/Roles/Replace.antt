-- ===== src/Admin/Roles/Replace.antt =====
-- What `ReplacePermissions` of admin/models/role.go leaves to each caller of the permission checker.
use aeus.Common.{
  ℕ, ◌+◌, ◌==◌, Bytes, Bool, true, ◌&&◌, List, [], ◌∷◌, ◌++◌, append-nil, length, if◌then◌else◌,
  ◌=ᵇ◌, =ᵇ_iff, =ᵇ_refl, =ᵇ_sound, none, ok, ◌≡◌, refl, sym, ap, ◌∙◌, inl, inr, arith, Bool-cases,
  Option-cases,
}
use aeus.Admin.TenantScope.{Scope, forced_tenant, tenant_clause, in_scope, delete}
use aeus.Admin.Permission.Checker.{
  Caller, GrantRow, role_permission_type_permission, is_grant, load_grants,
}
use aeus.Admin.Roles.Defs.{
  delete_grants, create_grants, Tables, role_permission_type_menu, grant_tenant, tenant_of_new,
  grant_rows, new_grants, replace_permissions,
}

load_grants-append :
    (c : Caller) (xs ys : List GrantRow)
    → load_grants c (xs ++ ys) ≡ load_grants c xs ++ load_grants c ys
unfolding load_grants
load_grants-append c [] ys = refl
load_grants-append c (r ∷ xs) ys = ground (arith, load_grants-append c xs ys)

-- Whether the delete of a role's grants meets the grants of a caller.
abbrev pub meets : Scope → Bytes → Caller → Bool
meets sc key c = (c.role =ᵇ key) && in_scope sc c.tenant_id

grant_same :
    (c : Caller) (r : GrantRow) (sc : Scope) (key : Bytes)
    → is_grant c r ≡ true
    → (in_scope sc r.tenant_id && (r.role_key =ᵇ key)) ≡ meets sc key c
grant_same c r sc key g =
    let role : r.role_key ≡ c.role = =ᵇ_sound _ _ (ground (arith, g)) in
    let tenant : r.tenant_id ≡ c.tenant_id = =ᵇ_sound _ _ (ground (arith, g)) in
    ground (arith, role, tenant)

load_grants-delete :
    (c : Caller) (sc : Scope) (key : Bytes) (rows : List GrantRow)
    → load_grants c (delete grant_tenant sc (λ r. r.role_key =ᵇ key) rows)
      ≡ (if meets sc key c then [] else load_grants c rows)
unfolding load_grants delete
load_grants-delete c sc key [] = ground arith
load_grants-delete c sc key (r ∷ rows) = elim (Bool-cases (is_grant c r)) [
  | inl g ↦ ground (arith, g, grant_same c r sc key g, load_grants-delete c sc key rows)
  | inr g ↦ ground (arith, g, load_grants-delete c sc key rows)
]

load_grants-menus :
    (c : Caller) (tenant key : Bytes) (values : List Bytes)
    → load_grants c (grant_rows tenant key role_permission_type_menu values) ≡ []
unfolding load_grants grant_rows ◌=ᵇ◌
load_grants-menus c tenant key [] = refl
load_grants-menus c tenant key (n ∷ values) = ground (arith, load_grants-menus c tenant key values)

load_grants-permissions :
    (c : Caller) (tenant key : Bytes) (values : List Bytes)
    → load_grants c (grant_rows tenant key role_permission_type_permission values)
      ≡ (if (key =ᵇ c.role) && (tenant =ᵇ c.tenant_id) then values else [])
unfolding load_grants grant_rows
load_grants-permissions c tenant key [] = ground arith
load_grants-permissions c tenant key (n ∷ values) =
    ground
      (arith, load_grants-permissions c tenant key values, =ᵇ_refl role_permission_type_permission)

-- The tenant of a new row is in the scope of its statement.
pub tenant_of_new-in_scope :
    (sc : Scope) (tenant : Bytes) → in_scope sc (tenant_of_new sc tenant) ≡ true
unfolding in_scope tenant_of_new forced_tenant
tenant_of_new-in_scope sc tenant = elim (Option-cases (tenant_clause sc)) [
  | inl p ↦ ground (arith, p)
  | inr (tid, p) ↦ ground (arith, p, =ᵇ_refl tid)
]

-- The grants of a caller in the rows of a create.
load_grants-new :
    (c : Caller) (sc : Scope) (key tenant : Bytes) (menus perms : List Bytes)
    → load_grants c (new_grants sc key tenant menus perms)
      ≡ (if (key =ᵇ c.role) && (tenant_of_new sc tenant =ᵇ c.tenant_id) then perms else [])
load_grants-new c sc key tenant menus perms =
    let at : Bytes = tenant_of_new sc tenant in
    load_grants-append c (grant_rows at key role_permission_type_menu menus)
      (grant_rows at key role_permission_type_permission perms)
    ∙ ap (λ m. m ++ load_grants c (grant_rows at key role_permission_type_permission perms))
        (load_grants-menus c at key menus)
    ∙ load_grants-permissions c at key perms

-- What a caller holds once the grants of a role have been replaced.
abbrev pub after_replace : Scope → Bytes → Bytes → List Bytes → Caller → List Bytes → List Bytes
after_replace sc key tenant perms c before =
    if meets sc key c
    then (if tenant_of_new sc tenant =ᵇ c.tenant_id then perms else [])
    else before

after_replace-append :
    (c : Caller) (sc : Scope) (key tenant : Bytes) (perms before : List Bytes)
    → (if meets sc key c then [] else before)
        ++ (if (key =ᵇ c.role) && (tenant_of_new sc tenant =ᵇ c.tenant_id) then perms else [])
      ≡ after_replace sc key tenant perms c before
after_replace-append c sc key tenant perms before = elim (Bool-cases (key =ᵇ c.role)) [
  | inr k ↦ ground (arith, k, =ᵇ_iff key c.role, =ᵇ_iff c.role key, append-nil before)
  | inl k ↦ elim (Bool-cases (tenant_of_new sc tenant =ᵇ c.tenant_id)) [
    | inr t ↦ ground (arith, k, t, append-nil before, append-nil {A = ℕ} [])
    | inl t ↦ ground (
      arith,
      k,
      t,
      =ᵇ_iff key c.role,
      =ᵇ_iff c.role key,
      tenant_of_new-in_scope sc tenant,
      =ᵇ_sound _ _ t,
      append-nil before,
    )
  ]
]

new_grants_empty :
    (sc : Scope) (key tenant : Bytes) (menus perms : List Bytes)
    → (length menus + length perms == 0) ≡ true
    → new_grants sc key tenant menus perms ≡ []
unfolding grant_rows
new_grants_empty sc key tenant [] [] h = refl
new_grants_empty sc key tenant [] (p ∷ perms) h = ground (arith, h)
new_grants_empty sc key tenant (m ∷ menus) perms h = ground (arith, h)

module _ (sc : Scope) (db : Tables) (key : Bytes) (menus perms : List Bytes) (tenant : Bytes) where
  -- The rows that a replacement leaves.
  pub replace_permissions-rows :
      (grants : List GrantRow)
      → replace_permissions sc db key menus perms tenant ≡ ok grants
      → grants
        ≡ delete grant_tenant sc (λ r. r.role_key =ᵇ key) db.grants
          ++ new_grants sc key tenant menus perms
  unfolding replace_permissions
  replace_permissions-rows grants h = elim (Option-cases (db.failure delete_grants)) [
    | inr (e, d) ↦ absurd (ground (arith, d, h))
    | inl d ↦ elim (Bool-cases (length menus + length perms == 0)) [
      | inl z ↦ emptied d z
      | inr z ↦ elim (Option-cases (db.failure create_grants)) [
        | inr (e, c) ↦ absurd (ground (arith, d, z, c, h))
        | inl c ↦ ground (arith, d, z, c, h)
      ]
    ]
  ]
    where
      left : List GrantRow
      left = delete grant_tenant sc (λ r. r.role_key =ᵇ key) db.grants

      emptied :
          db.failure delete_grants ≡ none
          → (length menus + length perms == 0) ≡ true
          → grants ≡ left ++ new_grants sc key tenant menus perms
      emptied d z =
          sym (ground (arith, d, z, h))
          ∙ sym (append-nil left)
          ∙ ap (λ n. left ++ n) (sym (new_grants_empty sc key tenant menus perms z))

  pub load_grants-replace_permissions :
      (grants : List GrantRow)
      → replace_permissions sc db key menus perms tenant ≡ ok grants
      → (c : Caller)
      → load_grants c grants ≡ after_replace sc key tenant perms c (load_grants c db.grants)
  load_grants-replace_permissions grants h c =
      let left : List GrantRow = delete grant_tenant sc (λ r. r.role_key =ᵇ key) db.grants in
      let new : List GrantRow = new_grants sc key tenant menus perms in
      ap (load_grants c) (replace_permissions-rows grants h)
      ∙ load_grants-append c left new
      ∙ ap (λ g. g ++ load_grants c new) (load_grants-delete c sc key db.grants)
      ∙ ap (λ g. (if meets sc key c then [] else load_grants c db.grants) ++ g)
          (load_grants-new c sc key tenant menus perms)
      ∙ after_replace-append c sc key tenant perms (load_grants c db.grants)
