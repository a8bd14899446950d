-- ===== src/Admin/Roles/Missing.antt =====
-- What `GrantMissingPermissions` of admin/models/role.go leaves: it only adds, and adds once.
use aeus.Common.{
  ◌+◌, ◌==◌, Bytes, Bool, true, false, ◌&&◌, ◌||◌, List, [], ◌∷◌, ◌++◌, append-nil, All, length,
  if◌then◌else◌, ◌=ᵇ◌, =ᵇ_refl, =ᵇ_sound, ok, ◌≡◌, refl, sym, ap, ◌∙◌, subst, inl, inr, arith,
  Bool-cases, Option-cases,
}
use aeus.Admin.TenantScope.{Scope, tenant_clause, in_scope, forced_tenant, query, query-append}
use aeus.Admin.Permission.Checker.{GrantRow, member, role_permission_type_permission, load_grants}
use aeus.Admin.Roles.Defs.{
  find_grants, create_grants, Tables, role_permission_type_menu, grant_tenant, missing_values,
  tenant_of_new, grant_rows, new_grants, held, grant_missing_permissions,
}

member-append :
    (n : Bytes) (xs ys : List Bytes) → member n (xs ++ ys) ≡ (member n xs || member n ys)
unfolding member
member-append n [] ys = refl
member-append n (x ∷ xs) ys = ground (arith, member-append n xs ys)

-- What is missing joins what is there.
pub missing_values-All :
    (have more values : List Bytes)
    → ((n : Bytes) → member n (missing_values have values) ≡ true → member n more ≡ true)
    → All (λ n. member n (have ++ more) ≡ true) values
unfolding missing_values member
missing_values-All have more [] within = tt
missing_values-All have more (n ∷ values) within = elim (Bool-cases (member n have)) [
  | inl h ↦ (
    ground (arith, member-append n have more, h),
    missing_values-All have more values (λ k m. within k (ground (arith, h, m))),
  )
  | inr h ↦ (
    ground (arith, member-append n have more, within n (ground (arith, h, =ᵇ_refl n))),
    missing_values-All have more values (λ k m. within k (ground (arith, h, m))),
  )
]

pub missing_values-have :
    (have values : List Bytes)
    → All (λ n. member n have ≡ true) values
    → missing_values have values ≡ []
unfolding missing_values
missing_values-have have [] a = refl
missing_values-have have (n ∷ values) (a, rest) =
    ground (arith, a, missing_values-have have values rest)

pub tenant_of_new-same :
    (sc : Scope) (tenant : Bytes)
    → (tenant =ᵇ []) ≡ false
    → in_scope sc tenant ≡ true
    → tenant_of_new sc tenant ≡ tenant
unfolding tenant_of_new forced_tenant in_scope
tenant_of_new-same sc tenant filled scoped = elim (Option-cases (tenant_clause sc)) [
  | inl p ↦ ground (arith, p, filled)
  | inr (tid, p) ↦ ground (arith, p, sym (=ᵇ_sound tenant tid (ground (arith, p, scoped))))
]

held-append :
    (type : Bytes) (xs ys : List GrantRow) → held type (xs ++ ys) ≡ held type xs ++ held type ys
held-append type [] ys = refl
held-append type (r ∷ xs) ys = ground (arith, held-append type xs ys)

module _ (sc : Scope) (key tenant : Bytes) (scoped : in_scope sc tenant ≡ true) where
  -- The rows of the role in the tenant.
  abbrev own : GrantRow → Bool
  own r = (r.role_key =ᵇ key) && (r.tenant_id =ᵇ tenant)

  abbrev pub held_by : Bytes → List GrantRow → List Bytes
  held_by type rows = held type (query grant_tenant sc own rows)

  -- The permissions of the role are those that the checker loads.
  pub held_by-load_grants :
      (rows : List GrantRow)
      → held_by role_permission_type_permission rows
        ≡ load_grants (record { role = key; tenant_id = tenant }) rows
  unfolding query load_grants
  held_by-load_grants [] = refl
  held_by-load_grants (r ∷ rows) = elim (Bool-cases (own r)) [
    | inl o ↦
        let t : r.tenant_id ≡ tenant = =ᵇ_sound _ _ (ground (arith, o)) in
        ground
          (arith, o, subst (λ x. in_scope sc x ≡ true) (sym t) scoped, held_by-load_grants rows)
    | inr o ↦ ground (arith, o, held_by-load_grants rows)
  ]

  pub held_by-append :
      (type : Bytes) (xs ys : List GrantRow)
      → held_by type (xs ++ ys) ≡ held_by type xs ++ held_by type ys
  held_by-append type xs ys =
      ap (held type) (query-append grant_tenant sc own xs ys)
      ∙ held-append type (query grant_tenant sc own xs) (query grant_tenant sc own ys)

  held_by-grant_rows :
      (type kind : Bytes) (values : List Bytes)
      → held_by type (grant_rows tenant key kind values) ≡ (if kind =ᵇ type then values else [])
  unfolding query grant_rows
  held_by-grant_rows type kind [] = ground arith
  held_by-grant_rows type kind (n ∷ values) =
      ground (arith, scoped, =ᵇ_refl key, =ᵇ_refl tenant, held_by-grant_rows type kind values)

  pub held_by-new_grants :
      (menus perms : List Bytes)
      → tenant_of_new sc tenant ≡ tenant
      → (held_by role_permission_type_menu (new_grants sc key tenant menus perms) ≡ menus)
        × (held_by role_permission_type_permission (new_grants sc key tenant menus perms) ≡ perms)
  unfolding ◌=ᵇ◌
  held_by-new_grants menus perms same = rw same (
    held_by-append role_permission_type_menu (grant_rows tenant key role_permission_type_menu menus)
          (grant_rows tenant key role_permission_type_permission perms)
        ∙ ap
            (λ x.
              x
              ++ held_by role_permission_type_menu
                  (grant_rows tenant key role_permission_type_permission perms))
            (held_by-grant_rows role_permission_type_menu role_permission_type_menu menus)
        ∙ ap (λ x. menus ++ x)
            (held_by-grant_rows role_permission_type_menu role_permission_type_permission perms)
        ∙ append-nil menus,
    held_by-append role_permission_type_permission
          (grant_rows tenant key role_permission_type_menu menus)
          (grant_rows tenant key role_permission_type_permission perms)
        ∙ ap
            (λ x.
              x
              ++ held_by role_permission_type_permission
                  (grant_rows tenant key role_permission_type_permission perms))
            (held_by-grant_rows role_permission_type_permission role_permission_type_menu menus)
        ∙ held_by-grant_rows role_permission_type_permission role_permission_type_permission perms,
  )

length_zero :
    {A : Type 0} (xs ys : List A) → (length xs + length ys == 0) ≡ true → (xs ≡ []) × (ys ≡ [])
length_zero [] [] h = (refl, refl)
length_zero [] (y ∷ ys) h = absurd (ground (arith, h))
length_zero (x ∷ xs) ys h = absurd (ground (arith, h))

module _ (sc : Scope) (db : Tables) (key tenant : Bytes) (menus perms : List Bytes)
    (scoped : in_scope sc tenant ≡ true) where
  abbrev pub new_menus : List Bytes
  new_menus =
      missing_values (held_by sc key tenant scoped role_permission_type_menu db.grants) menus

  abbrev pub new_perms : List Bytes
  new_perms =
      missing_values (held_by sc key tenant scoped role_permission_type_permission db.grants) perms

  added_none :
      (length new_menus + length new_perms == 0) ≡ true
      → db.grants ≡ db.grants ++ new_grants sc key tenant new_menus new_perms
  unfolding grant_rows
  added_none z =
      let (m, p) = length_zero new_menus new_perms z in
      sym (
        ap (λ n. db.grants ++ new_grants sc key tenant n new_perms) m
        ∙ ap (λ n. db.grants ++ new_grants sc key tenant [] n) p
        ∙ append-nil db.grants)

  missing_none :
      ((length menus == 0) && (length perms == 0)) ≡ true
      → (length new_menus + length new_perms == 0) ≡ true
  unfolding missing_values
  missing_none z = let (m, p) = length_zero menus perms (ground (arith, z)) in rw (m, p) refl

  -- The rows that a call leaves: those from before, and those that were missing.
  pub grant_missing_permissions-rows :
      (grants : List GrantRow)
      → grant_missing_permissions sc db key tenant menus perms ≡ ok grants
      → grants ≡ db.grants ++ new_grants sc key tenant new_menus new_perms
  unfolding grant_missing_permissions
  grant_missing_permissions-rows grants h =
      elim (Bool-cases ((length menus == 0) && (length perms == 0))) [
        | inl z ↦ sym (ground (arith, z, h)) ∙ added_none (missing_none z)
        | inr z ↦ elim (Option-cases (db.failure find_grants)) [
          | inr (e, f) ↦ absurd (ground (arith, z, f, h))
          | inl f ↦ elim (Bool-cases (length new_menus + length new_perms == 0)) [
            | inl y ↦ sym (ground (arith, z, f, y, h)) ∙ added_none y
            | inr y ↦ elim (Option-cases (db.failure create_grants)) [
              | inr (e, c) ↦ absurd (ground (arith, z, f, y, c, h))
              | inl c ↦ ground (arith, z, f, y, c, h)
            ]
          ]
        ]
      ]
