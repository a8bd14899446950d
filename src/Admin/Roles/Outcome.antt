-- ===== src/Admin/Roles/Outcome.antt =====
-- What `ReplaceRolePermissions` of admin/service/role.go has checked and written when it answers.
use aeus.Common.{
  ℕ, ◌+◌, ◌==◌, Bytes, true, false, List, [], ◌∷◌, All, length, ◌=ᵇ◌, Option, none, some, Result,
  ok, err, ◌≡◌, refl, sym, ap, subst, ◌∙◌, inl, inr, arith, Bool-cases, Option-cases, Result-cases,
}
use aeus.Admin.TenantScope.{Scope, query}
use aeus.Admin.Permission.Checker.{Caller, GrantRow, member, load_grants}
use aeus.Admin.Roles.Defs.{
  Role, RoleError, Query, find_role, find_menus, find_permissions, Tables, run, missing_values,
  selected, missing_data_values, replace_permissions, head, role_tenant, replace_for,
  replace_role_permissions,
}
use aeus.Admin.Roles.Replace.{after_replace, load_grants-replace_permissions}

member-selected :
    (n : Bytes) (values column : List Bytes)
    → member n (selected values column) ≡ true
    → member n column ≡ true
unfolding member selected
member-selected n values [] h = h
member-selected n values (m ∷ column) h = ground (arith, h, member-selected n values column)

missing_values-none :
    (existing column values : List Bytes)
    → ((n : Bytes) → member n existing ≡ true → member n column ≡ true)
    → (length (missing_values existing values) == 0) ≡ true
    → All (λ n. member n column ≡ true) values
unfolding missing_values
missing_values-none existing column [] within h = tt
missing_values-none existing column (n ∷ values) within h = elim (Bool-cases (member n existing)) [
  | inl e ↦ (within n e, missing_values-none existing column values within (ground (arith, e, h)))
  | inr e ↦ absurd (ground (arith, e, h))
]

-- No value is missing from a column only when each is in it.
pub missing_data_values-All :
    (db : Tables) (q : Query) (column values missing : List Bytes)
    → missing_data_values db q column values ≡ ok missing
    → (length missing == 0) ≡ true
    → All (λ n. member n column ≡ true) values
unfolding missing_data_values
missing_data_values-All db q column [] missing h z = tt
missing_data_values-All db q column (v ∷ values) missing h z = elim (Option-cases (db.failure q)) [
  | inr (e, f) ↦ absurd (ground (arith, f, h))
  | inl f ↦
      missing_values-none (selected (v ∷ values) column) column (v ∷ values)
        (λ n. member-selected n (v ∷ values) column) (ground (arith, f, h, z))
]

module _ (sc : Scope) (db : Tables) (key : Bytes) (menus apis : List Bytes) where
  -- What an answer has established.
  pub record Replaced (affected : ℕ) (grants : List GrantRow) : Type 0 where
    pub role : Role
    pub role_found :
        run db find_role (head (query role_tenant sc (λ r. r.key =ᵇ key) db.roles)) ≡ ok (some role)
    pub plain : role.is_super ≡ false
    pub menus_known : All (λ n. member n db.components ≡ true) menus
    pub apis_known : All (λ n. member n db.permissions ≡ true) apis
    pub counted : affected ≡ length menus + length apis
    pub granted :
        (c : Caller)
        → load_grants c grants
          ≡ after_replace sc key role.tenant_id apis c (load_grants c db.grants)

  -- The outcomes of a call.
  unfoldable pub Outcome : Result RoleError ℕ × List GrantRow → Type 0
  Outcome (err e, grants) = grants ≡ db.grants
  Outcome (ok affected, grants) = Replaced affected grants

  replace_for-ok :
      (role : Role) (grants : List GrantRow)
      → replace_for sc db role key menus apis ≡ ok grants
      → (role.is_super ≡ false)
        × All (λ n. member n db.components ≡ true) menus
        × All (λ n. member n db.permissions ≡ true) apis
        × (replace_permissions sc db key menus apis role.tenant_id ≡ ok grants)
  unfolding replace_for
  replace_for-ok role grants h = elim (Bool-cases (role.is_super)) [
    | inl s ↦ absurd (ground (arith, s, h))
    | inr s ↦ elim (Result-cases (missing_data_values db find_menus db.components menus)) [
      | inl (e, m) ↦ absurd (ground (arith, s, m, h))
      | inr (mm, m) ↦ elim (Bool-cases (length mm == 0)) [
        | inr z ↦ absurd (ground (arith, s, m, z, h))
        | inl z ↦
            elim (Result-cases (missing_data_values db find_permissions db.permissions apis)) [
              | inl (e, p) ↦ absurd (ground (arith, s, m, z, p, h))
              | inr (pp, p) ↦ elim (Bool-cases (length pp == 0)) [
                | inr y ↦ absurd (ground (arith, s, m, z, p, y, h))
                | inl y ↦ (
                  s,
                  missing_data_values-All db find_menus db.components menus mm m z,
                  missing_data_values-All db find_permissions db.permissions apis pp p y,
                  ground (arith, s, m, z, p, y, h),
                )
              ]
            ]
      ]
    ]
  ]

  -- A call that fails leaves the grants as they were. One that answers has found the role in the scope,
  -- and it is not super; the menus and the permissions of the request are all in their tables, and the
  -- answer is how many they are; and then the permission checker loads, for a caller with that role and
  -- a tenant in the scope, the permissions of the request if the tenant is the one of the new rows and
  -- none otherwise, and for every other caller what it loaded before.
  pub replace_role_permissions-Outcome :
      (invalid : Option ℕ) → Outcome (replace_role_permissions sc db invalid key menus apis)
  unfolding Outcome replace_role_permissions
  replace_role_permissions-Outcome (some e) = refl
  replace_role_permissions-Outcome none =
      elim (Result-cases
        (run db find_role (head (query role_tenant sc (λ r. r.key =ᵇ key) db.roles)))) [
          | inl (e, f) ↦ failed e (ground (arith, f))
          | inr (found, f) ↦ elim (Option-cases found) [
            | inl n ↦ failed RoleError.not_found (ground (arith, f, n))
            | inr (role, r) ↦ elim (Result-cases (replace_for sc db role key menus apis)) [
              | inl (e, g) ↦ failed e (ground (arith, f, r, g))
              | inr (grants, g) ↦
                  subst Outcome (sym (answered role grants f r g))
                    (replaced role grants (f ∙ ap ok r) g)
            ]
          ]
        ]
    where
      failed :
          (e : RoleError)
          → replace_role_permissions sc db none key menus apis ≡ (err e, db.grants)
          → Outcome (replace_role_permissions sc db none key menus apis)
      failed e h = subst Outcome (sym h) refl

      answered :
          (role : Role) (grants : List GrantRow) {found : Option Role}
          → run db find_role (head (query role_tenant sc (λ r. r.key =ᵇ key) db.roles)) ≡ ok found
          → found ≡ some role
          → replace_for sc db role key menus apis ≡ ok grants
          → replace_role_permissions sc db none key menus apis
            ≡ (ok (length menus + length apis), grants)
      answered role grants f r g = ground (arith, f, r, g)

      replaced :
          (role : Role) (grants : List GrantRow)
          → run db find_role (head (query role_tenant sc (λ r. r.key =ᵇ key) db.roles))
            ≡ ok (some role)
          → replace_for sc db role key menus apis ≡ ok grants
          → Replaced (length menus + length apis) grants
      replaced role grants f g =
          let (plain, m, p, r) = replace_for-ok role grants g in
          record {
            role = role;
            role_found = f;
            plain = plain;
            menus_known = m;
            apis_known = p;
            counted = refl;
            granted = load_grants-replace_permissions sc db key menus apis role.tenant_id grants r;
          }
