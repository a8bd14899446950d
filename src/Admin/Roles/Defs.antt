-- ===== src/Admin/Roles/Defs.antt =====
-- The grants of a role: admin/models/role_permission.go, `ReplacePermissions` and
-- `GrantMissingPermissions` of admin/models/role.go, and the methods of admin/service/role.go that
-- read or replace grants. The rows of sys_role_permissions are those of the permission checker. An id
-- has no part here; the rows of a create come last.
use aeus.Common.{
  ℕ, ◌+◌, ◌==◌, Bytes, codes, Bool, not, ◌&&◌, List, [], ◌∷◌, ◌++◌, map, length, if◌then◌else◌,
  ◌=ᵇ◌, Option, none, some, Result, ok, err,
}
use aeus.Admin.TenantScope.{Scope, forced_tenant, query, delete}
use aeus.Admin.Permission.Checker.{GrantRow, member, role_permission_type_permission}

pub record Role : Type 0 where
  pub key : Bytes
  pub tenant_id : Bytes
  pub is_super : Bool

pub data RoleError : Type 0 where
  not_found managed_automatically : RoleError
  missing_menus missing_permissions : List Bytes → RoleError
  request_error db_error : ℕ → RoleError

pub data Query : Type 0 where
  find_role find_menus find_permissions delete_grants create_grants find_grants read_menus
        read_apis :
      Query

-- The tables, and which query fails. The columns of sys_menus and of sys_permissions are those that a
-- grant refers to.
pub record Tables : Type 0 where
  pub grants : List GrantRow
  pub roles : List Role
  pub components : List Bytes
  pub permissions : List Bytes
  pub failure : Query → Option ℕ

abbrev pub role_permission_type_menu : Bytes
role_permission_type_menu = codes "menu"

abbrev pub default_tenant_id : Bytes
default_tenant_id = codes "00000000-0000-0000-0000-000000000000"

abbrev pub grant_tenant : GrantRow → Bytes
grant_tenant r = r.tenant_id

abbrev pub run {ℓ} : {A : Type ℓ} → Tables → Query → A → Result RoleError A
run db q rows = elim (db.failure q) [ none ↦ ok rows | some e ↦ err (db_error e) ]

-- DISTINCT; the order of the values is the database's.
unfoldable pub distinct : List Bytes → List Bytes
distinct [] = []
distinct (x ∷ xs) = if member x xs then distinct xs else x ∷ distinct xs

abbrev pub has_type : Bytes → Bytes → GrantRow → Bool
has_type role_key type r = (r.role_key =ᵇ role_key) && (r.type =ᵇ type)

-- The values that a query of one type of grant reads.
unfoldable pub permission_datas : Bytes → Scope → Tables → Bytes → List Bytes
permission_datas type sc db role_key =
    distinct (map (λ r. r.code) (query grant_tenant sc (has_type role_key type) db.grants))

-- `MenuPermissionDatas`.
abbrev pub menu_permission_datas : Scope → Tables → Bytes → Result RoleError (List Bytes)
menu_permission_datas sc db role_key =
    run db read_menus (permission_datas role_permission_type_menu sc db role_key)

-- `APIPermissionDatas`.
abbrev pub api_permission_datas : Scope → Tables → Bytes → Result RoleError (List Bytes)
api_permission_datas sc db role_key =
    run db read_apis (permission_datas role_permission_type_permission sc db role_key)

-- The loop of `missingDataValues` over the values, with the column that was read.
unfoldable pub missing_values : List Bytes → List Bytes → List Bytes
missing_values existing [] = []
missing_values existing (n ∷ values) =
    if member n existing then missing_values existing values else n ∷ missing_values existing values

-- `WHERE column IN values`.
unfoldable pub selected : List Bytes → List Bytes → List Bytes
selected values [] = []
selected values (n ∷ column) =
    if member n values then n ∷ selected values column else selected values column

-- `missingDataValues`.
unfoldable pub missing_data_values :
    Tables → Query → List Bytes → List Bytes → Result RoleError (List Bytes)
missing_data_values db q column values =
    if length values == 0 then ok [] else elim (run db q (selected values column)) [
      | err e ↦ err e
      | ok existing ↦ ok (missing_values existing values)
    ]

-- `BeforeCreate` of a grant, and then the callback of the tenant.
unfoldable pub tenant_of_new : Scope → Bytes → Bytes
tenant_of_new sc tenant_id =
    forced_tenant sc (if tenant_id =ᵇ [] then default_tenant_id else tenant_id)

-- The rows of one type that a create writes.
unfoldable pub grant_rows : Bytes → Bytes → Bytes → List Bytes → List GrantRow
grant_rows tenant_id role_key type [] = []
grant_rows tenant_id role_key type (n ∷ values) =
    record { role_key = role_key; tenant_id = tenant_id; type = type; code = n }
    ∷ grant_rows tenant_id role_key type values

abbrev pub new_grants : Scope → Bytes → Bytes → List Bytes → List Bytes → List GrantRow
new_grants sc role_key tenant_id menus perms =
    grant_rows (tenant_of_new sc tenant_id) role_key role_permission_type_menu menus
    ++ grant_rows (tenant_of_new sc tenant_id) role_key role_permission_type_permission perms

-- `ReplacePermissions`, with a tenant.
unfoldable pub replace_permissions :
    Scope → Tables → Bytes → List Bytes → List Bytes → Bytes → Result RoleError (List GrantRow)
replace_permissions sc db role_key menus perms tenant_id =
    elim (run db delete_grants (delete grant_tenant sc (λ r. r.role_key =ᵇ role_key) db.grants)) [
      | err e ↦ err e
      | ok left ↦
          if length menus + length perms == 0
          then ok left
          else run db create_grants (left ++ new_grants sc role_key tenant_id menus perms)
    ]

-- The values of one type of the rows that were read.
abbrev pub held : Bytes → List GrantRow → List Bytes
held type [] = []
held type (r ∷ rows) = if r.type =ᵇ type then r.code ∷ held type rows else held type rows

-- `GrantMissingPermissions`.
unfoldable pub grant_missing_permissions :
    Scope → Tables → Bytes → Bytes → List Bytes → List Bytes → Result RoleError (List GrantRow)
grant_missing_permissions sc db role_key tenant_id menus perms =
    if (length menus == 0) && (length perms == 0)
    then ok db.grants
    else elim (run db find_grants (
        query grant_tenant sc (λ r. (r.role_key =ᵇ role_key) && (r.tenant_id =ᵇ tenant_id))
          db.grants)) [
            | err e ↦ err e
            | ok existing ↦
                let new_menus = missing_values (held role_permission_type_menu existing) menus in
                let new_perms =
                  missing_values (held role_permission_type_permission existing) perms in
                if length new_menus + length new_perms == 0
                then ok db.grants
                else run db create_grants
                    (db.grants ++ new_grants sc role_key tenant_id new_menus new_perms)
          ]

abbrev pub head {ℓ} : {A : Type ℓ} → List A → Option A
head [] = none
head (row ∷ rows) = some row

abbrev pub role_tenant : Role → Bytes
role_tenant r = r.tenant_id

-- The checks of the grants to come, once the role is loaded.
unfoldable pub replace_for :
    Scope → Tables → Role → Bytes → List Bytes → List Bytes → Result RoleError (List GrantRow)
replace_for sc db role key menus apis =
    if role.is_super
    then err managed_automatically
    else elim (missing_data_values db find_menus db.components menus) [
      | err e ↦ err e
      | ok m ↦
          if not (length m == 0)
          then err (missing_menus m)
          else elim (missing_data_values db find_permissions db.permissions apis) [
            | err e ↦ err e
            | ok p ↦
                if not (length p == 0)
                then err (missing_permissions p)
                else replace_permissions sc db key menus apis role.tenant_id
          ]
    ]

-- `ReplaceRolePermissions`: the grants that its transaction leaves, and the answer; an error rolls back.
unfoldable pub replace_role_permissions :
    Scope → Tables → Option ℕ → Bytes → List Bytes → List Bytes → Result RoleError ℕ × List GrantRow
replace_role_permissions sc db invalid_request key menus apis = elim invalid_request [
  | some e ↦ (err (request_error e), db.grants)
  | none ↦ elim (run db find_role (head (query role_tenant sc (λ r. r.key =ᵇ key) db.roles))) [
    | err e ↦ (err e, db.grants)
    | ok found ↦ elim found [
      | none ↦ (err RoleError.not_found, db.grants)
      | some role ↦ elim (replace_for sc db role key menus apis) [
        | err e ↦ (err e, db.grants)
        | ok grants ↦ (ok (length menus + length apis), grants)
      ]
    ]
  ]
]
