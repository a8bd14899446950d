-- ===== src/Admin/Roles/Reads.antt =====
-- `RolePermissions` and `rolePermissionsDirect` of admin/service/role.go. The cache is a parameter.
use aeus.Common.{ℕ, Bytes, codes, List, [], ◌++◌, Option, none, some, Result, ok, err}
use aeus.Admin.TenantScope.{Scope}
use aeus.Admin.Roles.Defs.{
  RoleError, request_error, Tables, menu_permission_datas, api_permission_datas,
}

-- `PermissionType`, the kinds of grant that a request asks for.
pub data PermissionType : Type 0 where
  unspecified menu_type button_type api_type data_scope_type : PermissionType

-- The menus and the permissions of a role: the loader of `RolePermissions`, and the last case of
-- `rolePermissionsDirect`.
unfoldable pub both_datas : Scope → Tables → Bytes → Result RoleError (List Bytes × List Bytes)
both_datas sc db role = elim (menu_permission_datas sc db role) [
  | err e ↦ err e
  | ok menus ↦ elim (api_permission_datas sc db role) [ err e ↦ err e | ok apis ↦ ok (menus, apis) ]
]

-- `rolePermissionsDirect`.
unfoldable pub role_permissions_direct :
    Scope → Tables → PermissionType → Bytes → Result RoleError (List Bytes × List Bytes)
role_permissions_direct sc db menu_type role = elim (menu_permission_datas sc db role) [
  | err e ↦ err e
  | ok menus ↦ ok (menus, [])
]
role_permissions_direct sc db api_type role = elim (api_permission_datas sc db role) [
  | err e ↦ err e
  | ok apis ↦ ok ([], apis)
]
role_permissions_direct sc db unspecified role = both_datas sc db role
role_permissions_direct sc db button_type role = both_datas sc db role
role_permissions_direct sc db data_scope_type role = both_datas sc db role

-- What dbcache.Try answers for a key, given what the loader would.
abbrev pub Fetch : Type 0
Fetch =
    Bytes → Result RoleError (List Bytes × List Bytes) → Result RoleError (List Bytes × List Bytes)

abbrev pub permissions_key : Bytes → Bytes → Bytes
permissions_key tenant role = codes "role:permissions:" ++ tenant ++ codes ":" ++ role

-- The fields of the response that the type asks for.
unfoldable pub response_of : PermissionType → List Bytes × List Bytes → List Bytes × List Bytes
response_of menu_type (menus, apis) = (menus, [])
response_of api_type (menus, apis) = ([], apis)
response_of unspecified (menus, apis) = (menus, apis)
response_of button_type (menus, apis) = (menus, apis)
response_of data_scope_type (menus, apis) = (menus, apis)

module _ (grants_cacher : Option Fetch) (sc : Scope) (db : Tables) (tenant : Bytes) where
  abbrev pub cached_permissions :
      PermissionType → Bytes → Result RoleError (List Bytes × List Bytes)
  cached_permissions type role = elim grants_cacher [
    | none ↦ role_permissions_direct sc db type role
    | some fetch ↦ elim (fetch (permissions_key tenant role) (both_datas sc db role)) [
      | err e ↦ err e
      | ok both ↦ ok (response_of type both)
    ]
  ]

  -- `RolePermissions`, with the tenant of the claims, which is empty where there are none.
  unfoldable pub role_permissions :
      Option ℕ → PermissionType → Bytes → Result RoleError (List Bytes × List Bytes)
  role_permissions (some e) type role = err (request_error e)
  role_permissions none button_type role = ok ([], [])
  role_permissions none data_scope_type role = ok ([], [])
  role_permissions none menu_type role = cached_permissions menu_type role
  role_permissions none api_type role = cached_permissions api_type role
  role_permissions none unspecified role = cached_permissions unspecified role
