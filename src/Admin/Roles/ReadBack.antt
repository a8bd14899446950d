-- ===== src/Admin/Roles/ReadBack.antt =====
-- That `RolePermissions` of admin/service/role.go reads what `ReplacePermissions` wrote.
use aeus.Common.{
  Bytes, true, List, [], ◌∷◌, ◌++◌, append-nil, map, if◌then◌else◌, ◌=ᵇ◌, =ᵇ_refl, none, some, ok,
  ◌≡◌, refl, ap, ◌∙◌, arith,
}
use aeus.Admin.TenantScope.{Scope, in_scope, query, query-append, delete}
use aeus.Admin.Permission.Checker.{GrantRow, role_permission_type_permission}
use aeus.Admin.Roles.Defs.{
  read_menus, read_apis, Tables, role_permission_type_menu, grant_tenant, distinct, has_type,
  permission_datas, tenant_of_new, grant_rows, new_grants, replace_permissions,
}
use aeus.Admin.Roles.Reads.{
  PermissionType, unspecified, menu_type, button_type, api_type, data_scope_type, both_datas, Fetch,
  permissions_key, response_of, role_permissions,
}
use aeus.Admin.Roles.Replace.{tenant_of_new-in_scope, replace_permissions-rows}

-- The parts of both lists that a request of a type asks for.
abbrev pub shown : PermissionType → List Bytes → List Bytes → List Bytes × List Bytes
shown unspecified menus apis = (menus, apis)
shown menu_type menus apis = (menus, [])
shown button_type menus apis = ([], [])
shown api_type menus apis = ([], apis)
shown data_scope_type menus apis = ([], [])

codes_of : List GrantRow → List Bytes
codes_of rows = map (λ r. r.code) rows

map-append : (xs ys : List GrantRow) → codes_of (xs ++ ys) ≡ codes_of xs ++ codes_of ys
unfolding codes_of
map-append [] ys = refl
map-append (x ∷ xs) ys = ground (arith, map-append xs ys)

module _ (sc : Scope) (key type : Bytes) where
  query-delete_role :
      (rows : List GrantRow)
      → query grant_tenant sc
          (has_type key type)
          (delete grant_tenant sc (λ r. r.role_key =ᵇ key) rows)
        ≡ []
  unfolding query delete
  query-delete_role [] = refl
  query-delete_role (r ∷ rows) = ground (arith, query-delete_role rows)

  query-grant_rows :
      (tenant kind : Bytes) (values : List Bytes)
      → in_scope sc tenant ≡ true
      → codes_of (query grant_tenant sc (has_type key type) (grant_rows tenant key kind values))
        ≡ (if kind =ᵇ type then values else [])
  unfolding query grant_rows codes_of
  query-grant_rows tenant kind [] s = ground arith
  query-grant_rows tenant kind (n ∷ values) s =
      ground (arith, s, =ᵇ_refl key, query-grant_rows tenant kind values s)

  -- The values of a type that the rows of a replacement have.
  codes-replaced :
      (rows : List GrantRow) (tenant : Bytes) (menus perms : List Bytes)
      → codes_of (
          query grant_tenant sc (has_type key type) (
            delete grant_tenant sc (λ r. r.role_key =ᵇ key) rows
            ++ new_grants sc key tenant menus perms))
        ≡ (if role_permission_type_menu =ᵇ type then menus else [])
          ++ (if role_permission_type_permission =ᵇ type then perms else [])
  codes-replaced rows tenant menus perms =
      let at : Bytes = tenant_of_new sc tenant in
      let menu_rows : List GrantRow = grant_rows at key role_permission_type_menu menus in
      let perm_rows : List GrantRow = grant_rows at key role_permission_type_permission perms in
      let left : List GrantRow = delete grant_tenant sc (λ r. r.role_key =ᵇ key) rows in
      let s = tenant_of_new-in_scope sc tenant in
      ap codes_of (
        query-append grant_tenant sc (has_type key type) left (menu_rows ++ perm_rows)
        ∙ ap (λ q. q ++ query grant_tenant sc (has_type key type) (menu_rows ++ perm_rows))
            (query-delete_role rows)
        ∙ query-append grant_tenant sc (has_type key type) menu_rows perm_rows)
      ∙ map-append (query grant_tenant sc (has_type key type) menu_rows)
          (query grant_tenant sc (has_type key type) perm_rows)
      ∙ ap (λ q. q ++ codes_of (query grant_tenant sc (has_type key type) perm_rows))
          (query-grant_rows at role_permission_type_menu menus s)
      ∙ ap (λ q. (if role_permission_type_menu =ᵇ type then menus else []) ++ q)
          (query-grant_rows at role_permission_type_permission perms s)

module _ (sc : Scope) (db : Tables) (key : Bytes) (menus perms : List Bytes) (tenant : Bytes)
    (grants : List GrantRow) where
  permission_datas-replaced :
      (type : Bytes)
      → replace_permissions sc db key menus perms tenant ≡ ok grants
      → permission_datas type sc (record db { grants = grants }) key
        ≡ distinct (
            (if role_permission_type_menu =ᵇ type then menus else [])
            ++ (if role_permission_type_permission =ᵇ type then perms else []))
  unfolding permission_datas codes_of
  permission_datas-replaced type h = ap distinct (
      ap (λ g. codes_of (query grant_tenant sc (has_type key type) g))
        (replace_permissions-rows sc db key menus perms tenant grants h)
      ∙ codes-replaced sc key type db.grants tenant menus perms)

  menus_read :
      replace_permissions sc db key menus perms tenant ≡ ok grants
      → permission_datas role_permission_type_menu sc (record db { grants = grants }) key
        ≡ distinct menus
  unfolding ◌=ᵇ◌
  menus_read h =
      permission_datas-replaced role_permission_type_menu h ∙ ap distinct (append-nil menus)

  perms_read :
      replace_permissions sc db key menus perms tenant ≡ ok grants
      → permission_datas role_permission_type_permission sc (record db { grants = grants }) key
        ≡ distinct perms
  unfolding ◌=ᵇ◌
  perms_read h = permission_datas-replaced role_permission_type_permission h

  -- Once the grants of a role have been replaced, a valid request for them in the same scope, where the
  -- cache of the service answers with what its loader reads (it may hold an older answer for a while)
  -- and both queries succeed, is given the menus and the permissions that were written, each value once,
  -- of the types that it asks for.
  pub role_permissions-replace_permissions :
      (fetch : Fetch) (caller : Bytes)
      → replace_permissions sc db key menus perms tenant ≡ ok grants
      → db.failure read_menus ≡ none
      → db.failure read_apis ≡ none
      → fetch (permissions_key caller key) (both_datas sc (record db { grants = grants }) key)
        ≡ both_datas sc (record db { grants = grants }) key
      → (type : PermissionType)
      → role_permissions (some fetch) sc (record db { grants = grants }) caller none type key
        ≡ ok (shown type (distinct menus) (distinct perms))
  unfolding role_permissions both_datas response_of
  role_permissions-replace_permissions fetch caller h m a f unspecified =
      ground (arith, m, a, f, menus_read h, perms_read h)
  role_permissions-replace_permissions fetch caller h m a f menu_type =
      ground (arith, m, a, f, menus_read h, perms_read h)
  role_permissions-replace_permissions fetch caller h m a f button_type = refl
  role_permissions-replace_permissions fetch caller h m a f api_type =
      ground (arith, m, a, f, menus_read h, perms_read h)
  role_permissions-replace_permissions fetch caller h m a f data_scope_type = refl
