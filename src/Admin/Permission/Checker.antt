-- ===== src/Admin/Permission/Checker.antt =====
-- The function that `NewPermissionChecker` of admin/permission.go gives. A key of the metadata that
-- is missing reads as the empty text, except where the code asks whether it is there. The two caches
-- are a function `fetch`: what dbcache.Try answers for a key, given what the loader would.
use aeus.Common.{
  ℕ, ◌-◌, Bytes, codes, Bool, true, false, not, ◌&&◌, List, [], ◌∷◌, ◌++◌, ltb, if◌then◌else◌, ◌=ᵇ◌,
  has_prefix, Option, none, some, Result, ok, err, drop, length,
}
use aeus.Auth.Allow.{match_pattern}

-- `auth.Claims`, as far as the checker reads it.
pub record Caller : Type 0 where
  pub role : Bytes
  pub tenant_id : Bytes

-- The metadata that describes the request.
pub record Request : Type 0 where
  pub protocol : Option Bytes
  pub method : Bytes
  pub path : Bytes
  pub route : Option Bytes

-- The live rows of sys_permissions and of sys_role_permissions, by the columns that are
-- read; `code` is the column data.
pub record PermissionRow : Type 0 where
  pub type : Bytes
  pub code : Bytes

pub record GrantRow : Type 0 where
  pub role_key : Bytes
  pub tenant_id : Bytes
  pub type : Bytes
  pub code : Bytes

pub record Tables : Type 0 where
  pub permissions : List PermissionRow
  pub grants : List GrantRow

-- `allowEntry`; the empty method stands for any.
pub record AllowEntry : Type 0 where
  pub method : Bytes
  pub pattern : Bytes

-- `checkerConfig`, without the shared cache.
pub record CheckerConfig : Type 0 where
  pub allowlist : List AllowEntry
  pub fail_open : Bool

pub data Denial : Type 0 where
  access_denied permission_denied : Denial
  passed_on : ℕ → Denial

-- `models.PermissionTypeAPI`.
abbrev pub permission_type_api : Bytes
permission_type_api = codes "api"

-- `models.RolePermissionTypePermission`.
abbrev pub role_permission_type_permission : Bytes
role_permission_type_permission = codes "permission"

abbrev pub http_protocol : Bytes
http_protocol = codes "http"

-- `m[key]` of a set that a slice filled.
unfoldable pub member : Bytes → List Bytes → Bool
member x [] = false
member x (y ∷ ys) = if y =ᵇ x then true else member x ys

-- The loop of `pathMatcher.match`.
unfoldable pub match_from : Bool → List AllowEntry → Bytes → Bytes → Bool
match_from wildcard_hit [] method path = wildcard_hit
match_from wildcard_hit (e ∷ m) method path =
    let skipped = match_from wildcard_hit m method path in
    let with_hit = match_from true m method path in
    if e.method =ᵇ []
    then (if match_pattern e.pattern path then with_hit else skipped)
    else if e.method =ᵇ method
    then (if match_pattern e.pattern path then true else skipped)
    else skipped

-- `pathMatcher.match`.
abbrev pub path_match : List AllowEntry → Bytes → Bytes → Bool
path_match m method path = match_from false m method path

-- `strings.HasSuffix`.
unfoldable pub has_suffix : Bytes → Bytes → Bool
has_suffix s suffix =
    if ltb (length s) (length suffix) then false else drop (length s - length suffix) s =ᵇ suffix

-- `isInfrastructurePath`.
unfoldable pub is_infrastructure_path : Bytes → Bool
is_infrastructure_path path =
    if path =ᵇ []
    then true
    else if member path (codes "/health" ∷ codes "/ready" ∷ codes "/metrics" ∷ codes "/mcp" ∷ [])
    then true
    else if has_prefix path (codes "/mcp/")
    then true
    else has_suffix path (codes "/openapi.json")

-- `RequestRoute`, or the path where it is not set.
unfoldable pub route_of : Request → Bytes
route_of q = elim (q.route) [ none ↦ q.path | some route ↦ route ]

unfoldable pub code_of : Request → Bytes
code_of q = q.method ++ codes " " ++ route_of q

-- `Where("type = ?", api).Pluck("data", ...)`.
unfoldable pub load_catalog : List PermissionRow → List Bytes
load_catalog [] = []
load_catalog (row ∷ rows) =
    if row.type =ᵇ permission_type_api then row.code ∷ load_catalog rows else load_catalog rows

-- `Where("role_key = ? AND tenant_id = ? AND type = ?", ...)`.
abbrev pub is_grant : Caller → GrantRow → Bool
is_grant c row =
    (row.role_key =ᵇ c.role)
    && (row.tenant_id =ᵇ c.tenant_id)
    && (row.type =ᵇ role_permission_type_permission)

unfoldable pub load_grants : Caller → List GrantRow → List Bytes
load_grants c [] = []
load_grants c (row ∷ rows) =
    if is_grant c row then row.code ∷ load_grants c rows else load_grants c rows

abbrev pub catalog_key : Bytes
catalog_key = codes "perm:catalog"

abbrev pub grant_key : Caller → Bytes
grant_key c = codes "perm:grant:" ++ c.tenant_id ++ codes ":" ++ c.role

abbrev pub Fetch : Type 0
Fetch = Bytes → List Bytes → Result ℕ (List Bytes)

abbrev pub is_http : Option Bytes → Bool
is_http none = false
is_http (some p) = p =ᵇ http_protocol

module _ (cfg : CheckerConfig) (fetch : Fetch) (tables : Tables) where
  -- The grants of a route that is in the catalog.
  unfoldable pub check_grant : Caller → Bytes → Option Denial
  check_grant c code = elim (fetch (grant_key c) (load_grants c tables.grants)) [
    | err e ↦ some (passed_on e)
    | ok grant_set ↦ if member code grant_set then none else some Denial.permission_denied
  ]

  -- The catalog, and then the grants.
  unfoldable pub check_catalog : Caller → Bytes → Option Denial
  check_catalog c code = elim (fetch catalog_key (load_catalog tables.permissions)) [
    | err e ↦ some (passed_on e)
    | ok catalog_set ↦
        if member code catalog_set
        then check_grant c code
        else if cfg.fail_open
        then none
        else some Denial.permission_denied
  ]

  -- The checker: none, or the error. Claims of another type are `none`.
  unfoldable pub check : Request → Option Caller → Option Denial
  check q claims = if not (is_http q.protocol) then none else elim claims [
    | none ↦ some Denial.access_denied
    | some c ↦
        if is_infrastructure_path (route_of q)
        then none
        else if path_match cfg.allowlist q.method q.path
        then none
        else check_catalog c (code_of q)
  ]
