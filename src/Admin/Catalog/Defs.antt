-- ===== src/Admin/Catalog/Defs.antt =====
-- The rows of sys_permissions that admin/endpoint_permissions.go and admin/derive.go create, and the
-- policies of admin/policy/policy.go. The table is the list of its rows by id, with those that are
-- deleted (the code reads it Unscoped); the database is there, and its failures are a parameter.
use aeus.Common.{
  ℕ, Bytes, codes, Bool, false, ◌&&◌, List, [], ◌∷◌, ◌++◌, if◌then◌else◌, ◌=ᵇ◌, any, upper, Option,
  none, some,
}
use aeus.Admin.Permission.Checker.{PermissionRow, permission_type_api}

-- `models.Permission`.
pub record Permission : Type 0 where
  pub type : Bytes
  pub code : Bytes
  pub description : Bytes
  pub group : Bytes
  pub deleted : Bool

-- `models.PermissionTypeButton`.
abbrev pub permission_type_button : Bytes
permission_type_button = codes "button"

pub record Policy : Type 0 where
  pub method : Bytes
  pub path : Bytes
  pub button : Bytes
  pub group : Bytes
  pub description : Bytes
  pub is_public : Bool

-- `Permission` of a policy.
unfoldable pub permission : Policy → Bytes
permission p =
    if p.method =ᵇ []
    then []
    else if p.path =ᵇ []
    then []
    else upper p.method ++ codes " " ++ p.path

pub data CatalogError : Type 0 where
  lookup_failed create_failed back_fill_failed : (code : Bytes) → ℕ → CatalogError

-- The errors of the database: of a lookup by a type and a code, by a code alone, of an insert and of an
-- update.
pub record Faults : Type 0 where
  pub find_typed : Bytes → Bytes → Option ℕ
  pub find_code : Bytes → Option ℕ
  pub create : Permission → Option ℕ
  pub update : Bytes → Option ℕ

abbrev pub Outcome : Type 0
Outcome = Option CatalogError × List Permission

-- `if err := ...; err != nil { return err }`.
abbrev pub and_then : Outcome → (List Permission → Outcome) → Outcome
and_then (none, t) next = next t
and_then (some e, t) next = (some e, t)

abbrev pub is_typed : Bytes → Bytes → Permission → Bool
is_typed type code r = (r.type =ᵇ type) && (r.code =ᵇ code)

abbrev pub has_typed : Bytes → Bytes → List Permission → Bool
has_typed type code t = any (is_typed type code) t

abbrev pub new_row : Bytes → Bytes → Bytes → Bytes → Permission
new_row type code description group = record {
  type = type;
  code = code;
  description = description;
  group = group;
  deleted = false;
}

module _ (F : Faults) where
  abbrev pub create_row : Permission → List Permission → Outcome
  create_row r t = elim (F.create r) [
    | some e ↦ (some (create_failed r.code e), t)
    | none ↦ (none, t ++ r ∷ [])
  ]

  -- `ensurePermission`.
  unfoldable pub ensure_permission : Bytes → Bytes → Bytes → Bytes → List Permission → Outcome
  ensure_permission type code description group t =
      if code =ᵇ [] then (none, t) else elim (F.find_typed type code) [
        | some e ↦ (some (lookup_failed code e), t)
        | none ↦
            if has_typed type code t
            then (none, t)
            else create_row (new_row type code description group) t
      ]

  -- The rows of one policy.
  unfoldable pub ensure_policy : Policy → List Permission → Outcome
  ensure_policy p t =
      if p.is_public
      then (none, t)
      else and_then (ensure_permission permission_type_api (permission p) p.description p.group t)
          (ensure_permission permission_type_button p.button p.description p.group)

  -- `EnsureEndpointPermissions`.
  unfoldable pub ensure_endpoint_permissions : List Policy → List Permission → Outcome
  ensure_endpoint_permissions [] t = (none, t)
  ensure_endpoint_permissions (p ∷ policies) t =
      and_then (ensure_policy p t) (ensure_endpoint_permissions policies)

-- The rows that the permission checker reads.
unfoldable pub live_rows : List Permission → List PermissionRow
live_rows [] = []
live_rows (r ∷ t) =
    if r.deleted then live_rows t else record { type = r.type; code = r.code } ∷ live_rows t
