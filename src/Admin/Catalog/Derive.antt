-- ===== src/Admin/Catalog/Derive.antt =====
-- permissionScenarios, permissionCode, ensureEndpointPermissions and ensurePermissionRows of
-- admin/derive.go, without AutoMigrate. A resource of rest/v3 is what the code asks of it; `canonical` is
-- the list of the scenarios of rest/v3 that _canonicalPermissionScenarios names, and `verb` the table
-- of Chinese words of scenarioCNLabel.
use aeus.Common.{
  Bytes, codes, Bool, ◌&&◌, not, List, [], ◌∷◌, ◌++◌, if◌then◌else◌, ◌=ᵇ◌, any, byte_is, Option,
  none, some,
}
use aeus.Admin.Permission.Checker.{permission_type_api}
use aeus.Admin.Catalog.Defs.{
  Permission, lookup_failed, back_fill_failed, Faults, Outcome, and_then, new_row, create_row,
}

-- `rest.Resource`, with the interfaces that its model may implement.
pub record Resource : Type 0 where
  pub module_name : Bytes
  pub table_name : Bytes
  pub build_uri : Bytes → Bytes × Bytes
  pub has_scenario : Bytes → Bool
  pub scenarios : Option (List Bytes)
  pub menu_name : Option Bytes
  pub permission_group : Option Bytes

unfoldable pub mounted : Resource → List Bytes → List Bytes
mounted r [] = []
mounted r (s ∷ more) = if r.has_scenario s then s ∷ mounted r more else mounted r more

-- `permissionScenarios`.
unfoldable pub permission_scenarios : List Bytes → Resource → List Bytes
permission_scenarios canonical r = elim (r.scenarios) [
  | some declared ↦ declared
  | none ↦ mounted r canonical
]

abbrev pub named_or : Option Bytes → Bytes → Bytes
named_or none other = other
named_or (some name) other = if name =ᵇ [] then other else name

-- `permissionResourceLabel`.
unfoldable pub permission_resource_label : Resource → Bytes
permission_resource_label r = named_or r.menu_name (
    if r.module_name =ᵇ []
    then r.table_name
    else if r.table_name =ᵇ []
    then r.table_name
    else r.module_name ++ codes "/" ++ r.table_name)

-- `permissionGroup`.
unfoldable pub permission_group_of : Resource → Bytes
permission_group_of r = named_or r.permission_group (permission_resource_label r)

-- A row to be: its code, its description and its group.
pub record Entry : Type 0 where
  pub code : Bytes
  pub description : Bytes
  pub group : Bytes

abbrev pub rooted : Bytes → Bytes
rooted uri = if byte_is uri 0 b'/' then uri else b'/' ∷ uri

-- `permissionCode`.
unfoldable pub permission_code : (Bytes → Bytes) → Resource → Bytes → Entry
permission_code verb r scenario =
    let built = r.build_uri scenario in
    if built.1 =ᵇ [] then record { code = []; description = []; group = [] } else record {
      code = built.0 ++ codes " " ++ rooted built.1;
      description = verb scenario ++ codes " " ++ permission_resource_label r;
      group = permission_group_of r;
    }

abbrev pub has_code : Bytes → Permission → Bool
has_code code r = r.code =ᵇ code

-- `Where("data = ?", code).First(&existing)`, deleted or not.
unfoldable pub first_code : Bytes → List Permission → Option Permission
first_code code [] = none
first_code code (r ∷ t) = if r.code =ᵇ code then some r else first_code code t

-- The update of the group of that row, which gorm keeps from a deleted one.
unfoldable pub fill_group : Bytes → Bytes → List Permission → List Permission
fill_group code group [] = []
fill_group code group (r ∷ t) =
    if not (r.code =ᵇ code)
    then r ∷ fill_group code group t
    else if r.deleted
    then r ∷ t
    else record r { group = group } ∷ t

abbrev pub overridden : Option (List Bytes) → List Bytes → List Bytes
overridden none scenarios = scenarios
overridden (some scenarios) _ = scenarios

module _ (F : Faults) where
  -- One entry of the table of endpoints.
  unfoldable pub ensure_endpoint_code : Entry → List Permission → Outcome
  ensure_endpoint_code e t = elim (F.find_code e.code) [
    | some x ↦ (some (lookup_failed e.code x), t)
    | none ↦
        if any (has_code e.code) t
        then (none, t)
        else create_row F (new_row permission_type_api e.code e.description e.group) t
  ]

  -- `ensureEndpointPermissions` of the server, over its table of codes.
  unfoldable pub ensure_endpoint_codes : List Entry → List Permission → Outcome
  ensure_endpoint_codes [] t = (none, t)
  ensure_endpoint_codes (e ∷ es) t = and_then (ensure_endpoint_code e t) (ensure_endpoint_codes es)

  -- A row that is there: its group is filled in if it is empty.
  abbrev pub back_fill : Entry → Permission → List Permission → Outcome
  back_fill e existing t =
      if (existing.group =ᵇ []) && not (e.group =ᵇ [])
      then elim (F.update e.code) [
        | some x ↦ (some (back_fill_failed e.code x), t)
        | none ↦ (none, fill_group e.code e.group t)
      ]
      else (none, t)

  -- The turn of the loop for one scenario.
  unfoldable pub ensure_permission_row : Entry → List Permission → Outcome
  ensure_permission_row e t = if e.code =ᵇ [] then (none, t) else elim (F.find_code e.code) [
    | some x ↦ (some (lookup_failed e.code x), t)
    | none ↦ elim (first_code e.code t) [
      | some existing ↦ back_fill e existing t
      | none ↦ create_row F (new_row permission_type_api e.code e.description e.group) t
    ]
  ]

  unfoldable pub ensure_scenarios :
      (Bytes → Bytes) → Resource → List Bytes → List Permission → Outcome
  ensure_scenarios verb r [] t = (none, t)
  ensure_scenarios verb r (s ∷ more) t =
      and_then (ensure_permission_row (permission_code verb r s) t) (ensure_scenarios verb r more)

  -- `ensurePermissionRows`; the scenarios of the call, if there are any, replace the model's.
  unfoldable pub ensure_permission_rows :
      List Bytes → (Bytes → Bytes) → Resource → Option (List Bytes) → List Permission → Outcome
  ensure_permission_rows canonical verb r override_scenarios t =
      if r.module_name =ᵇ []
      then (none, t)
      else if r.table_name =ᵇ []
      then (none, t)
      else ensure_scenarios verb r
          (overridden override_scenarios (permission_scenarios canonical r)) t
