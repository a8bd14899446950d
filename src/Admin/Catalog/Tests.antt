-- ===== src/Admin/Catalog/Tests.antt =====
-- A catalog with one edited row, one without a group and one that is deleted.
use aeus.Common.{
  Bytes, codes, true, false, List, [], ◌∷◌, ◌++◌, ◌=ᵇ◌, upper, has_prefix, none, some, ok,
  if◌then◌else◌, ◌≡◌, refl,
}
use aeus.Admin.Permission.Checker.{
  Caller, Request, CheckerConfig, Denial, Fetch, permission_type_api, http_protocol, member,
  match_from, is_infrastructure_path, has_suffix, route_of, code_of, load_grants, check,
}
use aeus.Admin.Catalog.Defs.{
  Permission, Policy, permission, Faults, ensure_permission, ensure_policy,
  ensure_endpoint_permissions, live_rows,
}
use aeus.Admin.Catalog.Ensures.{Ensures}
use aeus.Admin.Catalog.Registered.{Registered, ensure_endpoint_permissions-Ensures}
use aeus.Admin.Catalog.Enforced.{check-ensure_endpoint_permissions}
use aeus.Admin.Catalog.Derive.{Resource, permission_code, ensure_permission_rows}
use aeus.Admin.Catalog.Kept.{Keeps, Catalogued, ensure_permission_rows-Keeps}

abbrev sound : Faults
sound = record {
  find_typed = λ type code. none;
  find_code = λ code. none;
  create = λ row. none;
  update = λ code. none;
}

abbrev row : Bytes → Bytes → Permission
row code group = record {
  type = permission_type_api;
  code = code;
  description = codes "edited";
  group = group;
  deleted = false;
}

abbrev table : List Permission
table = row (codes "GET /a") (codes "A") ∷ row (codes "POST /b") [] ∷ []

abbrev orders : Policy
orders = record {
  method = codes "get";
  path = codes "/orders/:id";
  button = codes "order.view";
  group = codes "shop";
  description = codes "orders";
  is_public = false;
}

abbrev sign_in : Policy
sign_in = record orders { path = codes "/login"; is_public = true }

abbrev orders_row : Permission
orders_row = record {
  type = permission_type_api;
  code = codes "GET /orders/:id";
  description = codes "orders";
  group = codes "shop";
  deleted = false;
}

abbrev button_row : Permission
button_row = record orders_row { type = codes "button"; code = codes "order.view" }

registers :
    ensure_endpoint_permissions sound (sign_in ∷ orders ∷ []) table
    ≡ (none, table ++ orders_row ∷ button_row ∷ [])
unfolding ensure_endpoint_permissions ensure_policy ensure_permission permission upper ◌=ᵇ◌
registers = refl

ensure_endpoint_permissions-Ensures_example :
    Ensures
      (ensure_endpoint_permissions sound (sign_in ∷ orders ∷ []))
      (λ z. Registered sign_in z × (Registered orders z × Unit))
      table
ensure_endpoint_permissions-Ensures_example =
    ensure_endpoint_permissions-Ensures sound (sign_in ∷ orders ∷ []) table

abbrev request : Request
request = record {
  protocol = some http_protocol;
  method = codes "GET";
  path = codes "/orders/7";
  route = some (codes "/orders/:id");
}

abbrev caller : Caller
caller = record { role = codes "guest"; tenant_id = codes "t1" }

abbrev open_config : CheckerConfig
open_config = record { allowlist = []; fail_open = true }

abbrev uncached : Fetch
uncached key values = ok values

check-ensure_endpoint_permissions_example :
    check open_config uncached
      (record { permissions = live_rows (table ++ orders_row ∷ button_row ∷ []); grants = [] })
      request
      (some caller)
    ≡ some Denial.permission_denied
unfolding permission upper ◌=ᵇ◌ route_of code_of is_infrastructure_path member has_prefix has_suffix
    match_from load_grants
check-ensure_endpoint_permissions_example =
    check-ensure_endpoint_permissions sound (sign_in ∷ []) [] orders table
      (table ++ orders_row ∷ button_row ∷ []) [] open_config uncached request caller registers refl
      refl ((λ _. refl), ((λ _. refl), ((λ _. refl), ((λ _. refl), tt)))) (λ key values. refl) refl
      refl refl refl

abbrev users : Resource
users = record {
  module_name = codes "system";
  table_name = codes "b";
  build_uri =
      λ s. if s =ᵇ codes "create" then (codes "POST", codes "b") else (codes "GET", codes "/c");
  has_scenario = λ s. true;
  scenarios = none;
  menu_name = some (codes "Users");
  permission_group = none;
}

abbrev scenarios : List Bytes
scenarios = codes "create" ∷ codes "search" ∷ []

ensure_permission_rows-Keeps_example :
    Keeps sound
      (λ u.
        Catalogued (permission_code (λ s. s) users (codes "create")) u
        × (Catalogued (permission_code (λ s. s) users (codes "search")) u × Unit))
      table
      (ensure_permission_rows sound [] (λ s. s) users (some scenarios) table)
unfolding ◌=ᵇ◌
ensure_permission_rows-Keeps_example =
    ensure_permission_rows-Keeps sound [] (λ s. s) users (some scenarios) table refl refl
