-- ===== src/Admin/Permission/Tests.antt =====
-- A checker with one catalogued route at concrete inputs.
use aeus.Common.{
  Bytes, codes, false, List, [], ◌∷◌, ◌=ᵇ◌, has_prefix, byte_is, none, some, ok, Any, ◌≡◌, ◌↔◌,
  refl,
}
use aeus.Auth.Allow.{match_pattern}
use aeus.Admin.Permission.Checker.{
  Caller, Request, GrantRow, Tables, CheckerConfig, permission_denied, permission_type_api,
  role_permission_type_permission, http_protocol, has_suffix, member, match_from,
  is_infrastructure_path, route_of, code_of, load_catalog, load_grants, Fetch, check_grant,
  check_catalog, check,
}
use aeus.Admin.Permission.Decision.{Allowed, check-none_iff}
use aeus.Admin.Permission.Closed.{
  Catalogued, Grants, check-fails_closed, own_grants, check-own_grants,
}

abbrev ops : Caller
ops = record { role = codes "ops"; tenant_id = codes "t1" }

abbrev delete_user : Request
delete_user = record {
  protocol = some http_protocol;
  method = codes "DELETE";
  path = codes "/users/7";
  route = some (codes "/users/:id");
}

abbrev config : CheckerConfig
config = record {
  allowlist =
      record { method = codes "GET"; pattern = codes "/user/*" }
      ∷ record { method = []; pattern = codes "/open" }
      ∷ [];
  fail_open = false;
}

abbrev grant_in : Bytes → GrantRow
grant_in tenant_id = record {
  role_key = codes "ops";
  tenant_id = tenant_id;
  type = role_permission_type_permission;
  code = codes "DELETE /users/:id";
}

abbrev tables_with : List GrantRow → Tables
tables_with grants = record {
  permissions = record { type = permission_type_api; code = codes "DELETE /users/:id" } ∷ [];
  grants = grants;
}

-- Caches that are always fresh.
abbrev direct : Fetch
direct = λ key loaded. ok loaded

check-none_iff_example :
    (check config direct (tables_with []) delete_user (some ops) ≡ none)
    ↔ Allowed config direct (tables_with []) delete_user (some ops)
check-none_iff_example = check-none_iff config direct (tables_with []) delete_user (some ops)

-- Without a grant the request is denied.
denies : check config direct (tables_with []) delete_user (some ops) ≡ some permission_denied
unfolding check check_catalog check_grant member match_from is_infrastructure_path has_suffix
    has_prefix route_of code_of load_catalog load_grants match_pattern byte_is ◌=ᵇ◌
denies = refl

check-fails_closed_example :
    Any (Catalogued (code_of delete_user)) (tables_with (grant_in (codes "t1") ∷ [])).permissions
    × Any (Grants ops (code_of delete_user)) (tables_with (grant_in (codes "t1") ∷ [])).grants
unfolding check check_catalog check_grant member match_from is_infrastructure_path has_suffix
    has_prefix route_of code_of load_catalog load_grants match_pattern byte_is ◌=ᵇ◌
check-fails_closed_example =
    check-fails_closed config direct (tables_with (grant_in (codes "t1") ∷ [])) delete_user ops
      (λ key loaded. refl) refl refl refl refl refl

check-own_grants_example :
    check config direct (tables_with []) delete_user (some ops)
    ≡ check config direct (tables_with (grant_in (codes "t2") ∷ [])) delete_user (some ops)
unfolding own_grants ◌=ᵇ◌
check-own_grants_example =
    check-own_grants config direct (tables_with []) (tables_with (grant_in (codes "t2") ∷ [])) ops
      delete_user refl refl
