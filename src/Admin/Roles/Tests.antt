-- ===== src/Admin/Roles/Tests.antt =====
-- The grants and the cascades at concrete inputs.
use aeus.Common.{
  Bytes, codes, Bool, true, false, List, [], ◌∷◌, ◌++◌, map, ◌=ᵇ◌, none, some, ok, err, ◌≡◌, refl,
}
use aeus.Admin.TenantScope.{Scope, tenant_clause, in_scope, forced_tenant, query, delete}
use aeus.Admin.Permission.Checker.{Caller, GrantRow, member, load_grants}
use aeus.Admin.Roles.Defs.{
  managed_automatically, missing_menus, Tables, distinct, missing_values, selected,
  missing_data_values, tenant_of_new, grant_rows, replace_permissions, grant_missing_permissions,
  replace_for, replace_role_permissions,
}
use aeus.Admin.Roles.Reads.{unspecified, Fetch, role_permissions}
use aeus.Admin.Roles.Replace.{load_grants-replace_permissions}
use aeus.Admin.Roles.Outcome.{Outcome, replace_role_permissions-Outcome}
use aeus.Admin.Roles.Cascade.{
  StoredRole, Member, Linked, Store, Change, dest_key, new_key_of, moved_grant, moved_member,
  rename, purge, renamed, cascade, before_update_role, after_delete_role,
}
use aeus.Admin.Roles.Moves.{holder, Renames, before_update_role-keeps_grants}
use aeus.Admin.Roles.Detached.{Detached, after_delete_role-Detached}
use aeus.Admin.Roles.Converged.{Converged, grant_missing_permissions-Converged}
use aeus.Admin.Roles.ReadBack.{role_permissions-replace_permissions}

abbrev grant_of : Bytes → Bytes → Bytes → Bytes → GrantRow
grant_of tenant role kind value = record {
  role_key = role;
  tenant_id = tenant;
  type = kind;
  code = value;
}

abbrev tables : Tables
tables = record {
  grants =
      grant_of (codes "t1") (codes "ops") (codes "permission") (codes "GET /old")
      ∷ grant_of (codes "t2") (codes "ops") (codes "permission") (codes "GET /old")
      ∷ [];
  roles =
      record { key = codes "ops"; tenant_id = codes "t1"; is_super = false }
      ∷ record { key = codes "root"; tenant_id = codes "t1"; is_super = true }
      ∷ [];
  components = codes "Home" ∷ [];
  permissions = codes "GET /old" ∷ codes "GET /new" ∷ [];
  failure = λ which. none;
}

abbrev in_t1 : Scope
in_t1 = record { installed = true; bypassed = false; resolved = codes "t1" }

abbrev unscoped : Scope
unscoped = record { installed = false; bypassed = false; resolved = [] }

abbrev replaced : List GrantRow
replaced =
    grant_of (codes "t2") (codes "ops") (codes "permission") (codes "GET /old")
    ∷ grant_of (codes "t1") (codes "ops") (codes "menu") (codes "Home")
    ∷ grant_of (codes "t1") (codes "ops") (codes "permission") (codes "GET /new")
    ∷ []

replaces :
    replace_permissions in_t1 tables
      (codes "ops")
      (codes "Home" ∷ [])
      (codes "GET /new" ∷ [])
      (codes "t1")
    ≡ ok replaced
unfolding replace_permissions delete in_scope tenant_clause grant_rows tenant_of_new forced_tenant
    ◌=ᵇ◌
replaces = refl

-- Without a scope, the grants that a role of the same key has in another tenant go too.
loses_other_tenant : replace_permissions unscoped tables (codes "ops") [] [] (codes "t1") ≡ ok []
unfolding replace_permissions delete in_scope tenant_clause ◌=ᵇ◌
loses_other_tenant = refl

-- A super role is refused, and so is a menu that is in no row.
refuses_super :
    replace_role_permissions in_t1 tables none (codes "root") [] []
    ≡ (err managed_automatically, tables.grants)
unfolding replace_role_permissions replace_for query in_scope tenant_clause ◌=ᵇ◌
refuses_super = refl

refuses_unknown :
    replace_role_permissions in_t1 tables none (codes "ops") (codes "Away" ∷ []) []
    ≡ (err (missing_menus (codes "Away" ∷ [])), tables.grants)
unfolding replace_role_permissions replace_for missing_data_values missing_values selected member
    query in_scope tenant_clause ◌=ᵇ◌
refuses_unknown = refl

abbrev as_ops : Bytes → Caller
as_ops tenant = record { role = codes "ops"; tenant_id = tenant }

loads_replaced : load_grants (as_ops (codes "t1")) replaced ≡ codes "GET /new" ∷ []
unfolding in_scope tenant_clause tenant_of_new forced_tenant ◌=ᵇ◌
loads_replaced =
    load_grants-replace_permissions in_t1 tables (codes "ops") (codes "Home" ∷ [])
      (codes "GET /new" ∷ []) (codes "t1") replaced replaces (as_ops (codes "t1"))

replace_role_permissions-Outcome_example :
    Outcome in_t1 tables (codes "ops") (codes "Home" ∷ []) (codes "GET /new" ∷ []) (
      replace_role_permissions in_t1 tables none
        (codes "ops")
        (codes "Home" ∷ [])
        (codes "GET /new" ∷ []))
replace_role_permissions-Outcome_example =
    replace_role_permissions-Outcome in_t1 tables (codes "ops") (codes "Home" ∷ [])
      (codes "GET /new" ∷ []) none

-- A cache that has no entry.
abbrev reloading : Fetch
reloading key loaded = loaded

role_permissions-replace_permissions_example :
    role_permissions
      (some reloading)
      in_t1
      (record tables { grants = replaced })
      (codes "t1")
      none
      unspecified
      (codes "ops")
    ≡ ok (distinct (codes "Home" ∷ []), distinct (codes "GET /new" ∷ []))
role_permissions-replace_permissions_example =
    role_permissions-replace_permissions in_t1 tables (codes "ops") (codes "Home" ∷ [])
      (codes "GET /new" ∷ []) (codes "t1") replaced reloading (codes "t1") replaces refl refl refl
      unspecified

abbrev healed : List GrantRow
healed =
    tables.grants
    ++ grant_of (codes "t1") (codes "ops") (codes "menu") (codes "Home")
      ∷ grant_of (codes "t1") (codes "ops") (codes "permission") (codes "GET /new")
      ∷ []

heals :
    grant_missing_permissions unscoped tables
      (codes "ops")
      (codes "t1")
      (codes "Home" ∷ [])
      (codes "GET /old" ∷ codes "GET /new" ∷ [])
    ≡ ok healed
unfolding grant_missing_permissions missing_values member query in_scope tenant_clause grant_rows
    tenant_of_new forced_tenant ◌=ᵇ◌
heals = refl

anywhere : in_scope unscoped (codes "t1") ≡ true
unfolding in_scope tenant_clause
anywhere = refl

filled_t1 : (codes "t1" =ᵇ []) ≡ false
unfolding ◌=ᵇ◌
filled_t1 = refl

grant_missing_permissions-Converged_example :
    Converged unscoped tables
      (codes "ops")
      (codes "t1")
      (codes "Home" ∷ [])
      (codes "GET /old" ∷ codes "GET /new" ∷ [])
      anywhere
      healed
grant_missing_permissions-Converged_example =
    grant_missing_permissions-Converged unscoped tables (codes "ops") (codes "t1")
      (codes "Home" ∷ []) (codes "GET /old" ∷ codes "GET /new" ∷ []) anywhere healed filled_t1 heals

abbrev ops : StoredRole
ops = record { id = 4; key = codes "ops"; tenant_id = codes "t1" }

abbrev ann : Member
ann = record { uid = codes "u7"; role_key = codes "ops"; tenant_id = codes "t1" }

abbrev bob : Member
bob = record { uid = codes "u8"; role_key = codes "ops"; tenant_id = codes "t2" }

abbrev linked : Linked
linked = record { grants = tables.grants; users = ann ∷ bob ∷ [] }

abbrev stored : Store
stored = record { linked = linked; roles = ops ∷ []; failure = λ which. none }

abbrev to_crew : Bool → Change
to_crew gone = record {
  key_changed = false;
  deleted_changed = gone;
  quoted_key = some (codes "crew");
  plain_key = none;
}

abbrev crew : Linked
crew = record {
  grants =
      grant_of (codes "t1") (codes "crew") (codes "permission") (codes "GET /old")
      ∷ grant_of (codes "t2") (codes "ops") (codes "permission") (codes "GET /old")
      ∷ [];
  users = record ann { role_key = codes "crew" } ∷ bob ∷ [];
}

renames_ops : before_update_role unscoped stored (to_crew false) ops ≡ ok crew
unfolding before_update_role cascade renamed rename moved_grant moved_member dest_key new_key_of
    query in_scope tenant_clause ◌=ᵇ◌
renames_ops = refl

-- An update that renames the role and marks it as deleted moves the references to the new key, and then
-- looks for them under the old one.
survives : before_update_role unscoped stored (to_crew true) ops ≡ ok crew
unfolding before_update_role cascade renamed rename purge delete moved_grant moved_member dest_key
    new_key_of query in_scope tenant_clause ◌=ᵇ◌
survives = refl

to_crew-Renames : Renames unscoped stored (to_crew false) ops ops
unfolding dest_key new_key_of query in_scope tenant_clause ◌=ᵇ◌
to_crew-Renames = record {
  role_found = refl;
  tenanted = refl;
  changes = refl;
  filled = refl;
  different = refl;
  stays = refl;
}

none_for_crew : load_grants (holder (codes "crew") (codes "t1")) tables.grants ≡ []
unfolding load_grants ◌=ᵇ◌
none_for_crew = refl

before_update_role-keeps_grants_example :
    crew.users ≡ map (moved_member unscoped (codes "ops") (codes "t1") (codes "crew")) linked.users
unfolding new_key_of dest_key ◌=ᵇ◌
before_update_role-keeps_grants_example =
    (before_update_role-keeps_grants unscoped stored (to_crew false) ops ops crew to_crew-Renames
      renames_ops none_for_crew).0

abbrev gone : Linked
gone = record {
  grants = grant_of (codes "t2") (codes "ops") (codes "permission") (codes "GET /old") ∷ [];
  users = record ann { role_key = [] } ∷ bob ∷ [];
}

deletes_ops : after_delete_role unscoped stored ops ≡ ok gone
unfolding after_delete_role delete moved_member in_scope tenant_clause ◌=ᵇ◌
deletes_ops = refl

filled_ops : (codes "ops" =ᵇ []) ≡ false
unfolding ◌=ᵇ◌
filled_ops = refl

after_delete_role-Detached_example : Detached unscoped ops linked gone
after_delete_role-Detached_example =
    after_delete_role-Detached unscoped stored ops gone filled_ops filled_t1 deletes_ops
