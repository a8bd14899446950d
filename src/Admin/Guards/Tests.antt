-- ===== src/Admin/Guards/Tests.antt =====
-- The guards at concrete inputs.
use aeus.Common.{Bytes, codes, true, false, List, [], ◌∷◌, ◌=ᵇ◌, none, some, ◌≡◌, refl, arith}
use aeus.Admin.TenantScope.{tenant_clause, in_scope, query}
use aeus.Admin.Guards.Defs.{
  UserRow, Tables, Request, find_target_role, user_target, Dest, columns, permission_denied,
  role_not_found, identity_in_use, find_user, find_role, ensure_login_identity_unique,
  updated_login_identity, updated_role_key, role_is_super, caller_is_super,
  ensure_caller_may_assign_role, guard_role_change, guard_user_update, guard_update, guard_delete,
}
use aeus.Admin.Guards.Identity.{count_holding, count_id, DistinctLogins, store_identity}
use aeus.Admin.Guards.Logins.{guard_user_update-DistinctLogins}
use aeus.Admin.Session.Model.{User, Db}

abbrev ann : UserRow
ann = record {
  id = 7;
  uid = codes "u7";
  username = codes "ann";
  role_key = codes "ops";
  tenant_id = [];
}

abbrev bob : UserRow
bob = record {
  id = 8;
  uid = codes "u8";
  username = codes "bob";
  role_key = codes "ops";
  tenant_id = [];
}

abbrev tables_with : List UserRow → Tables
tables_with users = record {
  users = users;
  roles =
      record { key = codes "ops"; tenant_id = []; is_super = false; builtin = false }
      ∷ record { key = codes "root"; tenant_id = []; is_super = true; builtin = true }
      ∷ [];
  failure = λ which. none;
}

abbrev by_ann : Request
by_ann = record {
  scope_user = codes "u7";
  scope = record { installed = false; bypassed = false; resolved = [] };
}

abbrev rename : Bytes → Dest
rename name = columns none (some name) none

ann_alone : DistinctLogins (tables_with (ann ∷ [])).users
unfolding count_holding
ann_alone value = ground arith

-- A name that is another user's uid is refused, and so is a promotion by a caller who is not super.
refuses_uid :
    guard_update by_ann (tables_with (ann ∷ bob ∷ [])) (user_target ann) (rename (codes "u8"))
    ≡ some identity_in_use
unfolding guard_update guard_user_update guard_role_change role_is_super caller_is_super
    ensure_login_identity_unique updated_login_identity updated_role_key find_user find_role query
    in_scope tenant_clause ◌=ᵇ◌
refuses_uid = refl

refuses_promotion :
    guard_update by_ann
      (tables_with (ann ∷ bob ∷ []))
      (user_target bob)
      (columns none none (some (codes "root")))
    ≡ some permission_denied
unfolding guard_update guard_user_update guard_role_change role_is_super caller_is_super
    ensure_login_identity_unique updated_login_identity updated_role_key find_user find_role query
    in_scope tenant_clause ◌=ᵇ◌
refuses_promotion = refl

-- The guard on the update of the users that follows a rename: the role under the new key is missing.
abbrev root_ann : Tables
root_ann = tables_with (record ann { role_key = codes "root" } ∷ [])

refuses_rename :
    guard_update by_ann root_ann
      (user_target (record { id = 0; uid = []; username = []; role_key = []; tenant_id = [] }))
      (columns none none (some (codes "crew")))
    ≡ some (role_not_found (codes "crew"))
unfolding guard_update guard_user_update guard_role_change role_is_super caller_is_super
    ensure_caller_may_assign_role ensure_login_identity_unique updated_login_identity
    updated_role_key find_user find_role query in_scope tenant_clause ◌=ᵇ◌
refuses_rename = refl

-- A role query that fails counts as a role that is not super, so the delete of a super user passes.
abbrev failing_tables : Tables
failing_tables = record (tables_with []) {
  failure = λ which. elim which [ find_target_role ↦ some 5 | _ ↦ none ];
}

passes_on_failure :
    guard_delete by_ann failing_tables (user_target (record ann { role_key = codes "root" })) ≡ none
unfolding guard_delete role_is_super caller_is_super find_user find_role query ◌=ᵇ◌
passes_on_failure = refl

guard_user_update-DistinctLogins_example :
    DistinctLogins
      (store_identity 7 (updated_login_identity (rename (codes "anna")) ann) (ann ∷ []))
unfolding count_id guard_user_update guard_role_change role_is_super caller_is_super
    ensure_login_identity_unique updated_login_identity updated_role_key find_user find_role query
    in_scope tenant_clause ◌=ᵇ◌
guard_user_update-DistinctLogins_example =
    guard_user_update-DistinctLogins by_ann (tables_with (ann ∷ [])) ann_alone ann
      (rename (codes "anna")) refl (omega arith) refl

abbrev login_view : UserRow → User
login_view u = record {
  uid = u.uid;
  username = u.username;
  password = codes "hash";
  role_key = u.role_key;
  tenant_id = u.tenant_id;
  status = [];
}

abbrev login_db : Db
login_db = record {
  users = login_view ann ∷ [];
  roles = [];
  tenants = [];
  has_tenants = false;
  failure = λ which. none;
}
