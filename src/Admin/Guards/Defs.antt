-- ===== src/Admin/Guards/Defs.antt =====
-- The guards of admin/security_guards.go, with `ensureCallerMayAssignRole` of admin/server.go. A
-- query goes through the tenant scope of the request and fails where `failure` says so.
use aeus.Common.{
  ℕ, ◌==◌, Bytes, Bool, false, not, ◌&&◌, ◌||◌, List, [], ◌∷◌, if◌then◌else◌, ◌=ᵇ◌, Option, none,
  some, Result, ok, err,
}
use aeus.Admin.TenantScope.{Scope, without_tenant, query}

-- The columns of sys_users and of sys_roles that the guards read.
pub record UserRow : Type 0 where
  pub id : ℕ
  pub uid : Bytes
  pub username : Bytes
  pub role_key : Bytes
  pub tenant_id : Bytes

pub record RoleRow : Type 0 where
  pub key : Bytes
  pub tenant_id : Bytes
  pub is_super : Bool
  pub builtin : Bool

pub data Query : Type 0 where
  find_caller find_caller_role find_target_role find_matches find_next_role : Query

pub record Tables : Type 0 where
  pub users : List UserRow
  pub roles : List RoleRow
  pub failure : Query → Option ℕ

-- The model of a statement, loaded or declared.
pub data Target : Type 0 where
  user_target : UserRow → Target
  role_target : RoleRow → Target
  other_target : Target

-- The values of an update: the columns of a map that hold a text, or a user.
pub data Dest : Type 0 where
  columns : (uid username role_key : Option Bytes) → Dest
  user_dest : UserRow → Dest
  other_dest : Dest

pub data GuardError : Type 0 where
  permission_denied identity_in_use role_key_required : GuardError
  role_not_found : Bytes → GuardError
  db_error : ℕ → GuardError

-- The context of a request: the user of its RuntimeScope, and the scope of its tenant.
pub record Request : Type 0 where
  pub scope_user : Bytes
  pub scope : Scope

-- `First`: the first row that a query reads; a failure gives its error.
abbrev pub head {ℓ} : {A : Type ℓ} → List A → Option A
head [] = none
head (row ∷ rows) = some row

abbrev pub user_tenant : UserRow → Bytes
user_tenant u = u.tenant_id

abbrev pub role_tenant : RoleRow → Bytes
role_tenant r = r.tenant_id

abbrev pub run {ℓ} : {A : Type ℓ} → Tables → Query → A → Result GuardError A
run db q rows = elim (db.failure q) [ none ↦ ok rows | some e ↦ err (db_error e) ]

module _ (q : Request) (db : Tables) where
  unfoldable pub find_user : Query → Bytes → Result GuardError (Option UserRow)
  find_user which uid = run db which (head (query user_tenant q.scope (λ u. u.uid =ᵇ uid) db.users))

  unfoldable pub find_role : Query → Bytes → Result GuardError (Option RoleRow)
  find_role which key = run db which (head (query role_tenant q.scope (λ r. r.key =ᵇ key) db.roles))

  -- A role that was found is super; a failure or a missing row is not.
  abbrev pub found_super : Result GuardError (Option RoleRow) → Bool
  found_super (err e) = false
  found_super (ok none) = false
  found_super (ok (some r)) = r.is_super

  -- `roleIsSuper`.
  unfoldable pub role_is_super : Bytes → Bool
  role_is_super role_key =
      if role_key =ᵇ [] then false else found_super (find_role find_target_role role_key)

  -- `callerIsSuper`.
  abbrev pub super_of : Result GuardError (Option UserRow) → Bool
  super_of (err e) = false
  super_of (ok none) = false
  super_of (ok (some caller)) = found_super (find_role find_caller_role caller.role_key)

  unfoldable pub caller_is_super : Bool
  caller_is_super =
      if q.scope_user =ᵇ [] then false else super_of (find_user find_caller q.scope_user)

  -- `ensureCallerMayAssignRole`; none is no error.
  unfoldable pub ensure_caller_may_assign_role : Bytes → Option GuardError
  ensure_caller_may_assign_role role_key = elim (find_role find_next_role role_key) [
    | err e ↦ some e
    | ok found ↦ elim found [
      | none ↦ some (role_not_found role_key)
      | some r ↦
          if not r.is_super
          then none
          else if not caller_is_super
          then some GuardError.permission_denied
          else none
    ]
  ]

-- A row that has a value in one of the two columns of the login namespace; the empty value is not
-- looked for.
abbrev pub holds : Bytes → UserRow → Bool
holds value u = not (value =ᵇ []) && ((u.uid =ᵇ value) || (u.username =ᵇ value))

-- `ensureLoginIdentityUnique`: the row 0 excludes none.
unfoldable pub ensure_login_identity_unique :
    Request → Tables → Bytes → Bytes → ℕ → Option GuardError
ensure_login_identity_unique q db uid username exclude_id =
    if (uid =ᵇ []) && (username =ᵇ [])
    then none
    else elim (run db find_matches (
        head (
          query user_tenant (without_tenant q.scope)
            (λ u.
              (holds uid u || holds username u) && ((exclude_id == 0) || not (u.id == exclude_id)))
            db.users))) [
              | err e ↦ some e
              | ok found ↦ elim found [ none ↦ none | some _ ↦ some identity_in_use ]
            ]

abbrev pub text_or : Option Bytes → Bytes → Bytes
text_or none other = other
text_or (some s) other = s

abbrev pub filled_or : Bytes → Bytes → Bytes
filled_or s other = if s =ᵇ [] then other else s

-- `updatedLoginIdentity`.
unfoldable pub updated_login_identity : Dest → UserRow → Bytes × Bytes
updated_login_identity (columns uid username role_key) previous =
    (text_or uid previous.uid, text_or username previous.username)
updated_login_identity (user_dest u) previous =
    (filled_or u.uid previous.uid, filled_or u.username previous.username)
updated_login_identity other_dest previous = (previous.uid, previous.username)

-- `updatedRoleKey`.
unfoldable pub updated_role_key : Dest → Bytes
updated_role_key (columns uid username role_key) = text_or role_key []
updated_role_key (user_dest u) = u.role_key
updated_role_key other_dest = []

module _ (q : Request) (db : Tables) where
  -- The role change, after the other checks of a user.
  unfoldable pub guard_role_change : UserRow → Bytes → Option GuardError
  guard_role_change target next_role =
      if (next_role =ᵇ []) || (next_role =ᵇ target.role_key)
      then none
      else if not (caller_is_super q db)
      then some GuardError.permission_denied
      else ensure_caller_may_assign_role q db next_role

  -- `guardUserUpdate`.
  unfoldable pub guard_user_update : UserRow → Dest → Option GuardError
  guard_user_update target dest =
      if role_is_super q db target.role_key && not (caller_is_super q db)
      then some GuardError.permission_denied
      else elim (ensure_login_identity_unique q db (updated_login_identity dest target).0
          (updated_login_identity dest target).1 target.id) [
            | some e ↦ some e
            | none ↦ guard_role_change target (updated_role_key dest)
          ]

  abbrev pub guard_role : RoleRow → Option GuardError
  guard_role target =
      if target.is_super && not (caller_is_super q db)
      then some GuardError.permission_denied
      else none

  -- `guardUpdate`.
  unfoldable pub guard_update : Target → Dest → Option GuardError
  guard_update (user_target u) dest = guard_user_update u dest
  guard_update (role_target r) dest = guard_role r
  guard_update other_target dest = none

  -- `guardDelete`.
  unfoldable pub guard_delete : Target → Option GuardError
  guard_delete (user_target u) =
      if role_is_super q db u.role_key && not (caller_is_super q db)
      then some GuardError.permission_denied
      else none
  guard_delete (role_target r) = guard_role r
  guard_delete other_target = none

  -- The hook of admin/server.go before a user is created.
  unfoldable pub before_create_user : UserRow → Option GuardError
  before_create_user u =
      if u.role_key =ᵇ []
      then some role_key_required
      else elim (ensure_login_identity_unique q db u.uid u.username 0) [
        | some e ↦ some e
        | none ↦ ensure_caller_may_assign_role q db u.role_key
      ]

-- The hook before a role is created.
unfoldable pub before_create_role : RoleRow → RoleRow
before_create_role r = record r { is_super = false; builtin = false }
