-- ===== src/Admin/Roles/Cascade.antt =====
-- What follows a role that is renamed or deleted: the hooks `BeforeUpdate` and `AfterDelete` of
-- admin/models/role.go. A hook that fails rolls its statement back, so that it has no tables to give.
-- The guards on updates are left out: they apply where the context has a RuntimeScope.
use aeus.Common.{
  ℕ, ◌==◌, Bytes, Bool, not, ◌&&◌, ◌||◌, List, [], map, if◌then◌else◌, ◌=ᵇ◌, Option, none, some,
  Result, ok, err,
}
use aeus.Admin.TenantScope.{Scope, in_scope, query, delete}
use aeus.Admin.Permission.Checker.{GrantRow}
use aeus.Admin.Roles.Defs.{head, grant_tenant}

pub record StoredRole : Type 0 where
  pub id : ℕ
  pub key : Bytes
  pub tenant_id : Bytes

-- The columns of sys_users that a role has to do with.
pub record Member : Type 0 where
  pub uid : Bytes
  pub role_key : Bytes
  pub tenant_id : Bytes

pub data CascadeQuery : Type 0 where
  find_old repoint_grants repoint_users purge_grants detach_users : CascadeQuery

pub data CascadeError : Type 0 where
  no_such_role : CascadeError
  failed_query : ℕ → CascadeError

pub record Linked : Type 0 where
  pub grants : List GrantRow
  pub users : List Member

pub record Store : Type 0 where
  pub linked : Linked
  pub roles : List StoredRole
  pub failure : CascadeQuery → Option ℕ

-- An update of a role: what `Changed` says of two fields, and the texts that a map of columns has
-- under the two spellings of key.
pub record Change : Type 0 where
  pub key_changed : Bool
  pub deleted_changed : Bool
  pub quoted_key : Option Bytes
  pub plain_key : Option Bytes

abbrev pub stored_tenant : StoredRole → Bytes
stored_tenant r = r.tenant_id

abbrev pub text_or : Option Bytes → Bytes → Bytes
text_or none other = other
text_or (some s) other = s

abbrev pub attempt {ℓ} : {A : Type ℓ} → Store → CascadeQuery → A → Result CascadeError A
attempt db q rows = elim (db.failure q) [ none ↦ ok rows | some e ↦ err (failed_query e) ]

-- The new key that the map of columns has, or the empty text.
unfoldable pub dest_key : Change → Bytes
dest_key ch = text_or ch.quoted_key (text_or ch.plain_key [])

-- The key that the references move to.
unfoldable pub new_key_of : Change → StoredRole → Bytes
new_key_of ch m = if dest_key ch =ᵇ [] then m.key else dest_key ch

module _ (sc : Scope) (key tenant : Bytes) where
  -- `role_key = ? AND tenant_id = ?`, of a grant and of a user.
  abbrev pub is_grant_of : GrantRow → Bool
  is_grant_of r = (r.role_key =ᵇ key) && (r.tenant_id =ᵇ tenant)

  abbrev pub is_member_of : Member → Bool
  is_member_of u = (u.role_key =ᵇ key) && (u.tenant_id =ᵇ tenant)

  -- The updates of role_key.
  unfoldable pub moved_grant : Bytes → GrantRow → GrantRow
  moved_grant new_key r =
      if in_scope sc r.tenant_id && is_grant_of r then record r { role_key = new_key } else r

  unfoldable pub moved_member : Bytes → Member → Member
  moved_member new_key u =
      if in_scope sc u.tenant_id && is_member_of u then record u { role_key = new_key } else u

module _ (sc : Scope) (db : Store) where
  -- The references move to the new key.
  unfoldable pub rename : StoredRole → Bytes → Linked → Result CascadeError Linked
  rename old new_key l =
      elim (attempt db repoint_grants
        (map (moved_grant sc old.key old.tenant_id new_key) l.grants)) [
          | err e ↦ err e
          | ok grants ↦
              elim (attempt db repoint_users
                (map (moved_member sc old.key old.tenant_id new_key) l.users)) [
                  | err e ↦ err e
                  | ok users ↦ ok (record { grants = grants; users = users })
                ]
        ]

  -- The references of a soft delete, grants first.
  unfoldable pub purge : StoredRole → Linked → Result CascadeError Linked
  purge old l =
      elim (attempt db purge_grants
        (delete grant_tenant sc (is_grant_of sc old.key old.tenant_id) l.grants)) [
          | err e ↦ err e
          | ok grants ↦
              elim (attempt db detach_users
                (map (moved_member sc old.key old.tenant_id []) l.users)) [
                  | err e ↦ err e
                  | ok users ↦ ok (record { grants = grants; users = users })
                ]
        ]

  -- The first scenario of the hook.
  unfoldable pub renamed : Change → StoredRole → StoredRole → Linked → Result CascadeError Linked
  renamed ch m old l =
      if not (ch.key_changed || not (dest_key ch =ᵇ []))
      then ok l
      else if not (new_key_of ch m =ᵇ []) && not (new_key_of ch m =ᵇ old.key)
      then rename old (new_key_of ch m) l
      else ok l

  -- Both scenarios, once the row has been loaded.
  unfoldable pub cascade : Change → StoredRole → StoredRole → Result CascadeError Linked
  cascade ch m old =
      if old.tenant_id =ᵇ [] then ok db.linked else elim (renamed ch m old db.linked) [
        | err e ↦ err e
        | ok l ↦ if ch.deleted_changed then purge old l else ok l
      ]

  -- `BeforeUpdate` of a role `m`.
  unfoldable pub before_update_role : Change → StoredRole → Result CascadeError Linked
  before_update_role ch m =
      if not (ch.key_changed || not (dest_key ch =ᵇ [])) && not ch.deleted_changed
      then ok db.linked
      else elim (attempt db find_old (head (query stored_tenant sc (λ r. r.id == m.id) db.roles))) [
        | err e ↦ err e
        | ok found ↦ elim found [ none ↦ err no_such_role | some old ↦ cascade ch m old ]
      ]

  -- `AfterDelete` of a role `m`, users first.
  unfoldable pub after_delete_role : StoredRole → Result CascadeError Linked
  after_delete_role m =
      if m.tenant_id =ᵇ []
      then ok db.linked
      else elim (attempt db detach_users
          (map (moved_member sc m.key m.tenant_id []) db.linked.users)) [
            | err e ↦ err e
            | ok users ↦
                elim (attempt db purge_grants
                  (delete grant_tenant sc (is_grant_of sc m.key m.tenant_id) db.linked.grants)) [
                    | err e ↦ err e
                    | ok grants ↦ ok (record { grants = grants; users = users })
                  ]
          ]
