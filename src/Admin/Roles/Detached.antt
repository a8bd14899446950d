-- ===== src/Admin/Roles/Detached.antt =====
-- What a deleted role leaves: the hooks `AfterDelete` and `BeforeUpdate` of admin/models/role.go beside
-- the grants that admin/permission.go loads.
use aeus.Common.{
  ◌==◌, Bool, true, false, not, ◌&&◌, ◌||◌, List, [], ◌∷◌, All, map, if◌then◌else◌, ◌=ᵇ◌, =ᵇ_iff,
  =ᵇ_sound, some, ok, err, ◌≡◌, refl, sym, ◌∙◌, subst, ◌⊎◌, inl, inr, arith, Bool-cases,
  Option-cases, Result-cases,
}
use aeus.Admin.TenantScope.{Scope, in_scope, query, delete}
use aeus.Admin.Permission.Checker.{Caller, GrantRow, is_grant, load_grants}
use aeus.Admin.Roles.Defs.{head, grant_tenant}
use aeus.Admin.Roles.Cascade.{
  StoredRole, Member, CascadeError, find_old, purge_grants, detach_users, Linked, Store, Change,
  stored_tenant, attempt, dest_key, is_grant_of, is_member_of, moved_member, purge, renamed,
  cascade, before_update_role, after_delete_role,
}

-- The rows of a deleted role that a statement meets: those of a caller.
abbrev pub of_role : Scope → StoredRole → Caller → Bool
of_role sc old c = in_scope sc c.tenant_id && (c.role =ᵇ old.key) && (c.tenant_id =ᵇ old.tenant_id)

module _ (sc : Scope) (old : StoredRole) where
  grant_of_same :
      (c : Caller) (r : GrantRow)
      → is_grant c r ≡ true
      → (in_scope sc r.tenant_id && is_grant_of sc old.key old.tenant_id r) ≡ of_role sc old c
  grant_of_same c r g =
      let role : r.role_key ≡ c.role = =ᵇ_sound _ _ (ground (arith, g)) in
      let tenant : r.tenant_id ≡ c.tenant_id = =ᵇ_sound _ _ (ground (arith, g)) in
      ground (arith, role, tenant)

  load_grants-purge :
      (c : Caller) (rows : List GrantRow)
      → load_grants c (delete grant_tenant sc (is_grant_of sc old.key old.tenant_id) rows)
        ≡ (if of_role sc old c then [] else load_grants c rows)
  unfolding load_grants delete
  load_grants-purge c [] = ground arith
  load_grants-purge c (r ∷ rows) = elim (Bool-cases (is_grant c r)) [
    | inl g ↦ ground (arith, g, grant_of_same c r g, load_grants-purge c rows)
    | inr g ↦ ground (arith, g, load_grants-purge c rows)
  ]

  -- No user that the statement meets keeps the key.
  abbrev pub Left : Member → Type 0
  Left u = (in_scope sc u.tenant_id && is_member_of sc old.key old.tenant_id u) ≡ false

  moved_member-Left :
      (old.key =ᵇ []) ≡ false → (u : Member) → Left (moved_member sc old.key old.tenant_id [] u)
  unfolding moved_member
  moved_member-Left filled u =
      elim (Bool-cases (in_scope sc u.tenant_id && is_member_of sc old.key old.tenant_id u)) [
        | inl g ↦ rw g (ground (arith, filled, =ᵇ_iff old.key [], =ᵇ_iff [] old.key))
        | inr g ↦ rw g g
      ]

  All-Left :
      (old.key =ᵇ []) ≡ false
      → (users : List Member) → All Left (map (moved_member sc old.key old.tenant_id []) users)
  All-Left filled [] = tt
  All-Left filled (u ∷ users) = (moved_member-Left filled u, All-Left filled users)

-- What a delete of a role leaves.
pub record Detached (sc : Scope) (old : StoredRole) (before after : Linked) : Type 0 where
  pub users : after.users ≡ map (moved_member sc old.key old.tenant_id []) before.users
  pub left : All (Left sc old) after.users
  pub granted :
      (c : Caller)
      → load_grants c after.grants ≡ (if of_role sc old c then [] else load_grants c before.grants)

linked-Detached :
    (sc : Scope) (old : StoredRole) (before l : Linked)
    → (old.key =ᵇ []) ≡ false
    → l ≡ record {
      grants = delete grant_tenant sc (is_grant_of sc old.key old.tenant_id) before.grants;
      users = map (moved_member sc old.key old.tenant_id []) before.users;
    }
    → Detached sc old before l
linked-Detached sc old before l filled e = subst (Detached sc old before) (sym e) (record {
  users = refl;
  left = All-Left sc old filled before.users;
  granted = λ c. load_grants-purge sc old c before.grants;
})

module _ (sc : Scope) (db : Store) where
  -- A delete of a role with a key and a tenant that goes through leaves no user, in the scope, that has
  -- the key in the tenant, and leaves every other user as it was; the permission checker loads no
  -- permission for a caller with the key in the tenant and the scope, and for every other caller what it
  -- loaded before.
  pub after_delete_role-Detached :
      (m : StoredRole) (l : Linked)
      → (m.key =ᵇ []) ≡ false
      → (m.tenant_id =ᵇ []) ≡ false
      → after_delete_role sc db m ≡ ok l
      → Detached sc m db.linked l
  unfolding after_delete_role
  after_delete_role-Detached m l filled tenanted h = elim (Option-cases (db.failure detach_users)) [
    | inr (e, u) ↦ absurd (ground (arith, tenanted, u, h))
    | inl u ↦ elim (Option-cases (db.failure purge_grants)) [
      | inr (e, g) ↦ absurd (ground (arith, tenanted, u, g, h))
      | inl g ↦ linked-Detached sc m db.linked l filled (ground (arith, tenanted, u, g, h))
    ]
  ]

  purge-Detached :
      (old : StoredRole) (before l : Linked)
      → (old.key =ᵇ []) ≡ false
      → purge sc db old before ≡ ok l
      → Detached sc old before l
  unfolding purge
  purge-Detached old before l filled h = elim (Option-cases (db.failure purge_grants)) [
    | inr (e, g) ↦ absurd (ground (arith, g, h))
    | inl g ↦ elim (Option-cases (db.failure detach_users)) [
      | inr (e, u) ↦ absurd (ground (arith, g, u, h))
      | inl u ↦ linked-Detached sc old before l filled (ground (arith, g, u, h))
    ]
  ]

  -- An update that marks a role as deleted, and does not change its key, leaves what a delete leaves.
  pub before_update_role-Detached :
      (ch : Change) (m old : StoredRole) (l : Linked)
      → attempt db find_old (head (query stored_tenant sc (λ r. r.id == m.id) db.roles))
        ≡ ok (some old)
      → (old.key =ᵇ []) ≡ false
      → (old.tenant_id =ᵇ []) ≡ false
      → (ch.key_changed || not (dest_key ch =ᵇ [])) ≡ false
      → ch.deleted_changed ≡ true
      → before_update_role sc db ch m ≡ ok l
      → Detached sc old db.linked l
  unfolding before_update_role cascade renamed
  before_update_role-Detached ch m old l found filled tenanted key d h =
      purge-Detached old db.linked l filled (purged (Result-cases (purge sc db old db.linked)))
    where
      purged :
          ((e : CascadeError) × (purge sc db old db.linked ≡ err e))
            ⊎ ((x : Linked) × (purge sc db old db.linked ≡ ok x))
          → purge sc db old db.linked ≡ ok l
      purged (inl (e, f)) = absurd (ground (arith, found, tenanted, key, d, f, h))
      purged (inr (x, f)) = f ∙ ground (arith, found, tenanted, key, d, f, h)
