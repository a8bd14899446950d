-- ===== src/Admin/Roles/Moves.antt =====
-- What a rename of a role leaves to the users of the role and to all others: the hook `BeforeUpdate` of
-- admin/models/role.go beside the grants that admin/permission.go loads.
use aeus.Common.{
  ◌==◌, Bytes, Bool, true, false, not, ◌&&◌, ◌||◌, List, [], ◌∷◌, map, ◌=ᵇ◌, =ᵇ_iff, =ᵇ_refl,
  =ᵇ_sound, none, some, ok, ◌≡◌, refl, sym, ap, ◌∙◌, subst, inl, inr, arith, Bool-cases,
  Option-cases, Result-cases,
}
use aeus.Admin.TenantScope.{Scope, in_scope, query}
use aeus.Admin.Permission.Checker.{Caller, GrantRow, is_grant, load_grants}
use aeus.Admin.Roles.Defs.{head}
use aeus.Admin.Roles.Cascade.{
  StoredRole, Member, find_old, repoint_grants, repoint_users, Linked, Store, Change, stored_tenant,
  attempt, dest_key, new_key_of, is_grant_of, is_member_of, moved_grant, moved_member, rename,
  renamed, cascade, before_update_role,
}

-- The caller of a user's requests.
abbrev pub caller_of : Member → Caller
caller_of u = record { role = u.role_key; tenant_id = u.tenant_id }

abbrev pub holder : Bytes → Bytes → Caller
holder key tenant = record { role = key; tenant_id = tenant }

-- The first row that a query reads is in its scope.
pub head-query-in_scope :
    {A : Type 0} (tenant_of : A → Bytes) (sc : Scope) (p : A → Bool) (rows : List A) (row : A)
    → head (query tenant_of sc p rows) ≡ some row
    → in_scope sc (tenant_of row) ≡ true
unfolding query
head-query-in_scope tenant_of sc p [] row h = absurd (ground (arith, h))
head-query-in_scope tenant_of sc p (r ∷ rows) row h =
    elim (Bool-cases (in_scope sc (tenant_of r))) [
      | inl s ↦ elim (Bool-cases (p r)) [
        | inl t ↦ subst (λ x. in_scope sc (tenant_of x) ≡ true) (ground (arith, s, t, h)) s
        | inr t ↦ head-query-in_scope tenant_of sc p rows row (ground (arith, s, t, h))
      ]
      | inr s ↦ head-query-in_scope tenant_of sc p rows row (ground (arith, s, h))
    ]

load_grants-none :
    (c : Caller) (r : GrantRow) (rows : List GrantRow)
    → load_grants c (r ∷ rows) ≡ []
    → (is_grant c r ≡ false) × (load_grants c rows ≡ [])
unfolding load_grants
load_grants-none c r rows h = elim (Bool-cases (is_grant c r)) [
  | inl g ↦ absurd (ground (arith, g, h))
  | inr g ↦ (g, ground (arith, g, h))
]

module _ (sc : Scope) (key tenant new_key : Bytes) (scoped : in_scope sc tenant ≡ true) where
  -- A grant of the renamed role is moved, every other one stays.
  moved_grant-of :
      (r : GrantRow)
      → is_grant_of sc key tenant r ≡ true
      → (moved_grant sc key tenant new_key r ≡ record r { role_key = new_key })
        × (r.tenant_id ≡ tenant)
  unfolding moved_grant
  moved_grant-of r g =
      let t : r.tenant_id ≡ tenant = =ᵇ_sound _ _ (ground (arith, g)) in
      (ground (arith, g, subst (λ x. in_scope sc x ≡ true) (sym t) scoped), t)

  moved_grant-other :
      (r : GrantRow) → is_grant_of sc key tenant r ≡ false → moved_grant sc key tenant new_key r ≡ r
  unfolding moved_grant
  moved_grant-other r g = ground (arith, g)

  -- Once moved, the grants of the old key are those of the new one.
  load_grants-moved :
      (rows : List GrantRow)
      → load_grants (holder new_key tenant) rows ≡ []
      → load_grants (holder new_key tenant) (map (moved_grant sc key tenant new_key) rows)
        ≡ load_grants (holder key tenant) rows
  unfolding load_grants
  load_grants-moved [] h = refl
  load_grants-moved (r ∷ rows) h =
      let (n, rest) = load_grants-none (holder new_key tenant) r rows h in
      let ih = load_grants-moved rows rest in
      elim (Bool-cases (is_grant_of sc key tenant r)) [
        | inl g ↦
            let (m, t) = moved_grant-of r g in
            rw m (ground (arith, g, ih, =ᵇ_refl new_key, =ᵇ_refl tenant, t))
        | inr g ↦ rw (moved_grant-other r g) (ground (arith, g, n, ih))
      ]

  -- What another caller loads stays.
  load_grants-stay :
      (c : Caller) (rows : List GrantRow)
      → ((c.role =ᵇ key) && (c.tenant_id =ᵇ tenant)) ≡ false
      → ((c.role =ᵇ new_key) && (c.tenant_id =ᵇ tenant)) ≡ false
      → load_grants c (map (moved_grant sc key tenant new_key) rows) ≡ load_grants c rows
  unfolding load_grants
  load_grants-stay c [] a b = refl
  load_grants-stay c (r ∷ rows) a b =
      let ih = load_grants-stay c rows a b in
      elim (Bool-cases (is_grant_of sc key tenant r)) [
        | inl g ↦
            let (m, t) = moved_grant-of r g in
            let k : r.role_key ≡ key = =ᵇ_sound _ _ (ground (arith, g)) in
            rw m (
              ground (
                arith,
                ih,
                a,
                b,
                t,
                k,
                =ᵇ_iff key c.role,
                =ᵇ_iff c.role key,
                =ᵇ_iff new_key c.role,
                =ᵇ_iff c.role new_key,
                =ᵇ_iff tenant c.tenant_id,
                =ᵇ_iff c.tenant_id tenant,
              ))
        | inr g ↦ rw (moved_grant-other r g) (ground (arith, ih))
      ]

  -- The permissions of a user follow the rename.
  load_grants-member :
      (u : Member) (rows : List GrantRow)
      → load_grants (holder new_key tenant) rows ≡ []
      → is_member_of sc new_key tenant u ≡ false
      → load_grants
          (caller_of (moved_member sc key tenant new_key u))
          (map (moved_grant sc key tenant new_key) rows)
        ≡ load_grants (caller_of u) rows
  unfolding moved_member
  load_grants-member u rows none_before apart = elim (Bool-cases (is_member_of sc key tenant u)) [
    | inl g ↦
        let k : u.role_key ≡ key = =ᵇ_sound _ _ (ground (arith, g)) in
        let t : u.tenant_id ≡ tenant = =ᵇ_sound _ _ (ground (arith, g)) in
        let moved : moved_member sc key tenant new_key u ≡ record u { role_key = new_key } =
          ground (arith, g, subst (λ x. in_scope sc x ≡ true) (sym t) scoped) in
        ap (λ v. load_grants (caller_of v) (map (moved_grant sc key tenant new_key) rows)) moved
        ∙ ap (λ x. load_grants (holder new_key x) (map (moved_grant sc key tenant new_key) rows)) t
        ∙ load_grants-moved rows none_before
        ∙ sym (
            ap (λ x. load_grants (holder x u.tenant_id) rows) k
            ∙ ap (λ x. load_grants (holder key x) rows) t)
    | inr g ↦
        let same : moved_member sc key tenant new_key u ≡ u = ground (arith, g) in
        ap (λ v. load_grants (caller_of v) (map (moved_grant sc key tenant new_key) rows)) same
        ∙ load_grants-stay (caller_of u) rows g apart
  ]

rename-moves :
    (sc : Scope) (db : Store) (old : StoredRole) (new_key : Bytes) (before l : Linked)
    → rename sc db old new_key before ≡ ok l
    → (l.grants ≡ map (moved_grant sc old.key old.tenant_id new_key) before.grants)
      × (l.users ≡ map (moved_member sc old.key old.tenant_id new_key) before.users)
unfolding rename
rename-moves sc db old new_key before l h = elim (Option-cases (db.failure repoint_grants)) [
  | inr (e, g) ↦ absurd (ground (arith, g, h))
  | inl g ↦ elim (Option-cases (db.failure repoint_users)) [
    | inr (e, u) ↦ absurd (ground (arith, g, u, h))
    | inl u ↦ (ap (λ x. x.grants) (all g u), ap (λ x. x.users) (all g u))
  ]
]
  where
    all :
        db.failure repoint_grants ≡ none
        → db.failure repoint_users ≡ none
        → l ≡ record {
          grants = map (moved_grant sc old.key old.tenant_id new_key) before.grants;
          users = map (moved_member sc old.key old.tenant_id new_key) before.users;
        }
    all g u = ground (arith, g, u, h)

module _ (sc : Scope) (db : Store) (ch : Change) (m old : StoredRole) where
  -- An update that gives the role, found in its tenant, another key that is not empty.
  pub record Renames : Type 0 where
    pub role_found :
        attempt db find_old (head (query stored_tenant sc (λ r. r.id == m.id) db.roles))
        ≡ ok (some old)
    pub tenanted : (old.tenant_id =ᵇ []) ≡ false
    pub changes : (ch.key_changed || not (dest_key ch =ᵇ [])) ≡ true
    pub filled : (new_key_of ch m =ᵇ []) ≡ false
    pub different : (new_key_of ch m =ᵇ old.key) ≡ false
    pub stays : ch.deleted_changed ≡ false

  before_update_role-rename :
      (l : Linked)
      → Renames
      → before_update_role sc db ch m ≡ ok l
      → rename sc db old (new_key_of ch m) db.linked ≡ ok l
  unfolding before_update_role cascade renamed
  before_update_role-rename l r h =
      elim (Result-cases (rename sc db old (new_key_of ch m) db.linked)) [
        | inl (e, f) ↦ absurd (
            ground
              (arith, r.role_found, r.tenanted, r.changes, r.filled, r.different, r.stays, f, h))
        | inr (l', f) ↦
            f
            ∙ ground
                (arith, r.role_found, r.tenanted, r.changes, r.filled, r.different, r.stays, f, h)
      ]

  -- A rename of a role that goes through, of an update that does not delete it, to a key under which
  -- its tenant has no permissions granted before: the users of the role, and of them alone, move to the
  -- new key, and every user who was not under the new key in the tenant holds the same permissions as
  -- before.
  pub before_update_role-keeps_grants :
      (l : Linked)
      → Renames
      → before_update_role sc db ch m ≡ ok l
      → load_grants (holder (new_key_of ch m) old.tenant_id) db.linked.grants ≡ []
      → (l.users ≡ map (moved_member sc old.key old.tenant_id (new_key_of ch m)) db.linked.users)
        × ((u : Member)
            → is_member_of sc (new_key_of ch m) old.tenant_id u ≡ false
            → load_grants
                (caller_of (moved_member sc old.key old.tenant_id (new_key_of ch m) u))
                l.grants
              ≡ load_grants (caller_of u) db.linked.grants)
  before_update_role-keeps_grants l r h none_before =
      let (g, u) =
        rename-moves sc db old (new_key_of ch m) db.linked l (before_update_role-rename l r h) in
      let scoped =
        head-query-in_scope stored_tenant sc (λ x. x.id == m.id) db.roles old
          (found_row r.role_found) in
      (
        u,
        λ v apart.
            ap (load_grants (caller_of (moved_member sc old.key old.tenant_id (new_key_of ch m) v)))
              g
            ∙ load_grants-member sc old.key old.tenant_id (new_key_of ch m) scoped v
                db.linked.grants none_before apart,
      )
    where
      found_row :
          attempt db find_old (head (query stored_tenant sc (λ x. x.id == m.id) db.roles))
            ≡ ok (some old)
          → head (query stored_tenant sc (λ x. x.id == m.id) db.roles) ≡ some old
      found_row f = elim (Option-cases (db.failure find_old)) [
        | inl n ↦ ground (arith, n, f)
        | inr (e, n) ↦ absurd (ground (arith, n, f))
      ]
