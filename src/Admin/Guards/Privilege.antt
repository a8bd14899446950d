-- ===== src/Admin/Guards/Privilege.antt =====
-- What a caller without a super role may change, by the guards of admin/security_guards.go.
use aeus.Common.{
  ℕ, Bytes, true, false, ◌&&◌, ◌||◌, [], ◌=ᵇ◌, none, some, ok, err, ◌≡◌, ap, ◌∙◌, ◌⊎◌, inl, inr,
  arith, Bool-cases, Option-cases, Result-cases,
}
use aeus.Admin.Guards.Defs.{
  UserRow, RoleRow, Tables, Request, Query, find_caller, find_caller_role, find_target_role,
  find_matches, GuardError, find_user, find_role, Target, user_target, role_target, other_target,
  Dest, updated_login_identity, updated_role_key, role_is_super, caller_is_super, guard_delete,
}
use aeus.Admin.Guards.Identity.{NoMatch}

module _ (q : Request) (db : Tables) where
  -- A role key that is not known to name a super role: the query fails, or finds no row in the scope,
  -- or finds one that is not super.
  pub data NotKnownSuper (which : Query) (key : Bytes) : Type 0 where
    query_failed : (e : GuardError) → find_role q db which key ≡ err e → NotKnownSuper which key
    no_role : find_role q db which key ≡ ok none → NotKnownSuper which key
    plain_role :
        (r : RoleRow)
        → find_role q db which key ≡ ok (some r)
        → r.is_super ≡ false
        → NotKnownSuper which key

  -- The role of a target: the empty key is none.
  abbrev pub PlainTarget : Bytes → Type 0
  PlainTarget key = ((key =ᵇ []) ≡ true) ⊎ NotKnownSuper find_target_role key

  -- A caller who is not known to be super: nobody, or one whose row is not read or not found, or one
  -- whose role is not known to be super.
  pub data PlainCaller : Type 0 where
    nobody : (q.scope_user =ᵇ []) ≡ true → PlainCaller
    caller_failed : (e : GuardError) → find_user q db find_caller q.scope_user ≡ err e → PlainCaller
    no_caller : find_user q db find_caller q.scope_user ≡ ok none → PlainCaller
    plain_caller :
        (c : UserRow)
        → find_user q db find_caller q.scope_user ≡ ok (some c)
        → NotKnownSuper find_caller_role c.role_key
        → PlainCaller

  role_is_super-false : (key : Bytes) → role_is_super q db key ≡ false → PlainTarget key
  unfolding role_is_super
  role_is_super-false key h = elim (Bool-cases (key =ᵇ [])) [
    | inl k ↦ inl k
    | inr k ↦ elim (Result-cases (find_role q db find_target_role key)) [
      | inl (e, p) ↦ inr (query_failed e p)
      | inr (found, p) ↦ elim (Option-cases found) [
        | inl n ↦ inr (no_role (p ∙ ap ok n))
        | inr (r, m) ↦ inr (plain_role r (p ∙ ap ok m) (ground (arith, k, p, m, h)))
      ]
    ]
  ]

  PlainCaller-caller_is_super : PlainCaller → caller_is_super q db ≡ false
  unfolding caller_is_super
  PlainCaller-caller_is_super (nobody e) = ground (arith, e)
  PlainCaller-caller_is_super (caller_failed e p) = ground (arith, p)
  PlainCaller-caller_is_super (no_caller p) = ground (arith, p)
  PlainCaller-caller_is_super (plain_caller c p (query_failed e r)) = ground (arith, p, r)
  PlainCaller-caller_is_super (plain_caller c p (no_role r)) = ground (arith, p, r)
  PlainCaller-caller_is_super (plain_caller c p (plain_role role r s)) = ground (arith, p, r, s)

  -- A pair of login values that is free for the row of an id: both are empty, or the query succeeds
  -- and no other row of any tenant has one that is not empty in one of the two columns.
  pub data Free (identity : Bytes × Bytes) (id : ℕ) : Type 0 where
    empty_pair : ((identity.0 =ᵇ []) && (identity.1 =ᵇ [])) ≡ true → Free identity id
    unmatched :
        db.failure find_matches ≡ none
        → NoMatch identity.0 identity.1 id db.users
        → Free identity id

  -- A change of this target that leaves the roles as they are.
  pub data Modest : Target → Dest → Type 0 where
    modest_user :
        (u : UserRow) (dest : Dest)
        → PlainTarget u.role_key
        → Free (updated_login_identity dest u) u.id
        → (updated_role_key dest =ᵇ []) || (updated_role_key dest =ᵇ u.role_key) ≡ true
        → Modest (user_target u) dest
    modest_role : (r : RoleRow) (dest : Dest) → r.is_super ≡ false → Modest (role_target r) dest
    modest_other : (dest : Dest) → Modest other_target dest

  module _ (plain : PlainCaller) where
    not_super : caller_is_super q db ≡ false
    not_super = PlainCaller-caller_is_super plain

    -- Such a caller deletes neither a user whose role is known to be super nor a super role.
    pub guard_delete-plain :
        (u : UserRow) (r : RoleRow)
        → (guard_delete q db (user_target u) ≡ none → PlainTarget u.role_key)
          × (guard_delete q db (role_target r) ≡ none → r.is_super ≡ false)
    unfolding guard_delete
    guard_delete-plain u r = (
      λ h. role_is_super-false u.role_key (ground (arith, not_super, h)),
      λ h. ground (arith, not_super, h),
    )
