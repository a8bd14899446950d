-- ===== src/Admin/Users/Own.antt =====
-- What a change of a password or a profile in admin/service/user.go has established and written.
use aeus.Common.{
  ℕ, Bytes, true, false, List, ◌=ᵇ◌, ne_of_test, Option, ok, ◌≡◌, ◌≢◌, ◌⊎◌, inl, inr, arith,
  Bool-cases,
}
use aeus.Admin.Users.Defs.{
  Account, Tables, Bcrypt, HashesSoundly, Context, Reply, saved, with_own, store, before_update,
  is_hashed, UserProfile, profile_from_user,
}
use aeus.Admin.Users.Methods.{
  UpdateProfileRequest, filled_or, updated, update_profile, validate_password, change_own,
  change_password,
}
use aeus.Admin.Users.Policy.{Strong, before_update-password}
use aeus.Admin.Users.Written.{
  OwnRow, SameUser, checked-eq-ok, with_own-eq-ok, saved-eq-ok, before_update-SameUser,
  before_update-username,
}

module _ (x : Bcrypt) (db : Tables) (ctx : Context) where
  -- What a change of the password has established, and what it wrote.
  pub record Changed (old new : Bytes) (accounts : List Account) : Type 0 where
    pub before : Account
    pub own : OwnRow db ctx before
    pub old_right : validate_password x db ctx before old ≡ true
    pub different : new ≢ old
    pub after : Account
    pub written : accounts ≡ store after db.accounts
    pub same_user : SameUser before after
    pub accepted :
        (is_hashed new ≡ true) ⊎ (Strong new × (validate_password x db ctx after new ≡ true))

  change_own-eq-ok :
      (old new : Bytes) (u : Account) (accounts : List Account)
      → change_own x db ctx old new u ≡ (ok tt, accounts)
      → (validate_password x db ctx u old ≡ true)
        × ((new =ᵇ old) ≡ false)
        × (saved x db (record u { password = new }) tt ≡ (ok tt, accounts))
  unfolding change_own
  change_own-eq-ok old new u accounts h = elim (Bool-cases (validate_password x db ctx u old)) [
    | inr v ↦ absurd (wrong v)
    | inl v ↦ elim (Bool-cases (new =ᵇ old)) [
      | inl s ↦ absurd (same v s)
      | inr s ↦ (v, s, passed v s)
    ]
  ]
    where
      wrong : validate_password x db ctx u old ≡ false → ⊥
      wrong v = ground (arith, v, h)

      same : validate_password x db ctx u old ≡ true → (new =ᵇ old) ≡ true → ⊥
      same v s = ground (arith, v, s, h)

      passed :
          validate_password x db ctx u old ≡ true
          → (new =ᵇ old) ≡ false
          → saved x db (record u { password = new }) tt ≡ (ok tt, accounts)
      passed v s = ground (arith, v, s, h)

  pub password-SameUser :
      (u : Account) (new : Bytes) (m' : Account)
      → before_update x (record u { password = new }) ≡ ok m'
      → SameUser u m'
  password-SameUser u new m' b =
      let s = before_update-SameUser x (record u { password = new }) m' b in
      record {
        same_id = s.same_id;
        same_uid = s.same_uid;
        same_role = s.same_role;
        same_tenant = s.same_tenant;
      }

  updated-SameUser :
      (req : UpdateProfileRequest) (u m' : Account)
      → before_update x (updated x db ctx req u) ≡ ok m'
      → SameUser u m'
  unfolding updated
  updated-SameUser req u m' b =
      let s = before_update-SameUser x (updated x db ctx req u) m' b in
      record {
        same_id = s.same_id;
        same_uid = s.same_uid;
        same_role = s.same_role;
        same_tenant = s.same_tenant;
      }

  updated-username :
      (req : UpdateProfileRequest) (u m' : Account)
      → before_update x (updated x db ctx req u) ≡ ok m'
      → m'.username ≡ filled_or req.username u.username
  unfolding updated
  updated-username req u m' b = before_update-username x (updated x db ctx req u) m' b

  pub accepted_password :
      HashesSoundly x
      → (m m' : Account) → before_update x m ≡ ok m'
      → (is_hashed m.password ≡ true)
        ⊎ (Strong m.password × (validate_password x db ctx m' m.password ≡ true))
  unfolding validate_password
  accepted_password sound m m' b = elim (before_update-password x m m' sound b) [
    | inl (e, _) ↦ inl e
    | inr (s, g, c) ↦ elim (Bool-cases (is_hashed m.password)) [
      | inl e ↦ inl e
      | inr e ↦ inr (s, ground (arith, e, sound.filled m.password m'.password g, c))
    ]
  ]

  -- A change of the password that answers was asked by a signed-in caller, whose row was loaded by its
  -- uid and had the old password; the new one differs, and the table is the one before with that row
  -- written, under its id, uid, role and tenant; the new password is one that counts as hashed, or it is strong
  -- and is now the password of the row. The hashes match the passwords that they were made from.
  pub change_password-Changed :
      HashesSoundly x
      → (invalid : Option ℕ) (old new : Bytes) (accounts : List Account)
      → change_password x db ctx invalid old new ≡ (ok tt, accounts)
      → Changed old new accounts
  unfolding change_password
  change_password-Changed sound invalid old new accounts h =
      let (u, own, changed) = with_own-eq-ok x db ctx (change_own x db ctx old new) tt accounts (
        checked-eq-ok x db ctx invalid (with_own db ctx (change_own x db ctx old new)) tt accounts
          h) in
      let (v, s, e) = change_own-eq-ok old new u accounts changed in
      let (m', b, w, _) = saved-eq-ok x db ctx (record u { password = new }) tt tt accounts e in
      record {
        before = u;
        own = own;
        old_right = v;
        different = ne_of_test _ _ s;
        after = m';
        written = w;
        same_user = password-SameUser u new m' b;
        accepted = accepted_password sound (record u { password = new }) m' b;
      }

  -- What an update of a profile has written.
  pub record Updated (req : UpdateProfileRequest) (accounts : List Account) : Type 0 where
    pub before : Account
    pub own : OwnRow db ctx before
    pub after : Account
    pub written : accounts ≡ store after db.accounts
    pub names : after.username ≡ filled_or req.username before.username
    pub same_user : SameUser before after

  -- An update of a profile that answers was asked by a signed-in caller, whose row was loaded by its uid;
  -- the table is the one before with that row written, under its id, uid, role and tenant, and its
  -- username is the requested one where the request has one.
  pub update_profile-Updated :
      (invalid : Option ℕ) (req : UpdateProfileRequest) (p : UserProfile) (accounts : List Account)
      → update_profile x db ctx invalid req ≡ (ok p, accounts)
      → Updated req accounts
  unfolding update_profile
  update_profile-Updated invalid req p accounts h =
      let next : Account → Reply UserProfile =
        λ u. saved x db (updated x db ctx req u) (profile_from_user (updated x db ctx req u)) in
      let (u, own, s) =
        with_own-eq-ok x db ctx next p accounts
          (checked-eq-ok x db ctx invalid (with_own db ctx next) p accounts h) in
      let (m', b, w, _) =
        saved-eq-ok x db ctx (updated x db ctx req u) (profile_from_user (updated x db ctx req u)) p
          accounts s in
      record {
        before = u;
        own = own;
        after = m';
        written = w;
        names = updated-username req u m' b;
        same_user = updated-SameUser req u m' b;
      }
