-- ===== src/Admin/Guards/Logins.antt =====
-- That the guards of admin/security_guards.go keep uid and username one namespace, so that a login of
-- admin/service/auth.go finds one row at most.
use aeus.Common.{
  ℕ, zero, suc, ◌≤◌, ◌==◌, Bytes, Bool, true, false, ◌&&◌, ◌||◌, List, [], ◌∷◌, ◌++◌, map, length,
  take, ◌=ᵇ◌, =ᵇ_sound, test_of_ne, none, ok, ◌≡◌, ◌≢◌, refl, sym, ap, subst, ◌⊎◌, inl, inr, arith,
  Bool-cases, Option-cases,
}
use aeus.Admin.Guards.Defs.{
  UserRow, Tables, Request, Dest, holds, ensure_login_identity_unique, updated_login_identity,
  guard_user_update, before_create_user,
}
use aeus.Admin.Session.Model.{User, Db, find_users, where_rows, find_candidates}
use aeus.Admin.Guards.Identity.{
  count_holding, count_id, DistinctLogins, store_identity, ensure-NoMatch, count-store_new,
  count-store_old, count_empty, count-none, count-append, in_pair,
}

-- A pair with a value that is not empty is not empty.
pair_filled :
    (uid username value : Bytes)
    → (value =ᵇ []) ≡ false
    → (uid ≡ value) ⊎ (username ≡ value)
    → ((uid =ᵇ []) && (username =ᵇ [])) ≡ false
pair_filled uid username value f (inl e) = ground (arith, subst (λ v. (v =ᵇ []) ≡ false) (sym e) f)
pair_filled uid username value f (inr e) = ground (arith, subst (λ v. (v =ᵇ []) ≡ false) (sym e) f)

module _ (q : Request) (db : Tables) (distinct : DistinctLogins db.users) where
  store-DistinctLogins :
      (uid username : Bytes) (id : ℕ)
      → (id == 0) ≡ false
      → count_id id db.users ≤ 1
      → ensure_login_identity_unique q db uid username id ≡ none
      → DistinctLogins (store_identity id (uid, username) db.users)
  store-DistinctLogins uid username id z one h value = elim (Bool-cases (value =ᵇ [])) [
    | inl e ↦
        rw (=ᵇ_sound value [] e)
          (omega (arith, count_empty (store_identity id (uid, username) db.users)))
    | inr f ↦ elim (in_pair uid username value) [
      | inl new ↦
          let free = ensure-NoMatch q db uid username id h (pair_filled uid username value f new) in
          omega (arith, one, count-store_new uid username value id db.users z new free)
      | inr (a, b) ↦
          omega (arith, distinct value, count-store_old uid username value id db.users a b)
    ]
  ]

  -- Where no login identity stands in two rows, none does after an update of a user that the guard
  -- lets pass, which writes the identity that the guard has checked into the row of the target, when
  -- the id of the target is not 0 and stands in one row at most.
  pub guard_user_update-DistinctLogins :
      (target : UserRow) (dest : Dest)
      → (target.id == 0) ≡ false
      → count_id target.id db.users ≤ 1
      → guard_user_update q db target dest ≡ none
      → DistinctLogins (store_identity target.id (updated_login_identity dest target) db.users)
  unfolding guard_user_update
  guard_user_update-DistinctLogins target dest z one h =
      store-DistinctLogins (updated_login_identity dest target).0
        (updated_login_identity dest target).1 target.id z one passed
    where
      passed :
          ensure_login_identity_unique q db
            (updated_login_identity dest target).0
            (updated_login_identity dest target).1
            target.id
          ≡ none
      passed =
          elim (Option-cases (
            ensure_login_identity_unique q db (updated_login_identity dest target).0
              (updated_login_identity dest target).1 target.id)) [
                | inl e ↦ e
                | inr (g, e) ↦ absurd (ground (arith, e, h))
              ]

  -- Where no login identity stands in two rows, none does after the creation of a user that the hook
  -- lets pass.
  pub before_create_user-DistinctLogins :
      (u : UserRow) → before_create_user q db u ≡ none → DistinctLogins (db.users ++ u ∷ [])
  unfolding before_create_user count_holding
  before_create_user-DistinctLogins u h value = elim (Bool-cases (holds value u)) [
    | inr e ↦ ground (arith, e, distinct value, count-append value db.users u)
    | inl e ↦
        let new = held e in
        let free =
          ensure-NoMatch q db u.uid u.username 0 passed
            (pair_filled u.uid u.username value (filled e) new) in
        ground (
          arith,
          e,
          count-none u.uid u.username value db.users new free,
          count-append value db.users u,
        )
  ]
    where
      passed : ensure_login_identity_unique q db u.uid u.username 0 ≡ none
      passed = elim (Option-cases (ensure_login_identity_unique q db u.uid u.username 0)) [
        | inl e ↦ e
        | inr (g, e) ↦ absurd (ground (arith, e, h))
      ]

      filled : holds value u ≡ true → (value =ᵇ []) ≡ false
      filled e = ground (arith, e)

      held : holds value u ≡ true → (u.uid ≡ value) ⊎ (u.username ≡ value)
      held e = elim (Bool-cases (u.uid =ᵇ value)) [
        | inl a ↦ inl (=ᵇ_sound _ _ a)
        | inr a ↦ inr (=ᵇ_sound _ _ (ground (arith, a, e)))
      ]

-- The rows that a login by a name finds are those that hold it.
length-where_rows :
    (view : UserRow → User) (name : Bytes) (users : List UserRow)
    → ((u : UserRow) → ((view u).uid ≡ u.uid) × ((view u).username ≡ u.username))
    → (name =ᵇ []) ≡ false
    → length (where_rows (λ u. (u.uid =ᵇ name) || (u.username =ᵇ name)) (map view users))
      ≡ count_holding name users
unfolding where_rows count_holding
length-where_rows view name [] same filled = refl
length-where_rows view name (u ∷ users) same filled = ground (
  arith,
  filled,
  ap (λ x. x =ᵇ name) (same u).0,
  ap (λ x. x =ᵇ name) (same u).1,
  length-where_rows view name users same filled,
)

length-take_le : (n : ℕ) (us : List User) → length (take n us) ≤ length us
length-take_le zero us = omega arith
length-take_le (suc n) [] = omega arith
length-take_le (suc n) (u ∷ us) = omega (arith, length-take_le n us)

-- Where no login identity stands in two rows, a login with a name that is not empty finds one row at
-- most, whatever else the table has.
pub find_candidates-le-one :
    (view : UserRow → User) (rows : List UserRow) (db : Db) (name : Bytes) (found : List User)
    → DistinctLogins rows
    → ((u : UserRow) → ((view u).uid ≡ u.uid) × ((view u).username ≡ u.username))
    → db.users ≡ map view rows
    → name ≢ []
    → find_candidates db name ≡ ok found
    → length found ≤ 1
unfolding find_candidates
find_candidates-le-one view rows db name found distinct same stored filled h = omega (
  arith,
  ap length taken,
  length-take_le 2 (where_rows is_name db.users),
  ap (λ us. length (where_rows is_name us)) stored,
  length-where_rows view name rows same (test_of_ne _ _ filled),
  distinct name,
)
  where
    is_name : User → Bool
    is_name u = (u.uid =ᵇ name) || (u.username =ᵇ name)

    taken : take 2 (where_rows is_name db.users) ≡ found
    taken = elim (Option-cases (db.failure find_users)) [
      | inl p ↦ ground (arith, p, h)
      | inr (e, p) ↦ absurd (ground (arith, p, h))
    ]
