-- ===== src/Admin/Users/Written.antt =====
-- The row that a method of admin/service/user.go works on, and what `Save` writes of it.
use aeus.Common.{
  ℕ, Bytes, List, Option, none, some, ok, err, ◌≡◌, sym, ap, inl, inr, arith, Option-cases,
  Result-cases,
}
use aeus.Admin.Users.Defs.{
  Account, Claims, UserError, save_user, Tables, Bcrypt, Context, Reply, refuse, load_by_uid, save,
  saved, with_claims, with_own, store, before_update, check_plaintext_password_policy,
  hash_password,
}
use aeus.Admin.Users.Methods.{checked}

module _ (db : Tables) (ctx : Context) where
  -- The row that a method of the caller works on.
  pub record OwnRow (u : Account) : Type 0 where
    pub claims : Claims
    pub signed_in : ctx.claims ≡ some claims
    pub loaded : load_by_uid ctx.scope db claims.uid ≡ ok u

module _ (x : Bcrypt) (db : Tables) (ctx : Context) {A : Type 0} where
  pub checked-eq-ok :
      (invalid : Option ℕ) (next : Reply A) (a : A) (t : List Account)
      → checked db invalid next ≡ (ok a, t)
      → next ≡ (ok a, t)
  checked-eq-ok none next a t h = h
  checked-eq-ok (some e) next a t h = absurd (ground (arith, h))

  pub with_claims-eq-ok :
      (next : Claims → Reply A) (a : A) (t : List Account)
      → with_claims db ctx next ≡ (ok a, t)
      → (c : Claims) × (ctx.claims ≡ some c) × (next c ≡ (ok a, t))
  with_claims-eq-ok next a t h = elim (Option-cases (ctx.claims)) [
    | inl p ↦ absurd (ground (arith, p, h))
    | inr (c, p) ↦ (c, p, ground (arith, p, h))
  ]

  pub with_own-eq-ok :
      (next : Account → Reply A) (a : A) (t : List Account)
      → with_own db ctx next ≡ (ok a, t)
      → (u : Account) × OwnRow db ctx u × (next u ≡ (ok a, t))
  with_own-eq-ok next a t h =
      let (c, p, loaded) = with_claims-eq-ok own_row a t h in
      elim (Result-cases (load_by_uid ctx.scope db c.uid)) [
        | inl (e, l) ↦ absurd (ground (arith, l, loaded))
        | inr (u, l) ↦
            (u, record { claims = c; signed_in = p; loaded = l }, ground (arith, l, loaded))
      ]
    where
      own_row : Claims → Reply A
      own_row c = elim (load_by_uid ctx.scope db c.uid) [ err e ↦ refuse db e | ok u ↦ next u ]

  -- What `Save` has written: the row after its hook.
  pub saved-eq-ok :
      (m : Account) (answer a : A) (t : List Account)
      → saved x db m answer ≡ (ok a, t)
      → (m' : Account) × (before_update x m ≡ ok m') × (t ≡ store m' db.accounts) × (answer ≡ a)
  unfolding save
  saved-eq-ok m answer a t h = elim (Result-cases (before_update x m)) [
    | inl (e, p) ↦ absurd (refused e p)
    | inr (m', p) ↦ elim (Option-cases (db.failure save_user)) [
      | inr (e, f) ↦ absurd (failed m' p e f)
      | inl f ↦ (m', p, stored m' p f, same m' p f)
    ]
  ]
    where
      refused : (e : UserError) → before_update x m ≡ err e → ⊥
      refused e p = ground (arith, p, h)

      failed :
          (m' : Account) → before_update x m ≡ ok m' → (e : ℕ) → db.failure save_user ≡ some e → ⊥
      failed m' p e f = ground (arith, p, f, h)

      stored :
          (m' : Account)
          → before_update x m ≡ ok m'
          → db.failure save_user ≡ none
          → t ≡ store m' db.accounts
      stored m' p f = ground (arith, p, f, h)

      same : (m' : Account) → before_update x m ≡ ok m' → db.failure save_user ≡ none → answer ≡ a
      same m' p f = ground (arith, p, f, h)

-- The row of the same user: all but the password and the profile.
pub record SameUser (m m' : Account) : Type 0 where
  pub same_id : m'.id ≡ m.id
  pub same_uid : m'.uid ≡ m.uid
  pub same_role : m'.role_key ≡ m.role_key
  pub same_tenant : m'.tenant_id ≡ m.tenant_id

-- The hook changes the password alone.
pub before_update-fields :
    (x : Bcrypt) (m m' : Account)
    → before_update x m ≡ ok m'
    → (hashed : Bytes) × (record m { password = hashed } ≡ m')
unfolding before_update
before_update-fields x m m' h = elim (Option-cases (check_plaintext_password_policy m.password)) [
  | inr (e, p) ↦ absurd (ground (arith, p, h))
  | inl p ↦ elim (Result-cases (hash_password x m.password)) [
    | inl (e, g) ↦ absurd (ground (arith, p, g, h))
    | inr (hashed, g) ↦ (hashed, ground (arith, p, g, h))
  ]
]

pub before_update-SameUser :
    (x : Bcrypt) (m m' : Account) → before_update x m ≡ ok m' → SameUser m m'
before_update-SameUser x m m' h =
    let (hashed, e) = before_update-fields x m m' h in
    record {
      same_id = sym (ap (λ a. a.id) e);
      same_uid = sym (ap (λ a. a.uid) e);
      same_role = sym (ap (λ a. a.role_key) e);
      same_tenant = sym (ap (λ a. a.tenant_id) e);
    }

pub before_update-username :
    (x : Bcrypt) (m m' : Account) → before_update x m ≡ ok m' → m'.username ≡ m.username
before_update-username x m m' h = sym (ap (λ a. a.username) ((before_update-fields x m m' h).1))
