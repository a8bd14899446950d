-- ===== src/Admin/Guards/Identity.antt =====
-- What the check of a login identity in admin/security_guards.go says of the rows of sys_users.
use aeus.Common.{
  ℕ, ◌+◌, ◌≤◌, ◌==◌, Bytes, Bool, true, false, not, ◌&&◌, ◌||◌, List, [], ◌∷◌, ◌++◌, if◌then◌else◌,
  ◌=ᵇ◌, =ᵇ_sound, Option, none, some, All, ◌≡◌, refl, subst, ◌⊎◌, inl, inr, arith, Bool-cases,
  Option-cases,
}
use aeus.Admin.TenantScope.{Scope, without_tenant, tenant_clause, in_scope, query}
use aeus.Admin.Guards.Defs.{
  UserRow, Tables, Request, find_matches, head, user_tenant, holds, ensure_login_identity_unique,
}

-- How many rows have a value in one of the two columns, and how many have an id.
unfoldable pub count_holding : Bytes → List UserRow → ℕ
count_holding value [] = 0
count_holding value (u ∷ users) =
    let n = count_holding value users in if holds value u then n + 1 else n

unfoldable pub count_id : ℕ → List UserRow → ℕ
count_id id [] = 0
count_id id (u ∷ users) = let n = count_id id users in if u.id == id then n + 1 else n

-- No value that is not empty stands in two rows.
abbrev pub DistinctLogins : List UserRow → Type 0
DistinctLogins users = (value : Bytes) → count_holding value users ≤ 1

-- The table after an update of the two columns in the row of an id.
unfoldable pub store_identity : ℕ → Bytes × Bytes → List UserRow → List UserRow
store_identity id identity [] = []
store_identity id identity (u ∷ users) =
    let stored = store_identity id identity users in
    if u.id == id then record u { uid = identity.0; username = identity.1 } ∷ stored else u ∷ stored

-- The test of `find_matches`, and what it leaves when no row passes.
abbrev pub matches : Bytes → Bytes → ℕ → UserRow → Bool
matches uid username id u = (holds uid u || holds username u) && ((id == 0) || not (u.id == id))

abbrev pub NoMatch : Bytes → Bytes → ℕ → List UserRow → Type 0
NoMatch uid username id users = All (λ u. matches uid username id u ≡ false) users

query-none :
    (sc : Scope) (p : UserRow → Bool) (users : List UserRow)
    → head (query user_tenant (without_tenant sc) p users) ≡ none
    → All (λ u. p u ≡ false) users
unfolding query in_scope tenant_clause
query-none sc p [] h = tt
query-none sc p (u ∷ users) h = elim (Bool-cases (p u)) [
  | inl e ↦ absurd (found e)
  | inr e ↦ (e, query-none sc p users (ground (arith, e, h)))
]
  where
    found : p u ≡ true → ⊥
    found e = ground (arith, e, h)

-- What the check of a pair that is not empty has established.
pub ensure-NoMatch :
    (q : Request) (db : Tables) (uid username : Bytes) (id : ℕ)
    → ensure_login_identity_unique q db uid username id ≡ none
    → ((uid =ᵇ []) && (username =ᵇ [])) ≡ false
    → NoMatch uid username id db.users
unfolding ensure_login_identity_unique
ensure-NoMatch q db uid username id h filled =
    query-none q.scope (matches uid username id) db.users (free (db.failure find_matches) refl)
  where
    rows : List UserRow
    rows = query user_tenant (without_tenant q.scope) (matches uid username id) db.users

    free : (f : Option ℕ) → db.failure find_matches ≡ f → head rows ≡ none
    free (some e) p = absurd (ground (arith, p, h, filled))
    free none p = elim (Option-cases (head rows)) [
      | inl e ↦ e
      | inr (u, e) ↦ absurd (ground (arith, p, e, h, filled))
    ]

query_unmatched :
    (sc : Scope) (p : UserRow → Bool) (users : List UserRow)
    → All (λ u. p u ≡ false) users
    → query user_tenant sc p users ≡ []
unfolding query
query_unmatched sc p [] h = refl
query_unmatched sc p (u ∷ users) (e, h) = ground (arith, e, query_unmatched sc p users h)

-- Where no row matches and the query succeeds, the check passes.
pub NoMatch-ensure :
    (q : Request) (db : Tables) (uid username : Bytes) (id : ℕ)
    → db.failure find_matches ≡ none
    → NoMatch uid username id db.users
    → ensure_login_identity_unique q db uid username id ≡ none
unfolding ensure_login_identity_unique
NoMatch-ensure q db uid username id f n =
    ground (arith, f, query_unmatched (without_tenant q.scope) (matches uid username id) db.users n)

-- A row that passes no match has none of the two values, unless it is the row of the id.
no_match_apart :
    (uid username value : Bytes) (id : ℕ) (u : UserRow)
    → (id == 0) ≡ false
    → (u.id == id) ≡ false
    → matches uid username id u ≡ false
    → (uid ≡ value) ⊎ (username ≡ value)
    → holds value u ≡ false
no_match_apart uid username value id u z i m (inl e) =
    subst (λ v. holds v u ≡ false) e (ground (arith, z, i, m))
no_match_apart uid username value id u z i m (inr e) =
    subst (λ v. holds v u ≡ false) e (ground (arith, z, i, m))

no_match_all :
    (uid username value : Bytes) (u : UserRow)
    → matches uid username 0 u ≡ false
    → (uid ≡ value) ⊎ (username ≡ value)
    → holds value u ≡ false
no_match_all uid username value u m (inl e) = subst (λ v. holds v u ≡ false) e (ground (arith, m))
no_match_all uid username value u m (inr e) = subst (λ v. holds v u ≡ false) e (ground (arith, m))

-- A value of the new pair stands at most in the row that takes the pair.
pub count-store_new :
    (uid username value : Bytes) (id : ℕ) (users : List UserRow)
    → (id == 0) ≡ false
    → (uid ≡ value) ⊎ (username ≡ value)
    → NoMatch uid username id users
    → count_holding value (store_identity id (uid, username) users) ≤ count_id id users
unfolding count_holding store_identity count_id
count-store_new uid username value id [] z new free = omega arith
count-store_new uid username value id (u ∷ users) z new (m, free) = elim (Bool-cases (u.id == id)) [
  | inl i ↦ ground (arith, i, count-store_new uid username value id users z new free)
  | inr i ↦ ground (
    arith,
    i,
    no_match_apart uid username value id u z i m new,
    count-store_new uid username value id users z new free,
  )
]

-- Any other value stands in no more rows than before.
pub count-store_old :
    (uid username value : Bytes) (id : ℕ) (users : List UserRow)
    → (uid =ᵇ value) ≡ false
    → (username =ᵇ value) ≡ false
    → count_holding value (store_identity id (uid, username) users) ≤ count_holding value users
unfolding count_holding store_identity
count-store_old uid username value id [] a b = omega arith
count-store_old uid username value id (u ∷ users) a b =
    ground (arith, a, b, count-store_old uid username value id users a b)

holds_empty : (u : UserRow) → holds [] u ≡ false
unfolding ◌=ᵇ◌
holds_empty u = refl

pub count_empty : (users : List UserRow) → count_holding [] users ≡ 0
unfolding count_holding
count_empty [] = refl
count_empty (u ∷ users) = ground (arith, holds_empty u, count_empty users)

pub count-none :
    (uid username value : Bytes) (users : List UserRow)
    → (uid ≡ value) ⊎ (username ≡ value)
    → NoMatch uid username 0 users
    → count_holding value users ≡ 0
unfolding count_holding
count-none uid username value [] new free = refl
count-none uid username value (u ∷ users) new (m, free) =
    ground
      (arith, no_match_all uid username value u m new, count-none uid username value users new free)

pub count-append :
    (value : Bytes) (users : List UserRow) (u : UserRow)
    → count_holding value (users ++ u ∷ [])
      ≡ count_holding value users + count_holding value (u ∷ [])
unfolding count_holding
count-append value [] u = omega arith
count-append value (v ∷ users) u = ground (arith, count-append value users u)

-- A value is in the pair, or apart from both of its parts.
pub in_pair :
    (uid username value : Bytes)
    → ((uid ≡ value) ⊎ (username ≡ value))
      ⊎ (((uid =ᵇ value) ≡ false) × ((username =ᵇ value) ≡ false))
in_pair uid username value = elim (Bool-cases (uid =ᵇ value)) [
  | inl e ↦ inl (inl (=ᵇ_sound _ _ e))
  | inr e ↦ elim (Bool-cases (username =ᵇ value)) [
    | inl f ↦ inl (inr (=ᵇ_sound _ _ f))
    | inr f ↦ inr (e, f)
  ]
]
