-- ===== src/Admin/Users/Defs.antt =====
-- The methods of `UserService` in admin/service/user.go that read or write a row of sys_users, with
-- the hook `BeforeUpdate` and `CheckPasswordPolicy` of admin/models/user.go. `Save` writes all columns
-- of the row of an id, after the hook. A query goes through the tenant scope of the context.
use aeus.Common.{
  ℕ, ◌==◌, Bytes, codes, Bool, true, false, not, ◌&&◌, ◌||◌, List, [], ◌∷◌, length, ltb, leb,
  if◌then◌else◌, ◌=ᵇ◌, has_prefix, Option, none, some, Result, ok, err, ◌≡◌,
}
use aeus.Admin.TenantScope.{Scope, query}

-- `models.User`, without its timestamps and its status.
pub record Account : Type 0 where
  pub id : ℕ
  pub tenant_id : Bytes
  pub uid : Bytes
  pub username : Bytes
  pub role_key : Bytes
  pub dept_id : ℕ
  pub password : Bytes
  pub email : Bytes
  pub avatar : Bytes
  pub gender : Bytes
  pub description : Bytes

pub record RoleRow : Type 0 where
  pub key : Bytes
  pub tenant_id : Bytes
  pub is_super : Bool

pub record Claims : Type 0 where
  pub uid : Bytes
  pub role : Bytes

pub data UserError : Type 0 where
  access_denied not_found invalid_password same_password invalid : UserError
  policy_length policy_charset policy_mix : UserError
  request_error db_error hash_error : ℕ → UserError

pub data Query : Type 0 where
  find_user find_role save_user update_avatar : Query

pub record Tables : Type 0 where
  pub accounts : List Account
  pub roles : List RoleRow
  pub failure : Query → Option ℕ

-- What bcrypt does.
pub record Bcrypt : Type 0 where
  pub generate : Bytes → Result ℕ Bytes
  pub compare_hash : Bytes → Bytes → Bool

-- The documented behaviour of bcrypt: a password matches the hash that was generated from it.
pub record HashesSoundly (x : Bcrypt) : Type 0 where
  pub matches : (pwd hash : Bytes) → x.generate pwd ≡ ok hash → x.compare_hash hash pwd ≡ true
  pub filled : (pwd hash : Bytes) → x.generate pwd ≡ ok hash → (hash =ᵇ []) ≡ false

-- The context of a call: the claims that the middleware stored, and the tenant scope.
pub record Context : Type 0 where
  pub claims : Option Claims
  pub scope : Scope

abbrev pub is_letter : ℕ → Bool
is_letter r = (leb b'a' r && leb r b'z') || (leb b'A' r && leb r b'Z')

abbrev pub is_digit : ℕ → Bool
is_digit r = leb b'0' r && leb r b'9'

-- The loop of `CheckPasswordPolicy`, and the test after it. A byte above 127 is part of a rune that
-- is no letter and no digit here.
unfoldable pub policy_scan : Bool → Bool → Bytes → Option UserError
policy_scan has_letter has_digit [] =
    if not has_letter || not has_digit then some policy_mix else none
policy_scan has_letter has_digit (r ∷ pwd) =
    let letter = policy_scan true has_digit pwd in
    let digit = policy_scan has_letter true pwd in
    if is_letter r then letter else if is_digit r then digit else some policy_charset

-- `CheckPasswordPolicy`.
unfoldable pub check_password_policy : Bytes → Option UserError
check_password_policy pwd =
    if ltb (length pwd) 8 || ltb 32 (length pwd)
    then some policy_length
    else policy_scan false false pwd

-- A value that counts as hashed.
abbrev pub is_hashed : Bytes → Bool
is_hashed pwd = (pwd =ᵇ []) || has_prefix pwd (codes "$2")

-- `checkPlaintextPasswordPolicy`.
unfoldable pub check_plaintext_password_policy : Bytes → Option UserError
check_plaintext_password_policy pwd = if is_hashed pwd then none else check_password_policy pwd

-- `hashPassword`.
unfoldable pub hash_password : Bcrypt → Bytes → Result UserError Bytes
hash_password x pwd =
    if is_hashed pwd
    then ok pwd
    else elim (x.generate pwd) [ err e ↦ err (hash_error e) | ok h ↦ ok h ]

-- `BeforeUpdate`.
unfoldable pub before_update : Bcrypt → Account → Result UserError Account
before_update x m = elim (check_plaintext_password_policy m.password) [
  | some e ↦ err e
  | none ↦ elim (hash_password x m.password) [
    | err e ↦ err e
    | ok hashed ↦ ok (record m { password = hashed })
  ]
]

abbrev pub account_tenant : Account → Bytes
account_tenant a = a.tenant_id

-- `First` of a query.
abbrev pub head {ℓ} : {A : Type ℓ} → List A → Option A
head [] = none
head (row ∷ rows) = some row

unfoldable pub store : Account → List Account → List Account
store a [] = []
store a (row ∷ rows) =
    let stored = store a rows in if row.id == a.id then a ∷ stored else row ∷ stored

abbrev pub run {ℓ} : {A : Type ℓ} → Tables → Query → A → Result UserError A
run db q rows = elim (db.failure q) [ none ↦ ok rows | some e ↦ err (db_error e) ]

-- The answer of a call and the table of accounts that it leaves.
abbrev pub Reply : Type 0 → Type 0
Reply A = Result UserError A × List Account

abbrev pub refuse : {A : Type 0} → Tables → UserError → Reply A
refuse db e = (err e, db.accounts)

-- `Where("uid = ?", uid).First(u)`, with a missing row as an error.
unfoldable pub load_by_uid : Scope → Tables → Bytes → Result UserError Account
load_by_uid sc db uid =
    elim (run db find_user (head (query account_tenant sc (λ a. a.uid =ᵇ uid) db.accounts))) [
      | err e ↦ err e
      | ok found ↦ elim found [ none ↦ err UserError.not_found | some a ↦ ok a ]
    ]

-- `Save(u)`.
unfoldable pub save : Bcrypt → Tables → Account → Result UserError (List Account)
save x db a = elim (before_update x a) [
  | err e ↦ err e
  | ok hashed ↦ run db save_user (store hashed db.accounts)
]

-- The call of `Save` that ends a method, and what it answers then.
abbrev pub saved : {A : Type 0} → Bcrypt → Tables → Account → A → Reply A
saved x db a answer = elim (save x db a) [
  | err e ↦ refuse db e
  | ok accounts ↦ (ok answer, accounts)
]

-- `ClaimsFromContext`.
abbrev pub with_claims : {A : Type 0} → Tables → Context → (Claims → Reply A) → Reply A
with_claims db ctx next = elim (ctx.claims) [
  | none ↦ refuse db UserError.access_denied
  | some c ↦ next c
]

-- `ClaimsFromContext` and `loadByUID`.
abbrev pub with_own : {A : Type 0} → Tables → Context → (Account → Reply A) → Reply A
with_own db ctx next =
    with_claims db ctx
      (λ c. elim (load_by_uid ctx.scope db c.uid) [ err e ↦ refuse db e | ok u ↦ next u ])

-- `profileFromUser`.
pub record UserProfile : Type 0 where
  pub uid : Bytes
  pub username : Bytes
  pub email : Bytes
  pub gender : Bytes
  pub description : Bytes
  pub avatar : Bytes
  pub role : Bytes
  pub dept_id : ℕ

unfoldable pub profile_from_user : Account → UserProfile
profile_from_user u = record {
  uid = u.uid;
  username = u.username;
  email = u.email;
  gender = u.gender;
  description = u.description;
  avatar = u.avatar;
  role = u.role_key;
  dept_id = u.dept_id;
}
