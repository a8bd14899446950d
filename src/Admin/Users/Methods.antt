-- ===== src/Admin/Users/Methods.antt =====
-- `Profile`, `UpdateProfile`, `ChangePassword`, `ResetPassword` and `SetAvatarByURL` of
-- admin/service/user.go. `invalid_request` is the validation that protoc generates.
use aeus.Common.{
  ℕ, ◌==◌, Bytes, Bool, false, not, ◌&&◌, ◌||◌, List, [], ◌∷◌, length, ltb, if◌then◌else◌, ◌=ᵇ◌,
  Option, none, some, ok, err,
}
use aeus.Auth.Jwt.{trim_space}
use aeus.Admin.TenantScope.{query, in_scope}
use aeus.Admin.Users.Defs.{
  Account, RoleRow, Claims, UserError, request_error, find_role, update_avatar, Tables, Bcrypt,
  Context, account_tenant, head, run, Reply, refuse, load_by_uid, saved, with_claims, with_own,
  UserProfile, profile_from_user,
}

pub record UpdateProfileRequest : Type 0 where
  pub username : Bytes
  pub email : Bytes
  pub gender : Bytes
  pub description : Bytes

abbrev pub checked : {A : Type 0} → Tables → Option ℕ → Reply A → Reply A
checked db none next = next
checked db (some e) next = refuse db (request_error e)

abbrev pub filled_or : Bytes → Bytes → Bytes
filled_or s other = if s =ᵇ [] then other else s

abbrev pub default_avatar_max_len : ℕ
default_avatar_max_len = 1024

abbrev pub role_tenant : RoleRow → Bytes
role_tenant r = r.tenant_id

module _ (x : Bcrypt) (db : Tables) (ctx : Context) where
  unfoldable pub profile : Reply UserProfile
  profile = with_own db ctx (λ u. (ok (profile_from_user u), db.accounts))

  -- The row with the fields of the request that are not empty.
  unfoldable pub updated : UpdateProfileRequest → Account → Account
  updated req u = record u {
    username = filled_or req.username u.username;
    email = filled_or req.email u.email;
    gender = filled_or req.gender u.gender;
    description = filled_or req.description u.description;
  }

  unfoldable pub update_profile : Option ℕ → UpdateProfileRequest → Reply UserProfile
  update_profile invalid_request req =
      checked db invalid_request
        (with_own db ctx (λ u. saved x db (updated req u) (profile_from_user (updated req u))))

  unfoldable pub validate_password : Account → Bytes → Bool
  validate_password u pwd =
      if (u.password =ᵇ []) || (pwd =ᵇ []) then false else x.compare_hash u.password pwd

  -- The change in a row, once it is loaded.
  unfoldable pub change_own : Bytes → Bytes → Account → Reply (Unit {0})
  change_own old new u =
      if not (validate_password u old)
      then refuse db UserError.invalid_password
      else if new =ᵇ old
      then refuse db UserError.same_password
      else saved x db (record u { password = new }) tt

  unfoldable pub change_password : Option ℕ → Bytes → Bytes → Reply (Unit {0})
  change_password invalid_request old new =
      checked db invalid_request (with_own db ctx (change_own old new))

  -- The row of the target, for a caller that is super.
  unfoldable pub reset_target : Bytes → Bytes → Reply Bytes
  reset_target target_uid new = elim (load_by_uid ctx.scope db target_uid) [
    | err e ↦ refuse db e
    | ok target ↦ saved x db (record target { password = new }) target.uid
  ]

  unfoldable pub reset_as : Bytes → Bytes → Bytes → Reply Bytes
  reset_as role target_uid new =
      elim (run db find_role (head (query role_tenant ctx.scope (λ r. r.key =ᵇ role) db.roles))) [
        | err e ↦ refuse db e
        | ok found ↦ elim found [
          | none ↦ refuse db UserError.access_denied
          | some r ↦
              if not r.is_super
              then refuse db UserError.access_denied
              else reset_target target_uid new
        ]
      ]

  unfoldable pub reset_password : Option ℕ → Bytes → Bytes → Reply Bytes
  reset_password invalid_request target_uid new =
      checked db invalid_request (with_claims db ctx (λ c. reset_as c.role target_uid new))

  -- The rows with the avatar set where the uid and the scope match, and how many match.
  unfoldable pub set_avatar : Bytes → Bytes → List Account → List Account
  set_avatar uid url [] = []
  set_avatar uid url (a ∷ rows) =
      let rest = set_avatar uid url rows in
      if in_scope ctx.scope a.tenant_id && (a.uid =ᵇ uid)
      then record a { avatar = url } ∷ rest
      else a ∷ rest

  unfoldable pub avatar_for : Bytes → Bytes → Reply Bytes
  avatar_for uid url = elim (run db update_avatar (set_avatar uid url db.accounts)) [
    | err e ↦ refuse db e
    | ok accounts ↦
        if length (query account_tenant ctx.scope (λ a. a.uid =ᵇ uid) db.accounts) == 0
        then refuse db UserError.not_found
        else (ok url, accounts)
  ]

  unfoldable pub own_avatar : Bytes → Claims → Reply Bytes
  own_avatar url c =
      if (url =ᵇ []) || ltb default_avatar_max_len (length url)
      then refuse db UserError.invalid
      else avatar_for c.uid url

  unfoldable pub set_avatar_by_url : Option ℕ → Bytes → Reply Bytes
  set_avatar_by_url invalid_request avatar_url =
      checked db invalid_request (with_claims db ctx (own_avatar (trim_space avatar_url)))
