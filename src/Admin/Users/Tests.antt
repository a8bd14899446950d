-- ===== src/Admin/Users/Tests.antt =====
-- The methods on the caller's own row, and the reset, at concrete inputs.
use aeus.Common.{
  Bytes, codes, true, false, List, [], ◌∷◌, ◌++◌, ◌=ᵇ◌, =ᵇ_refl, has_prefix, none, some, ok, err,
  ◌≡◌, refl, arith,
}
use aeus.Auth.Jwt.{trim_space, trim_reversed, trim_front}
use aeus.Admin.TenantScope.{tenant_clause, in_scope, query}
use aeus.Admin.Users.Defs.{
  Account, access_denied, policy_mix, Tables, Bcrypt, HashesSoundly, Context, load_by_uid, save,
  store, before_update, policy_scan, check_password_policy, check_plaintext_password_policy,
  hash_password, profile_from_user,
}
use aeus.Admin.Users.Methods.{
  UpdateProfileRequest, updated, update_profile, validate_password, change_own, change_password,
  reset_target, reset_as, reset_password, set_avatar, avatar_for, own_avatar, set_avatar_by_url,
}
use aeus.Admin.Users.Policy.{Strong, check_password_policy-none_iff}
use aeus.Admin.Users.Own.{Changed, change_password-Changed, Updated, update_profile-Updated}
use aeus.Admin.Users.Reset.{Reset, reset_password-Reset}

-- A hash that marks its password.
abbrev marking : Bcrypt
marking = record {
  generate = λ pwd. ok (codes "$2" ++ pwd);
  compare_hash = λ hash pwd. hash =ᵇ (codes "$2" ++ pwd);
}

marking-HashesSoundly : HashesSoundly marking
unfolding ◌=ᵇ◌
marking-HashesSoundly = record {
  matches = λ pwd hash g. ground (arith, g, =ᵇ_refl (codes "$2" ++ pwd));
  filled = λ pwd hash g. ground (arith, g);
}

abbrev ann : Account
ann = record {
  id = 7;
  tenant_id = codes "t1";
  uid = codes "u7";
  username = codes "ann";
  role_key = codes "root";
  dept_id = 3;
  password = codes "$2secret12";
  email = [];
  avatar = [];
  gender = [];
  description = [];
}

abbrev bob : Account
bob = record ann { id = 8; uid = codes "u8"; username = codes "bob"; role_key = codes "ops" }

abbrev tables : Tables
tables = record {
  accounts = ann ∷ bob ∷ [];
  roles =
      record { key = codes "root"; tenant_id = codes "t1"; is_super = true }
      ∷ record { key = codes "ops"; tenant_id = codes "t1"; is_super = false }
      ∷ [];
  failure = λ which. none;
}

abbrev context_of : Bytes → Bytes → Context
context_of uid role = record {
  claims = some (record { uid = uid; role = role });
  scope = record { installed = true; bypassed = false; resolved = codes "t1" };
}

abbrev as_ann : Context
as_ann = context_of (codes "u7") (codes "root")

abbrev as_bob : Context
as_bob = context_of (codes "u8") (codes "ops")

abbrev fresh : List Account
fresh = record ann { password = codes "$2fresh123" } ∷ bob ∷ []

changes :
    change_password marking tables as_ann none (codes "secret12") (codes "fresh123")
    ≡ (ok tt, fresh)
unfolding change_password change_own validate_password load_by_uid query in_scope tenant_clause save
    store before_update check_plaintext_password_policy hash_password check_password_policy
    policy_scan ◌=ᵇ◌ has_prefix
changes = refl

resets :
    reset_password marking tables as_ann none (codes "u8") (codes "fresh123")
    ≡ (ok (codes "u8"), ann ∷ record bob { password = codes "$2fresh123" } ∷ [])
unfolding reset_password reset_as reset_target load_by_uid query in_scope tenant_clause save store
    before_update check_plaintext_password_policy hash_password check_password_policy policy_scan
    ◌=ᵇ◌ has_prefix
resets = refl

-- A caller whose role is not super is refused.
refuses_reset :
    reset_password marking tables as_bob none (codes "u7") (codes "fresh123")
    ≡ (err access_denied, ann ∷ bob ∷ [])
unfolding reset_password reset_as reset_target query in_scope tenant_clause ◌=ᵇ◌
refuses_reset = refl

-- A new password that starts with `$2` is stored as it is, and a weak one is refused.
stores_marked :
    change_password marking tables as_ann none (codes "secret12") (codes "$2")
    ≡ (ok tt, record ann { password = codes "$2" } ∷ bob ∷ [])
unfolding change_password change_own validate_password load_by_uid query in_scope tenant_clause save
    store before_update check_plaintext_password_policy hash_password ◌=ᵇ◌ has_prefix
stores_marked = refl

refuses_weak :
    change_password marking tables as_ann none (codes "secret12") (codes "abcdefgh")
    ≡ (err policy_mix, ann ∷ bob ∷ [])
unfolding change_password change_own validate_password load_by_uid query in_scope tenant_clause save
    before_update check_plaintext_password_policy check_password_policy policy_scan ◌=ᵇ◌ has_prefix
refuses_weak = refl

-- An update of a profile may take the name of another row.
abbrev to_bob : UpdateProfileRequest
to_bob = record { username = codes "bob"; email = []; gender = []; description = [] }

abbrev two_bobs : List Account
two_bobs = record ann { username = codes "bob" } ∷ bob ∷ []

takes_name :
    update_profile marking tables as_ann none to_bob
    ≡ (ok (profile_from_user (record ann { username = codes "bob" })), two_bobs)
unfolding update_profile updated load_by_uid query in_scope tenant_clause save store before_update
    check_plaintext_password_policy hash_password ◌=ᵇ◌ has_prefix
takes_name = refl

sets_avatar :
    set_avatar_by_url marking tables as_bob none (codes " a.png ")
    ≡ (ok (codes "a.png"), ann ∷ record bob { avatar = codes "a.png" } ∷ [])
unfolding set_avatar_by_url own_avatar avatar_for set_avatar query in_scope tenant_clause ◌=ᵇ◌
    trim_space trim_reversed trim_front
sets_avatar = refl

change_password-Changed_example :
    Changed marking tables as_ann (codes "secret12") (codes "fresh123") fresh
change_password-Changed_example =
    change_password-Changed marking tables as_ann marking-HashesSoundly none (codes "secret12")
      (codes "fresh123") fresh changes

update_profile-Updated_example : Updated marking tables as_ann to_bob two_bobs
update_profile-Updated_example =
    update_profile-Updated marking tables as_ann none to_bob
      (profile_from_user (record ann { username = codes "bob" })) two_bobs takes_name

reset_password-Reset_example :
    Reset marking tables as_ann
      (codes "u8")
      (codes "fresh123")
      (codes "u8")
      (ann ∷ record bob { password = codes "$2fresh123" } ∷ [])
reset_password-Reset_example =
    reset_password-Reset marking tables as_ann marking-HashesSoundly none (codes "u8")
      (codes "fresh123") (codes "u8") (ann ∷ record bob { password = codes "$2fresh123" } ∷ [])
      resets

check_password_policy-none_iff_example : Strong (codes "secret12")
unfolding check_password_policy policy_scan
check_password_policy-none_iff_example = (check_password_policy-none_iff (codes "secret12")).0 refl
