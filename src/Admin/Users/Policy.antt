-- ===== src/Admin/Users/Policy.antt =====
-- What `CheckPasswordPolicy` of admin/models/user.go accepts, and what a stored password has passed.
use aeus.Common.{
  ℕ, ◌≤◌, Bytes, Bool, true, false, ◌||◌, [], ◌∷◌, any, all, length, none, ok, err, ◌≡◌, ◌↔◌, ap,
  ◌∙◌, ◌⊎◌, inl, inr, arith, Bool-cases, Option-cases, Result-cases,
}
use aeus.Admin.Users.Defs.{
  Account, Bcrypt, HashesSoundly, is_letter, is_digit, is_hashed, policy_scan,
  check_password_policy, check_plaintext_password_policy, hash_password, before_update,
}

-- What the loop accepts, given what it has seen.
scan-all :
    (l d : Bool) (pwd : Bytes)
    → policy_scan l d pwd ≡ none
    → (all (λ r. is_letter r || is_digit r) pwd ≡ true)
      × ((l || any is_letter pwd) ≡ true)
      × ((d || any is_digit pwd) ≡ true)
unfolding policy_scan
scan-all l d [] h = ground arith
scan-all l d (r ∷ pwd) h = ground (arith, scan-all true d pwd, scan-all l true pwd)

all-scan :
    (l d : Bool) (pwd : Bytes)
    → all (λ r. is_letter r || is_digit r) pwd ≡ true
    → (l || any is_letter pwd) ≡ true
    → (d || any is_digit pwd) ≡ true
    → policy_scan l d pwd ≡ none
unfolding policy_scan
all-scan l d [] a b c = ground arith
all-scan l d (r ∷ pwd) a b c = ground (arith, all-scan true d pwd, all-scan l true pwd)

-- The policy in words: 8 to 32 bytes, each a letter or a digit, with one of each.
pub record Strong (pwd : Bytes) : Type 0 where
  pub long : 8 ≤ length pwd
  pub short : length pwd ≤ 32
  pub charset : all (λ r. is_letter r || is_digit r) pwd ≡ true
  pub letter : any is_letter pwd ≡ true
  pub digit : any is_digit pwd ≡ true

-- A password passes the policy exactly when it has 8 to 32 bytes, all of them ASCII letters or
-- digits, and one of each kind.
pub check_password_policy-none_iff : (pwd : Bytes) → (check_password_policy pwd ≡ none) ↔ Strong pwd
unfolding check_password_policy
check_password_policy-none_iff pwd = (to, from)
  where
    to : check_password_policy pwd ≡ none → Strong pwd
    to h =
        let scanned = scan-all false false pwd (ground (arith, h)) in
        record {
          long = ground (arith, h);
          short = ground (arith, h);
          charset = scanned.0;
          letter = scanned.1;
          digit = scanned.2;
        }

    from : Strong pwd → check_password_policy pwd ≡ none
    from s = ground (arith, s.long, s.short, all-scan false false pwd s.charset s.letter s.digit)

-- The password of a row that the hook lets pass was marked as hashed and stays, or was strong and is
-- replaced by a hash that it matches.
pub before_update-password :
    (x : Bcrypt) (m m' : Account)
    → HashesSoundly x
    → before_update x m ≡ ok m'
    → ((is_hashed m.password ≡ true) × (m' ≡ m))
      ⊎ (Strong m.password
          × (x.generate m.password ≡ ok m'.password)
          × (x.compare_hash m'.password m.password ≡ true))
unfolding before_update check_plaintext_password_policy hash_password
before_update-password x m m' sound h = elim (Bool-cases (is_hashed m.password)) [
  | inl e ↦ inl (e, ground (arith, e, h))
  | inr e ↦ elim (Result-cases (x.generate m.password)) [
    | inl (n, g) ↦ absurd (ungenerated e n g)
    | inr (hash, g) ↦
        let stored = g ∙ ap ok (replaced e hash g) in
        inr (
          (check_password_policy-none_iff m.password).0 (strong e),
          stored,
          sound.matches m.password m'.password stored,
        )
  ]
]
  where
    strong : is_hashed m.password ≡ false → check_password_policy m.password ≡ none
    strong e = elim (Option-cases (check_password_policy m.password)) [
      | inl p ↦ p
      | inr (n, p) ↦ absurd (ground (arith, e, p, h))
    ]

    ungenerated : is_hashed m.password ≡ false → (n : ℕ) → x.generate m.password ≡ err n → ⊥
    ungenerated e n g = ground (arith, e, g, strong e, h)

    replaced :
        is_hashed m.password ≡ false
        → (hash : Bytes) → x.generate m.password ≡ ok hash
        → hash ≡ m'.password
    replaced e hash g = ground (arith, e, g, strong e, h)
