-- ===== src/Auth/Tests.antt =====
-- Allowlist patterns at concrete paths.
use aeus.Common.{
  subst, sym, byte_is-snoc, ◌-◌, Bytes, codes, List, [], ◌∷◌, ◌≡◌, refl, ◌↔◌, true, false, ◌=ᵇ◌,
  Bool, arith, has_prefix, byte_is, length,
}
use aeus.Auth.Allow.{is_allowed, slash}
use aeus.Auth.Matching.{Covers, EndsIn, AnyOf, is_allowed_iff}
use aeus.Common.{ℕ, none, some}
use aeus.Auth.Jwt.{JwtOptions, JwtRequest, token, next, jwt}
use aeus.Common.{ltb, ok, ◌⊎◌, false}
use aeus.Auth.RateLimit.{
  Context, Limiter, too_many_attempts, replace_from, expand_key, consult, rate_limit, AllAllowed,
  rate_limit-passes_iff,
}
use aeus.Auth.Pipeline.{Passes, jwt-next_iff}

abbrev patterns : List Bytes
patterns = codes "/auth/login" ∷ codes "/api/*" ∷ []

within_segment : is_allowed (codes "/api/users") patterns ≡ true
unfolding is_allowed ◌=ᵇ◌ has_prefix byte_is
within_segment = refl

is_allowed_iff_example :
    (is_allowed (codes "/health") patterns ≡ true)
    ↔ AnyOf (λ p. Covers p (codes "/health")) patterns
is_allowed_iff_example = is_allowed_iff (codes "/health") patterns

no_final_slash : ¬ EndsIn slash (codes "/api")
unfolding byte_is
no_final_slash (front, e) = false_true (
    subst (λ (z : Bytes). byte_is z (length z - 1) slash ≡ true) (sym e) (byte_is-snoc front slash))
  where
    false_true : ◌≡◌ {A = Bool} false true → ⊥
    false_true h = ground (arith, h)

-- The claims are a number, and the one token that parses is "abc".
abbrev options : JwtOptions ℕ ℕ ℕ ℕ
options = record {
  allows = patterns;
  parse_claims = none;
  parse_map = λ raw. token 7 (raw =ᵇ codes "abc");
  validate = none;
  permission_checker = some (λ c. none);
}

abbrev with_abc : JwtRequest
with_abc = record { path = some (codes "/users"); authorization = some (codes "Bearer abc") }

jwt-next_iff_example :
    ((jwt options 0 with_abc).0 ≡ next (some 7)) ↔ Passes options 0 with_abc (some 7)
jwt-next_iff_example = jwt-next_iff options 0 with_abc (some 7)

-- A limiter whose state is the number of calls that it still allows.
abbrev countdown : Limiter ℕ
countdown = λ s key. (ok (ltb 0 s, 9), s - 1)

abbrev login_call : Context
login_call = record {
  client_ip = codes "::1";
  path = codes "/auth/login";
  claims = some (record { uid = none; sub = some (codes "ann"); tid = none });
}

expands : expand_key login_call (codes "{ip}/{user}/{x}") ≡ codes "::1/ann/{x}"
unfolding expand_key replace_from has_prefix ◌=ᵇ◌
expands = refl

limits :
    (rate_limit countdown login_call (codes "/auth/*") (codes "a" ∷ codes "b" ∷ []) 1).error
    ≡ some (too_many_attempts 9)
unfolding rate_limit consult is_allowed has_prefix byte_is ◌=ᵇ◌
limits = refl

rate_limit-passes_iff_example :
    ((rate_limit countdown login_call (codes "/auth/*") (codes "{ip}" ∷ []) 5).error ≡ none) ↔ (
      (is_allowed (codes "/auth/login") (codes "/auth/*" ∷ []) ≡ false)
      ⊎ ((end : ℕ) × AllAllowed countdown login_call 5 (codes "{ip}" ∷ []) end))
rate_limit-passes_iff_example =
    rate_limit-passes_iff countdown login_call (codes "/auth/*") (codes "{ip}" ∷ []) 5
