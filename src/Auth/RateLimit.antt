-- ===== src/Auth/RateLimit.antt =====
-- `RateLimit`, `expandKey` and `publishRetryAfter` of middleware/auth/rate_limit.go, over any limiter.
-- A duration is in nanoseconds and not negative.
use aeus.Common.{
  ℕ, zero, suc, ◌+◌, ◌-◌, ◌/◌, Bytes, codes, Bool, true, false, not, List, [], ◌∷◌, ◌++◌, ltb,
  if◌then◌else◌, ◌=ᵇ◌, has_prefix, length, Option, none, some, Result, ok, err, ap, ◌≡◌, ◌↔◌, ◌⊎◌,
  refl, inl, inr, arith, Bool-cases,
}
use aeus.Auth.Allow.{is_allowed}

-- The string values of jwt.MapClaims under uid, sub and tid.
pub record MapClaims : Type 0 where
  pub uid : Option Bytes
  pub sub : Option Bytes
  pub tid : Option Bytes

-- The metadata and the claims of the context, where these are MapClaims.
pub record Context : Type 0 where
  pub client_ip : Bytes
  pub path : Bytes
  pub claims : Option MapClaims

-- `Limiter.Allow`, whose error is a number, with the state of the limiter.
abbrev pub Limiter : Type 0 → Type 0
Limiter S = S → Bytes → Result ℕ (Bool × ℕ) × S

pub data RateError : Type 0 where
  internal too_many_attempts : ℕ → RateError

-- The error of the middleware, the Retry-After header that it publishes, and the limiter after it.
pub record RateReply (S : Type 0) : Type 0 where
  pub error : Option RateError
  pub retry_after : Option ℕ
  pub limiter : S

-- `strings.ReplaceAll` of a text that is not empty; the first argument counts the bytes to skip.
unfoldable pub replace_from : ℕ → Bytes → Bytes → Bytes → Bytes
replace_from skip old new [] = []
replace_from (suc skip) old new (b ∷ s) = replace_from skip old new s
replace_from zero old new (b ∷ s) =
    let kept = replace_from zero old new s in
    let replaced = replace_from (length old - 1) old new s in
    if has_prefix (b ∷ s) old then new ++ replaced else b ∷ kept

abbrev pub text_or : Option Bytes → Bytes → Bytes
text_or none other = other
text_or (some s) other = if s =ᵇ [] then other else s

abbrev pub user_of_claims : Option MapClaims → Bytes
user_of_claims none = []
user_of_claims (some c) = text_or c.uid (text_or c.sub [])

abbrev pub tenant_of_claims : Option MapClaims → Bytes
tenant_of_claims none = []
tenant_of_claims (some c) = text_or c.tid []

-- `expandKey`.
unfoldable pub expand_key : Context → Bytes → Bytes
expand_key ctx tmpl =
    let with_ip = replace_from zero (codes "{ip}") ctx.client_ip tmpl in
    let with_user = replace_from zero (codes "{user}") (user_of_claims ctx.claims) with_ip in
    let with_tenant =
      replace_from zero (codes "{tenant}") (tenant_of_claims ctx.claims) with_user in
    replace_from zero (codes "{path}") ctx.path with_tenant

-- The seconds of `publishRetryAfter`: rounded, and at least one.
unfoldable pub retry_seconds : ℕ → ℕ
retry_seconds retry_after =
    let seconds = (retry_after + 500000000) / 1000000000 in if ltb seconds 1 then 1 else seconds

module _ {S : Type 0} (allow : Limiter S) (ctx : Context) where
  abbrev pub answered : Result ℕ (Bool × ℕ) → S → RateReply S → RateReply S
  answered (err e) s next = record { error = some (internal e); retry_after = none; limiter = s }
  answered (ok (true, _)) s next = next
  answered (ok (false, retry)) s next = record {
    error = some (too_many_attempts retry);
    retry_after = if ltb 0 retry then some (retry_seconds retry) else none;
    limiter = s;
  }

  -- The loop over the templates.
  unfoldable pub consult : S → List Bytes → RateReply S
  consult s [] = record { error = none; retry_after = none; limiter = s }
  consult s (tmpl ∷ keys) =
      let (answer, left) = allow s (expand_key ctx tmpl) in answered answer left (consult left keys)

  -- The middleware; no error is the call of the next handler.
  unfoldable pub rate_limit : Bytes → List Bytes → S → RateReply S
  rate_limit protected keys s =
      if not (is_allowed ctx.path (protected ∷ []))
      then record { error = none; retry_after = none; limiter = s }
      else consult s keys

  -- The limiter allows the key of each template in turn.
  pub data AllAllowed : S → List Bytes → S → Type 0 where
    done : (s : S) → AllAllowed s [] s
    allowed :
        (s left end : S) (tmpl : Bytes) (keys : List Bytes) (retry : ℕ)
        → allow s (expand_key ctx tmpl) ≡ (ok (true, retry), left)
        → AllAllowed left keys end
        → AllAllowed s (tmpl ∷ keys) end

  AllAllowed-consult :
      (s end : S) (keys : List Bytes)
      → AllAllowed s keys end
      → ((consult s keys).error ≡ none) × ((consult s keys).limiter ≡ end)
  unfolding consult
  AllAllowed-consult s end keys (done _) = (refl, refl)
  AllAllowed-consult s end keys (allowed _ left _ tmpl more retry h rest) =
      let (e, l) = AllAllowed-consult left end more rest in (rw (h, consult) e, rw (h, consult) l)

  answered-passes :
      (a : Result ℕ (Bool × ℕ)) (left : S) (rest : RateReply S)
      → (answered a left rest).error ≡ none
      → (retry : ℕ) × (a ≡ ok (true, retry)) × (rest.error ≡ none)
  answered-passes (err e) left rest h = cc
  answered-passes (ok (true, retry)) left rest h = (retry, refl, h)
  answered-passes (ok (false, retry)) left rest h = cc

  consult-AllAllowed :
      (s : S) (keys : List Bytes)
      → (consult s keys).error ≡ none
      → (end : S) × AllAllowed s keys end
  unfolding consult
  consult-AllAllowed s [] h = (s, done s)
  consult-AllAllowed s (tmpl ∷ keys) h =
      let answer = allow s (expand_key ctx tmpl) in
      let (retry, a, e) = answered-passes answer.0 answer.1 (consult answer.1 keys) h in
      let (end, rest) = consult-AllAllowed answer.1 keys e in
      (end, allowed s answer.1 end tmpl keys retry (ap (λ x. (x, answer.1)) a) rest)

  -- The middleware lets a request through exactly when its path is not protected or the limiter, asked
  -- in the order of the templates, allows the key of each; an error of the limiter does not pass.
  pub rate_limit-passes_iff :
      (protected : Bytes) (keys : List Bytes) (s : S)
      → ((rate_limit protected keys s).error ≡ none)
        ↔ ((is_allowed ctx.path (protected ∷ []) ≡ false) ⊎ ((end : S) × AllAllowed s keys end))
  unfolding rate_limit
  rate_limit-passes_iff protected keys s =
      elim (Bool-cases (is_allowed ctx.path (protected ∷ []))) [
        | inr out ↦ (λ h. inl out, λ h. ground (arith, out))
        | inl covered ↦ (
          λ h. inr (consult-AllAllowed s keys (ground (arith, covered, h))),
          λ h. elim h [
            | inl out ↦ absurd (ground (arith, covered, out))
            | inr (end, all) ↦ ground (arith, covered, (AllAllowed-consult s end keys all).0)
          ],
        )
      ]
