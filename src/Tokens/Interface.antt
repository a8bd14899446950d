-- ===== src/Tokens/Interface.antt =====
-- `TokenStore` of admin/service/auth.go: the denylist as its clients see it, and the in-memory
-- store as one.
use aeus.Common.{ℕ, ◌<◌, Bytes, Bool, true, false, [], Result, ok, ◌≡◌, ◌≢◌, arith}
use aeus.Tokens.Store.{Store, revoke, revoke_if_not_revoked, is_revoked}
use aeus.Tokens.Revocation.{is_revoked-revoke, lookup-record_revocation}

-- What a store answers to a claim, and the store after it.
abbrev pub Answer : Type 0 → Type 0
Answer S = Result ℕ (Bool × S)

-- An error is a number. The last two arguments of the operations are the end of the window, where
-- there is one, and the instant of the call.
pub record TokenStore : Type 1 where
  pub State : Type 0
  pub revoke : State → Bytes → ℕ → ℕ → Result ℕ State
  pub revoked : State → Bytes → ℕ → Answer State
  pub revoke_if_not_revoked : State → Bytes → ℕ → ℕ → Answer State
  -- What is revoked stays so until the end of its window.
  pub revoke_holds :
      (s s' : State) (jti : Bytes) (until now later : ℕ)
      → jti ≢ []
      → now < until
      → later < until
      → revoke s jti until now ≡ ok s'
      → (b : Bool) (s'' : State) → revoked s' jti later ≡ ok (b, s'')
      → b ≡ true
  -- A claim that wins is the last to win before the end of its window.
  pub claim_fences :
      (s s' : State) (jti : Bytes) (until now until' later : ℕ)
      → revoke_if_not_revoked s jti until now ≡ ok (true, s')
      → later < until
      → (s'' : State) → revoke_if_not_revoked s' jti until' later ≢ ok (true, s'')

pub memory_revoke_holds :
    (s s' : Store) (jti : Bytes) (until now later : ℕ)
    → jti ≢ []
    → now < until
    → later < until
    → ◌≡◌ {A = Result ℕ Store} (ok (revoke s jti until now)) (ok s')
    → (b : Bool) (s'' : Store)
    → ◌≡◌ {A = Answer Store}
        (ok ((is_revoked s' jti later).1, (is_revoked s' jti later).0))
        (ok (b, s''))
    → b ≡ true
memory_revoke_holds s s' jti until now later filled h k e b s'' f =
    ground (arith, e, f, is_revoked-revoke s jti until now later filled h)

claim_lost_held :
    (s : Store) (jti : Bytes) (until now until' later : ℕ)
    → (revoke_if_not_revoked s jti until now).1 ≡ true
    → later < until
    → (revoke_if_not_revoked (revoke_if_not_revoked s jti until now).0 jti until' later).1 ≡ false
unfolding revoke_if_not_revoked
claim_lost_held s jti until now until' later won h =
    ground (arith, lookup-record_revocation s jti until now)

pub memory_claim_fences :
    (s s' : Store) (jti : Bytes) (until now until' later : ℕ)
    → ◌≡◌ {A = Answer Store}
        (ok ((revoke_if_not_revoked s jti until now).1, (revoke_if_not_revoked s jti until now).0))
        (ok (true, s'))
    → later < until
    → (s'' : Store)
    → ◌≢◌ {A = Answer Store}
        (ok (
          (revoke_if_not_revoked s' jti until' later).1,
          (revoke_if_not_revoked s' jti until' later).0,
        ))
        (ok (true, s''))
memory_claim_fences s s' jti until now until' later won h s'' again =
    ground (arith, won, again, claim_lost_held s jti until now until' later)

-- `MemoryTokenStore` keeps the promises of the interface, and reports no errors.
abbrev pub memory_token_store : TokenStore
memory_token_store = record {
  State = Store;
  revoke = λ s jti until now. ok (revoke s jti until now);
  revoked = λ s jti now. ok ((is_revoked s jti now).1, (is_revoked s jti now).0);
  revoke_if_not_revoked = λ s jti until now.
      ok ((revoke_if_not_revoked s jti until now).1, (revoke_if_not_revoked s jti until now).0);
  revoke_holds = memory_revoke_holds;
  claim_fences = memory_claim_fences;
}
