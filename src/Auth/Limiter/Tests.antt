-- ===== src/Auth/Limiter/Tests.antt =====
-- The limiter at concrete instants, with tokens counted in units.
use aeus.Common.{
  ℕ, ◌+◌, ◌-◌, ◌*◌, codes, Bool, true, false, [], ◌∷◌, leb, if◌then◌else◌, ◌=ᵇ◌, ◌≡◌, refl, arith,
}
use aeus.Common.Dict.{Dict, lookup, insert, keep}
use aeus.Auth.Limiter.Defs.{Tokens, TokenBucket, idle_window, refilled, spend, allow, sweep}
use aeus.Auth.Limiter.Burst.{WholeExact, asked, count_allowed, count_allowed-burst}

-- Sixty seconds in nanoseconds make a token.
abbrev a_minute : Tokens
a_minute = record {
  Amount = ℕ;
  whole = λ n. n * 60000000000;
  accrued = λ t. t;
  wait = λ a. a;
  plus = λ a b. a + b;
  minus = λ a b. a - b;
  least = λ a b. if leb a b then a else b;
  at_most = λ a b. leb a b;
}

a_minute-WholeExact : WholeExact a_minute 9007199254740992
a_minute-WholeExact = record { at_most_one = λ n le. ground arith; minus_one = λ n le. omega arith }

-- Two tokens at most: both are spent, and one has accrued a minute later.
abbrev spent : Dict (TokenBucket a_minute)
spent = (allow a_minute 2 (codes "a") 0 (allow a_minute 2 (codes "a") 0 []).1).1

abbrev allowed_at : ℕ → Dict (TokenBucket a_minute) → Bool
allowed_at now buckets = (allow a_minute 2 (codes "a") now buckets).0.allowed

refused_at_once : allowed_at 0 spent ≡ false
unfolding allow refilled spend lookup insert ◌=ᵇ◌
refused_at_once = refl

allowed_later : allowed_at 60000000000 spent ≡ true
unfolding allow refilled spend lookup insert ◌=ᵇ◌
allowed_later = refl

-- The janitor forgets a bucket that is idle, and the next call finds it full.
swept : sweep a_minute idle_window 300000000001 spent ≡ []
unfolding allow sweep refilled spend lookup insert keep ◌=ᵇ◌
swept = refl

count_allowed-burst_example :
    count_allowed a_minute 2 0 (codes "a") (codes "a" ∷ codes "b" ∷ codes "a" ∷ codes "a" ∷ []) []
    ≡ 2
unfolding asked lookup ◌=ᵇ◌
count_allowed-burst_example =
    count_allowed-burst a_minute 2 0 9007199254740992 a_minute-WholeExact (codes "a")
      (codes "a" ∷ codes "b" ∷ codes "a" ∷ codes "a" ∷ []) [] (omega arith) refl
