-- ===== src/Auth/Limiter/Defs.antt =====
-- `Allow` and the sweep of `janitor` in middleware/auth/rate_limit_memory.go. The arithmetic of tokens
-- is a parameter, `Tokens`: the code's float64 is one. An instant is a number of nanoseconds. Each
-- method holds the mutex, so that it is one step.
use aeus.Common.{ℕ, ◌-◌, Bytes, Bool, true, false, not, ltb, if◌then◌else◌, Option, none, some}
use aeus.Common.Dict.{Dict, lookup, insert, keep}

-- The operations on numbers of tokens: a whole number of them, what the refill rate gives in some
-- nanoseconds, and the time that it takes to give a number of them.
pub record Tokens : Type 1 where
  pub Amount : Type 0
  pub whole : ℕ → Amount
  pub accrued : ℕ → Amount
  pub wait : Amount → ℕ
  pub plus : Amount → Amount → Amount
  pub minus : Amount → Amount → Amount
  pub least : Amount → Amount → Amount
  pub at_most : Amount → Amount → Bool

-- `tokenBucket`.
pub record TokenBucket (x : Tokens) : Type 0 where
  pub tokens : x.Amount
  pub last_refill : ℕ

-- The answer of `Allow`.
pub record Verdict : Type 0 where
  pub allowed : Bool
  pub retry_after : ℕ

-- The idle time of the janitor that the constructor starts.
abbrev pub idle_window : ℕ
idle_window = 300000000000

module _ (x : Tokens) (capacity : ℕ) where
  -- The bucket of a key brought up to date; a key without one starts full.
  unfoldable pub refilled : ℕ → Option (TokenBucket x) → TokenBucket x
  refilled now none = record { tokens = x.whole capacity; last_refill = now }
  refilled now (some b) =
      if ltb b.last_refill now
      then record {
        tokens = x.least (x.whole capacity) (x.plus b.tokens (x.accrued (now - b.last_refill)));
        last_refill = now;
      }
      else b

  -- A token is spent where there is one.
  unfoldable pub spend : TokenBucket x → Verdict × TokenBucket x
  spend b =
      if x.at_most (x.whole 1) b.tokens
      then (
        record { allowed = true; retry_after = 0 },
        record b { tokens = x.minus b.tokens (x.whole 1) },
      )
      else (record { allowed = false; retry_after = x.wait (x.minus (x.whole 1) b.tokens) }, b)

  -- `Allow`.
  unfoldable pub allow : Bytes → ℕ → Dict (TokenBucket x) → Verdict × Dict (TokenBucket x)
  allow key now buckets =
      let done = spend (refilled now (lookup key buckets)) in (done.0, insert key done.1 buckets)

-- A tick of `janitor`.
unfoldable pub sweep : (x : Tokens) → ℕ → ℕ → Dict (TokenBucket x) → Dict (TokenBucket x)
sweep x idle now buckets = keep (λ b. not (ltb idle (now - b.last_refill))) buckets
