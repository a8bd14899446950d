-- ===== src/Auth/Limiter/Burst.antt =====
-- The burst that middleware/auth/rate_limit_memory.go grants a key without a bucket.
use aeus.Common.{
  ℕ, zero, suc, ◌+◌, ◌≤◌, Bytes, true, false, ◌&&◌, List, [], ◌∷◌, leb, if◌then◌else◌, ◌=ᵇ◌,
  =ᵇ_refl, =ᵇ_sound, none, some, ◌≡◌, sym, ap, ◌∙◌, subst, inl, inr, arith, Bool-cases,
}
use aeus.Common.Dict.{Dict, lookup, lookup-insert}
use aeus.Auth.Limiter.Defs.{Tokens, TokenBucket, Verdict, refilled, spend, allow}

-- What float64 promises of whole numbers up to 2 ^ 53: they compare as they do, and one less is exact.
pub record WholeExact (x : Tokens) (limit : ℕ) : Type 0 where
  pub at_most_one : (n : ℕ) → n ≤ limit → x.at_most (x.whole 1) (x.whole n) ≡ leb 1 n
  pub minus_one : (n : ℕ) → suc n ≤ limit → x.minus (x.whole (suc n)) (x.whole 1) ≡ x.whole n

-- How many of the calls are for a key, and the lesser of two numbers.
unfoldable pub asked : Bytes → List Bytes → ℕ
asked key [] = 0
asked key (k ∷ ks) = let n = asked key ks in if k =ᵇ key then n + 1 else n

abbrev pub lesser : ℕ → ℕ → ℕ
lesser m n = if leb m n then m else n

module _ (x : Tokens) (capacity : ℕ) (now : ℕ) where
  -- How many calls for a key are allowed, of calls for any keys at one instant.
  unfoldable pub count_allowed : Bytes → List Bytes → Dict (TokenBucket x) → ℕ
  count_allowed key [] buckets = 0
  count_allowed key (k ∷ ks) buckets =
      let n = count_allowed key ks (allow x capacity k now buckets).1 in
      if (k =ᵇ key) && (allow x capacity k now buckets).0.allowed then n + 1 else n

  -- A bucket with a whole number of tokens, filled at this instant.
  abbrev holding : ℕ → TokenBucket x
  holding n = record { tokens = x.whole n; last_refill = now }

  refilled-holding : (n : ℕ) → refilled x capacity now (some (holding n)) ≡ holding n
  unfolding refilled
  refilled-holding n = ground arith

  lookup-allow :
      (k key : Bytes) (buckets : Dict (TokenBucket x))
      → lookup key (allow x capacity k now buckets).1 ≡ (
          if k =ᵇ key
          then some (spend x capacity (refilled x capacity now (lookup k buckets))).1
          else lookup key buckets)
  unfolding allow
  lookup-allow k key buckets =
      lookup-insert k key (spend x capacity (refilled x capacity now (lookup k buckets))).1 buckets

  module _ (limit : ℕ) (exact : WholeExact x limit) where
    spend-empty :
        ((spend x capacity (holding 0)).0.allowed ≡ false)
        × ((spend x capacity (holding 0)).1 ≡ holding 0)
    unfolding spend
    spend-empty =
        let none_left = exact.at_most_one 0 (omega arith) in
        (ground (arith, none_left), ground (arith, none_left))

    spend-filled :
        (n : ℕ)
        → suc n ≤ limit
        → ((spend x capacity (holding (suc n))).0.allowed ≡ true)
          × ((spend x capacity (holding (suc n))).1 ≡ holding n)
    unfolding spend
    spend-filled n le =
        let left = exact.at_most_one (suc n) le in
        (ground (arith, left), ground (arith, left, exact.minus_one n le))

    -- The call of a key that holds some tokens.
    allow-own :
        (key : Bytes) (b : TokenBucket x) (buckets : Dict (TokenBucket x))
        → refilled x capacity now (lookup key buckets) ≡ b
        → ((allow x capacity key now buckets).0 ≡ (spend x capacity b).0)
          × (lookup key (allow x capacity key now buckets).1 ≡ some (spend x capacity b).1)
    unfolding allow
    allow-own key b buckets h = (
      ap (λ c. (spend x capacity c).0) h,
      lookup-allow key key buckets
          ∙ ground (arith, =ᵇ_refl key)
          ∙ ap (λ c. some (spend x capacity c).1) h,
    )

    -- The first call of a key, when the calls that follow it are counted right.
    count-own :
        (key : Bytes) (ks : List Bytes) (n : ℕ) (buckets : Dict (TokenBucket x))
        → n ≤ limit
        → refilled x capacity now (lookup key buckets) ≡ holding n
        → ((m : ℕ)
            → m ≤ limit
            → refilled x capacity now (lookup key (allow x capacity key now buckets).1) ≡ holding m
            → count_allowed key ks (allow x capacity key now buckets).1 ≡ lesser (asked key ks) m)
        → count_allowed key (key ∷ ks) buckets ≡ lesser (asked key (key ∷ ks)) n
    unfolding count_allowed asked
    count-own key ks zero buckets le h rest =
        let (verdict, next) = allow-own key (holding 0) buckets h in
        let held =
          ap (refilled x capacity now) (next ∙ ap some spend-empty.1) ∙ refilled-holding 0 in
        let refused = ap (λ (v : Verdict). v.allowed) verdict ∙ spend-empty.0 in
        ground (arith, refused, rest 0 le held, =ᵇ_refl key)
    count-own key ks (suc m) buckets le h rest =
        let (verdict, next) = allow-own key (holding (suc m)) buckets h in
        let spent = spend-filled m le in
        let held = ap (refilled x capacity now) (next ∙ ap some spent.1) ∙ refilled-holding m in
        let granted = ap (λ (v : Verdict). v.allowed) verdict ∙ spent.0 in
        ground (arith, granted, rest m (omega (arith, le)) held, =ᵇ_refl key)

    count-holding :
        (key : Bytes) (ks : List Bytes) (n : ℕ) (buckets : Dict (TokenBucket x))
        → n ≤ limit
        → refilled x capacity now (lookup key buckets) ≡ holding n
        → count_allowed key ks buckets ≡ lesser (asked key ks) n
    unfolding count_allowed asked
    count-holding key [] n buckets le h = ground arith
    count-holding key (k ∷ ks) n buckets le h =
        let ih = λ (j : Bytes) (m : ℕ). count-holding key ks m (allow x capacity j now buckets).1 in
        elim (Bool-cases (k =ᵇ key)) [
          | inr e ↦
              let same : lookup key (allow x capacity k now buckets).1 ≡ lookup key buckets =
                lookup-allow k key buckets ∙ ground (arith, e) in
              ground (arith, e, ih k n le (ap (refilled x capacity now) same ∙ h))
          | inl e ↦
              subst (λ j. count_allowed key (j ∷ ks) buckets ≡ lesser (asked key (j ∷ ks)) n)
                (sym (=ᵇ_sound k key e)) (count-own key ks n buckets le h (ih key))
        ]

    -- Of calls for any keys at one instant, in any order, those for a key without a bucket are allowed
    -- as long as there are no more than the capacity, and the others are not: the number of the allowed
    -- ones is the lesser of the two, where the capacity is a whole number that the arithmetic of tokens
    -- counts down exactly.
    pub count_allowed-burst :
        (key : Bytes) (ks : List Bytes) (buckets : Dict (TokenBucket x))
        → capacity ≤ limit
        → lookup key buckets ≡ none
        → count_allowed key ks buckets ≡ lesser (asked key ks) capacity
    unfolding refilled
    count_allowed-burst key ks buckets le new =
        count-holding key ks capacity buckets le (ground (arith, new))
