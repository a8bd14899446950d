-- ===== src/Auth/Pipeline.antt =====
-- Which requests the JWT middleware of middleware/auth/jwt.go hands on, and with which claims.
use aeus.Common.{
  Bytes, Bool, true, false, Option, none, some, ◌≡◌, ◌↔◌, ◌⊎◌, refl, ap, ◌∙◌, inl, inr, arith,
  Bool-cases, Option-cases,
}
use aeus.Auth.Jwt.{
  ParseError, Parsed, token, failure, JwtRequest, next, JwtOptions, token_of, listed, parse,
  checked, validated, authenticate, authorize, jwt,
}

module _ {C V P S : Type 0} (o : JwtOptions C V P S) where
  -- The reasons for which the next handler is called: the path is on the allowlist, and then there
  -- are no claims; or the token of the header has passed the validator, the parser and the checker.
  pub data Passes (s : S) (q : JwtRequest) (claims : Option C) : Type 0 where
    on_allowlist : listed o q ≡ true → claims ≡ none → Passes s q claims
    authenticated :
        (header : Bytes) (c : C)
        → listed o q ≡ false
        → q.authorization ≡ some header
        → (validated o s (token_of header)).0 ≡ none
        → parse o (token_of header) ≡ token c true
        → checked o c ≡ none
        → claims ≡ some c
        → Passes s q claims

  Parsed-cases :
      (p : Parsed C)
      → ((b : Bool) × (e : ParseError) × (p ≡ failure b e))
        ⊎ ((c : C) × (b : Bool) × (p ≡ token c b))
  Parsed-cases (failure b e) = inl (b, e, refl)
  Parsed-cases (token c b) = inr (c, b, refl)

  authenticate-next :
      (raw : Bytes) (claims : Option C)
      → authenticate o raw ≡ next claims
      → (c : C) × (parse o raw ≡ token c true) × (checked o c ≡ none) × (claims ≡ some c)
  unfolding authenticate
  authenticate-next raw claims h = elim (Parsed-cases (parse o raw)) [
    | inl (b, e, p) ↦ absurd (failed b e p)
    | inr (c, valid, p) ↦ elim (Bool-cases valid) [
      | inr v ↦ absurd (unsound c valid p v)
      | inl v ↦ elim (Option-cases (checked o c)) [
        | inr (e, k) ↦ absurd (refusal c valid p v e k)
        | inl k ↦ (c, p ∙ ap (token c) v, k, handed c valid p v k)
      ]
    ]
  ]
    where
      failed : (b : Bool) (e : ParseError) → parse o raw ≡ failure b e → ⊥
      failed b e p = ground (arith, p, h)

      unsound : (c : C) (valid : Bool) → parse o raw ≡ token c valid → valid ≡ false → ⊥
      unsound c valid p v = ground (arith, p, v, h)

      refusal :
          (c : C) (valid : Bool)
          → parse o raw ≡ token c valid
          → valid ≡ true
          → (e : P) → checked o c ≡ some e
          → ⊥
      refusal c valid p v e k = ground (arith, p, v, k, h)

      handed :
          (c : C) (valid : Bool)
          → parse o raw ≡ token c valid
          → valid ≡ true
          → checked o c ≡ none
          → claims ≡ some c
      handed c valid p v k = ground (arith, p, v, k, h)

  authorize-next :
      (s : S) (raw : Bytes) (claims : Option C)
      → (authorize o s raw).0 ≡ next claims
      → ((validated o s raw).0 ≡ none) × (authenticate o raw ≡ next claims)
  unfolding authorize
  authorize-next s raw claims h = elim (Option-cases (validated o s raw).0) [
    | inr (e, v) ↦ absurd (refusal e v)
    | inl v ↦ (v, passed v)
  ]
    where
      refusal : (e : V) → (validated o s raw).0 ≡ some e → ⊥
      refusal e v = ground (arith, v, h)

      passed : (validated o s raw).0 ≡ none → authenticate o raw ≡ next claims
      passed v = ground (arith, v, h)

  jwt-Passes :
      (s : S) (q : JwtRequest) (claims : Option C) → (jwt o s q).0 ≡ next claims → Passes s q claims
  unfolding jwt
  jwt-Passes s q claims h = elim (Bool-cases (listed o q)) [
    | inl l ↦ on_allowlist l (ground (arith, l, h))
    | inr l ↦ elim (Option-cases (q.authorization)) [
      | inl a ↦ absurd (unauthorized l a)
      | inr (header, a) ↦
          let (v, h') = authorize-next s (token_of header) claims (given l header a) in
          let (c, p, k, e) = authenticate-next (token_of header) claims h' in
          authenticated header c l a v p k e
    ]
  ]
    where
      unauthorized : listed o q ≡ false → q.authorization ≡ none → ⊥
      unauthorized l a = ground (arith, l, a, h)

      given :
          listed o q ≡ false
          → (header : Bytes) → q.authorization ≡ some header
          → (authorize o s (token_of header)).0 ≡ next claims
      given l header a = ground (arith, l, a, h)

  Passes-jwt :
      (s : S) (q : JwtRequest) (claims : Option C) → Passes s q claims → (jwt o s q).0 ≡ next claims
  unfolding jwt authorize authenticate
  Passes-jwt s q claims (on_allowlist l e) = ground (arith, l, e)
  Passes-jwt s q claims (authenticated header c l a v p k e) = ground (arith, l, a, v, p, k, e)

  -- The middleware calls the next handler with some claims exactly when the path is on the allowlist
  -- and there are none, or the token of the header passes the validator, parses as valid with these
  -- claims, and the permission checker has no objection to them.
  pub jwt-next_iff :
      (s : S) (q : JwtRequest) (claims : Option C)
      → ((jwt o s q).0 ≡ next claims) ↔ Passes s q claims
  jwt-next_iff s q claims = (jwt-Passes s q claims, Passes-jwt s q claims)
