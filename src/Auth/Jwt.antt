-- ===== src/Auth/Jwt.antt =====
-- `JWT` of middleware/auth/jwt.go. The types are of the claims, of the errors of the validator and of
-- the permission checker, and of the state that the validator keeps. What golang-jwt parses is a
-- parameter.
use aeus.Common.{
  ℕ, Bytes, codes, Bool, true, false, not, ◌&&◌, ◌||◌, List, [], ◌∷◌, ltb, leb, ◌==◌, if◌then◌else◌,
  has_prefix, Option, none, some, length, drop, reverse,
}
use aeus.Auth.Allow.{is_allowed}

-- What `errs.Is` finds in the error of a parse.
pub record ParseError : Type 0 where
  pub malformed : Bool
  pub unverifiable : Bool
  pub not_valid_yet : Bool
  pub expired : Bool

-- What a parse gives: a token with its claims and `Valid`, or an error, with a token or a nil one.
pub data Parsed (C : Type 0) : Type 0 where
  token : C → Bool → Parsed C
  failure : Bool → ParseError → Parsed C

-- The errors that the middleware returns, its own and those it passes on.
pub data JwtError (V P : Type 0) : Type 0 where
  access_denied token_expired permission_denied : JwtError V P
  invalid : V → JwtError V P
  forbidden : P → JwtError V P

-- The metadata that the middleware reads.
pub record JwtRequest : Type 0 where
  pub path : Option Bytes
  pub authorization : Option Bytes

-- The call of the next handler, with the claims that the context then holds, or an error.
pub data Verdict (C V P : Type 0) : Type 0 where
  next : Option C → Verdict C V P
  stop : JwtError V P → Verdict C V P

-- `options`. `parse_claims` is ParseWithClaims with a new value of the claims type, where there is
-- one; `parse_map` is Parse.
pub record JwtOptions (C V P S : Type 0) : Type 0 where
  pub allows : List Bytes
  pub parse_claims : Option (Bytes → Parsed C)
  pub parse_map : Bytes → Parsed C
  pub validate : Option (S → Bytes → Option V × S)
  pub permission_checker : Option (C → Option P)

abbrev pub bearer_word : Bytes
bearer_word = codes "Bearer"

-- `strings.CutPrefix`.
unfoldable pub cut_prefix : Bytes → Bytes → Bytes
cut_prefix s prefix = if has_prefix s prefix then drop (length prefix) s else s

-- White space of one byte, and of two and three bytes in UTF-8.
abbrev pub space_1 : ℕ → Bool
space_1 a = (leb 9 a && leb a 13) || (a == 32)

abbrev pub space_2 : ℕ → ℕ → Bool
space_2 a b = (a == 194) && ((b == 133) || (b == 160))

abbrev pub space_3 : ℕ → ℕ → ℕ → Bool
space_3 a b c =
    ((a == 225) && (b == 154) && (c == 128))
    || ((a == 226)
        && (b == 128)
        && ((leb 128 c && leb c 138) || (c == 168) || (c == 169) || (c == 175)))
    || ((a == 226) && (b == 129) && (c == 159))
    || ((a == 227) && (b == 128) && (c == 128))

-- The text after the white space at its front, and the reversed text before that at its end.
unfoldable pub trim_front : Bytes → Bytes
trim_front [] = []
trim_front (a ∷ []) = if space_1 a then [] else a ∷ []
trim_front (a ∷ b ∷ []) =
    let one = trim_front (b ∷ []) in
    if space_1 a then one else if space_2 a b then [] else a ∷ b ∷ []
trim_front (a ∷ b ∷ c ∷ s) =
    let one = trim_front (b ∷ c ∷ s) in
    let two = trim_front (c ∷ s) in
    let three = trim_front s in
    if space_1 a
    then one
    else if space_2 a b
    then two
    else if space_3 a b c
    then three
    else a ∷ b ∷ c ∷ s

unfoldable pub trim_reversed : Bytes → Bytes
trim_reversed [] = []
trim_reversed (a ∷ []) = if space_1 a then [] else a ∷ []
trim_reversed (b ∷ a ∷ []) =
    let one = trim_reversed (a ∷ []) in
    if space_1 b then one else if space_2 a b then [] else b ∷ a ∷ []
trim_reversed (c ∷ b ∷ a ∷ s) =
    let one = trim_reversed (b ∷ a ∷ s) in
    let two = trim_reversed (a ∷ s) in
    let three = trim_reversed s in
    if space_1 c
    then one
    else if space_2 b c
    then two
    else if space_3 a b c
    then three
    else c ∷ b ∷ a ∷ s

-- `strings.TrimSpace`.
unfoldable pub trim_space : Bytes → Bytes
trim_space s = reverse (trim_reversed (reverse (trim_front s)))

unfoldable pub token_of : Bytes → Bytes
token_of header = trim_space (cut_prefix header bearer_word)

module _ {C V P S : Type 0} (o : JwtOptions C V P S) where
  -- The path is on the allowlist. An empty list takes none.
  unfoldable pub listed : JwtRequest → Bool
  listed q =
      if ltb 0 (length o.allows)
      then elim (q.path) [ none ↦ false | some path ↦ is_allowed path o.allows ]
      else false

  -- With the claims type, and without it where that gives no token.
  unfoldable pub parse : Bytes → Parsed C
  parse raw = elim (o.parse_claims) [
    | none ↦ o.parse_map raw
    | some with_claims ↦ elim (with_claims raw) [
      | token c valid ↦ token c valid
      | failure has_token e ↦ if has_token then failure true e else o.parse_map raw
    ]
  ]

  -- The error for a parse that failed.
  unfoldable pub parse_denial : ParseError → JwtError V P
  parse_denial e =
      if e.malformed || e.unverifiable
      then JwtError.access_denied
      else if e.not_valid_yet || e.expired
      then JwtError.token_expired
      else JwtError.permission_denied

  abbrev pub checked : C → Option P
  checked c = elim (o.permission_checker) [ none ↦ none | some checker ↦ checker c ]

  abbrev pub validated : S → Bytes → Option V × S
  validated s raw = elim (o.validate) [ none ↦ (none, s) | some validate ↦ validate s raw ]

  -- After the validator.
  unfoldable pub authenticate : Bytes → Verdict C V P
  authenticate raw = elim (parse raw) [
    | failure has_token e ↦ stop (parse_denial e)
    | token c valid ↦
        if not valid
        then stop JwtError.permission_denied
        else elim (checked c) [ some e ↦ stop (forbidden e) | none ↦ next (some c) ]
  ]

  -- The middleware; the verdict of the validator comes first.
  unfoldable pub authorize : S → Bytes → Verdict C V P × S
  authorize s raw =
      let (verdict, left) = validated s raw in
      elim verdict [ some e ↦ (stop (invalid e), left) | none ↦ (authenticate raw, left) ]

  unfoldable pub jwt : S → JwtRequest → Verdict C V P × S
  jwt s q = if listed q then (next none, s) else elim (q.authorization) [
    | none ↦ (stop JwtError.access_denied, s)
    | some header ↦ authorize s (token_of header)
  ]
