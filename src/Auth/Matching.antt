-- ===== src/Auth/Matching.antt =====
-- What the allowlist patterns of middleware/auth and of admin match.
use aeus.Common.{
  ℕ, ◌-◌, ◌<◌, Bytes, codes, true, false, ◌&&◌, List, [], ◌∷◌, ◌++◌, ltb, ◌=ᵇ◌, =ᵇ_iff, has_prefix,
  has_prefix_sound, has_prefix-append, byte_is, byte_is-append, byte_is-last, byte_is-snoc,
  take-snoc, length, length-append, take, any, ◌≡◌, ◌≢◌, refl, ap, sym, ◌∙◌, ◌⊎◌, inl, inr, ◌↔◌,
  Bool-cases, arith,
}
use aeus.Auth.Allow.{star, slash, is_allowed, match_pattern}

-- The two matchers, written in two packages, accept the same paths.
pub is_allowed-match_pattern :
    (path : Bytes) (allows : List Bytes)
    → is_allowed path allows ≡ any (λ p. match_pattern p path) allows
unfolding is_allowed match_pattern
is_allowed-match_pattern path [] = refl
is_allowed-match_pattern path (p ∷ ps) = ground (arith, is_allowed-match_pattern path ps)

abbrev pub EndsIn : ℕ → Bytes → Type 0
EndsIn c s = (front : Bytes) × (s ≡ front ++ c ∷ [])

abbrev pub StartsWith : ℕ → Bytes → Type 0
StartsWith c s = (rest : Bytes) × (s ≡ c ∷ rest)

-- The pattern language of the code: a path matches itself, "*" matches all, and "<prefix>*" matches a path
-- that has the prefix and goes on at a segment boundary.
pub data Covers (pattern path : Bytes) : Type 0 where
  exact : pattern ≡ path → Covers pattern path
  wildcard : pattern ≡ codes "*" → Covers pattern path
  segment :
      (prefix rest : Bytes)
      → pattern ≡ prefix ++ star ∷ []
      → path ≡ prefix ++ rest
      → prefix ≢ []
      → EndsIn slash prefix ⊎ StartsWith slash rest
      → Covers pattern path

nonempty : (s : Bytes) → s ≢ [] → 0 < length s
nonempty [] h = absurd (h refl)
nonempty (x ∷ s) h = omega arith

byte_is-start :
    (prefix rest : Bytes) (c : ℕ)
    → byte_is (prefix ++ rest) (length prefix) c ≡ true
    → StartsWith c rest
unfolding byte_is
byte_is-start [] [] c h = cc
byte_is-start [] (x ∷ rest) c h = (rest, ground arith)
byte_is-start (x ∷ prefix) rest c h = byte_is-start prefix rest c h

star_branch :
    (pattern path : Bytes)
    → (ltb 1 (length pattern) && byte_is pattern (length pattern - 1) star) ≡ true
    → has_prefix path (take (length pattern - 1) pattern) ≡ true
    → ((byte_is
            (take (length pattern - 1) pattern)
            (length (take (length pattern - 1) pattern) - 1)
            slash
          ≡ true)
        ⊎ (byte_is path (length (take (length pattern - 1) pattern)) slash ≡ true))
    → Covers pattern path
star_branch pattern path h p b =
    segment prefix (has_prefix_sound path prefix p).0 pattern_is (has_prefix_sound path prefix p).1
      filled (boundary b)
  where
    prefix : Bytes
    prefix = take (length pattern - 1) pattern

    pattern_is : pattern ≡ prefix ++ star ∷ []
    pattern_is = byte_is-last pattern star (ground arith) (ground arith)

    filled : prefix ≢ []
    filled e = absurd (
        omega (
          arith,
          ap length e,
          ap length pattern_is,
          length-append {0} prefix (star ∷ []),
          (let t : 1 < length pattern = ground arith in t),
        ))

    boundary :
        ((byte_is prefix (length prefix - 1) slash ≡ true)
          ⊎ (byte_is path (length prefix) slash ≡ true))
        → EndsIn slash prefix ⊎ StartsWith slash (has_prefix_sound path prefix p).0
    boundary (inl e) =
        inl (take (length prefix - 1) prefix, byte_is-last prefix slash (nonempty prefix filled) e)
    boundary (inr e) =
        inr (byte_is-start prefix _ slash (rw (← (has_prefix_sound path prefix p).1) e))

Covers_of_match_pattern :
    (pattern path : Bytes) → match_pattern pattern path ≡ true → Covers pattern path
unfolding match_pattern
Covers_of_match_pattern pattern path h = elim (Bool-cases (pattern =ᵇ path)) [
  | inl e ↦ exact ((=ᵇ_iff pattern path).0 e)
  | inr n ↦ elim (Bool-cases (pattern =ᵇ codes "*")) [
    | inl e ↦ wildcard ((=ᵇ_iff pattern (codes "*")).0 e)
    | inr m ↦
        let prefix = take (length pattern - 1) pattern in
        elim (Bool-cases (byte_is prefix (length prefix - 1) slash)) [
          | inl e ↦ star_branch pattern path (ground arith) (ground arith) (inl e)
          | inr k ↦ star_branch pattern path (ground arith) (ground arith) (inr (ground arith))
        ]
  ]
]

ends_slash :
    (prefix : Bytes) → EndsIn slash prefix → byte_is prefix (length prefix - 1) slash ≡ true
ends_slash prefix (front, e) = rw e (byte_is-snoc front slash)

starts_slash :
    (prefix rest : Bytes)
    → StartsWith slash rest
    → (ltb (length prefix) (length (prefix ++ rest))
        && byte_is (prefix ++ rest) (length prefix) slash)
      ≡ true
starts_slash prefix rest (more, e) =
    rw e (ground (arith, byte_is-append prefix more slash, length-append {0} prefix (slash ∷ more)))

match_pattern-segment :
    (prefix rest : Bytes)
    → prefix ≢ []
    → EndsIn slash prefix ⊎ StartsWith slash rest
    → match_pattern (prefix ++ star ∷ []) (prefix ++ rest) ≡ true
unfolding match_pattern
match_pattern-segment prefix rest filled (inl b) = ground (
  arith,
  ends_slash prefix b,
  byte_is-snoc prefix star,
  take-snoc prefix star,
  has_prefix-append prefix rest,
  length-append {0} prefix (star ∷ []),
  nonempty prefix filled,
)
match_pattern-segment prefix rest filled (inr b) = ground (
  arith,
  starts_slash prefix rest b,
  byte_is-snoc prefix star,
  take-snoc prefix star,
  has_prefix-append prefix rest,
  length-append {0} prefix (star ∷ []),
  nonempty prefix filled,
)

match_pattern_of_Covers :
    (pattern path : Bytes) → Covers pattern path → match_pattern pattern path ≡ true
unfolding match_pattern
match_pattern_of_Covers pattern path (exact e) = ground (arith, (=ᵇ_iff pattern path).1 e)
match_pattern_of_Covers pattern path (wildcard e) = ground (arith, (=ᵇ_iff pattern (codes "*")).1 e)
match_pattern_of_Covers pattern path (segment prefix rest e f filled b) =
    rw (e, f) (match_pattern-segment prefix rest filled b)

-- A pattern of the permission checker's allowlist matches a path exactly when the pattern language
-- says so: equal texts, "*", or "<prefix>*" with the path going on at a segment boundary.
pub match_pattern_iff :
    (pattern path : Bytes) → (match_pattern pattern path ≡ true) ↔ Covers pattern path
match_pattern_iff pattern path =
    (Covers_of_match_pattern pattern path, match_pattern_of_Covers pattern path)

bare_uncovered :
    (prefix : Bytes) → prefix ≢ [] → ¬ EndsIn slash prefix → ¬ Covers (prefix ++ star ∷ []) prefix
bare_uncovered prefix filled unanchored (exact e) =
    omega (arith, ap length e, length-append {0} prefix (star ∷ []))
bare_uncovered prefix filled unanchored (wildcard e) =
    omega (arith, ap length e, length-append {0} prefix (star ∷ []), nonempty prefix filled)
bare_uncovered prefix filled unanchored (segment p rest e f _ b) = boundary p rest same f b
  where
    same : p ≡ prefix
    same =
        sym (take-snoc p star)
        ∙ ap (λ (t : Bytes). take (length t - 1) t) (sym e)
        ∙ take-snoc prefix star

    boundary :
        (q r : Bytes) → q ≡ prefix → prefix ≡ q ++ r → EndsIn slash q ⊎ StartsWith slash r → ⊥
    boundary q r i j (inl (front, k)) = unanchored (front, sym i ∙ k)
    boundary q r i j (inr (more, k)) =
        omega (arith, ap length j, ap length i, length-append {0} q r, ap length k)

-- A pattern "<prefix>*" whose prefix does not end in a slash does not match the bare prefix,
-- unless the prefix is empty: "/foo*" does not let "/foo" through.
pub match_pattern-bare_prefix :
    (prefix : Bytes)
    → prefix ≢ []
    → ¬ EndsIn slash prefix
    → match_pattern (prefix ++ star ∷ []) prefix ≡ false
match_pattern-bare_prefix prefix filled unanchored =
    elim (Bool-cases (match_pattern (prefix ++ star ∷ []) prefix)) [
      | inl e ↦ absurd (bare_uncovered prefix filled unanchored (Covers_of_match_pattern _ _ e))
      | inr e ↦ e
    ]

abbrev pub AnyOf : (Bytes → Type 0) → List Bytes → Type 0
AnyOf P [] = ⊥
AnyOf P (x ∷ xs) = P x ⊎ AnyOf P xs

AnyOf-of_any :
    (path : Bytes) (allows : List Bytes)
    → any (λ p. match_pattern p path) allows ≡ true
    → AnyOf (λ p. Covers p path) allows
AnyOf-of_any path [] h = cc
AnyOf-of_any path (p ∷ ps) h = elim (Bool-cases (match_pattern p path)) [
  | inl e ↦ inl (Covers_of_match_pattern p path e)
  | inr e ↦ inr (AnyOf-of_any path ps (ground arith))
]

any-AnyOf :
    (path : Bytes) (allows : List Bytes)
    → AnyOf (λ p. Covers p path) allows
    → any (λ p. match_pattern p path) allows ≡ true
any-AnyOf path [] h = absurd h
any-AnyOf path (p ∷ ps) (inl c) = ground (arith, match_pattern_of_Covers p path c)
any-AnyOf path (p ∷ ps) (inr a) = ground (arith, any-AnyOf path ps a)

-- The JWT middleware's allowlist lets a path through exactly when one of its patterns is that path, or
-- is "*", or is "<prefix>*" with a prefix that is not empty, that the path starts with, and that ends
-- in a slash or is followed by one in the path. So "/foo*" does not cover "/foo".
pub is_allowed_iff :
    (path : Bytes) (allows : List Bytes)
    → (is_allowed path allows ≡ true) ↔ AnyOf (λ p. Covers p path) allows
is_allowed_iff path allows =
    rw (is_allowed-match_pattern path allows) (AnyOf-of_any path allows, any-AnyOf path allows)
