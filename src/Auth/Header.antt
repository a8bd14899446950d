-- ===== src/Auth/Header.antt =====
-- The token that middleware/auth/jwt.go takes from a header.
use aeus.Common.{
  ℕ, ◌<◌, Bytes, codes, false, [], ◌∷◌, ◌++◌, All, All-append, reverse, has_prefix, ◌≡◌, refl, sym,
  ap, subst, ◌∙◌, arith,
}
use aeus.Auth.Jwt.{space_1, trim_front, trim_reversed, trim_space, cut_prefix, token_of}
use mathlib.Core.List.{reverse-append, reverse-reverse}

-- An ASCII byte that is no white space, as each byte of a JWT is.
abbrev pub Visible : ℕ → Type 0
Visible b = (b < 128) × (space_1 b ≡ false)

trim_front-Visible : (s : Bytes) → All Visible s → trim_front s ≡ s
unfolding trim_front
trim_front-Visible [] h = refl
trim_front-Visible (a ∷ []) (v, _) = ground (arith, v)
trim_front-Visible (a ∷ b ∷ []) (v, _) = ground (arith, v)
trim_front-Visible (a ∷ b ∷ c ∷ s) (v, _) = ground (arith, v)

trim_reversed-Visible : (s : Bytes) → All Visible s → trim_reversed s ≡ s
unfolding trim_reversed
trim_reversed-Visible [] h = refl
trim_reversed-Visible (a ∷ []) (v, _) = ground (arith, v)
trim_reversed-Visible (a ∷ b ∷ []) (v, _) = ground (arith, v)
trim_reversed-Visible (a ∷ b ∷ c ∷ s) (v, _) = ground (arith, v)

reverse-Visible : (s : Bytes) → All Visible s → All Visible (reverse s)
reverse-Visible [] h = tt
reverse-Visible (a ∷ s) (v, h) =
    subst (All Visible) (sym (reverse-append (a ∷ []) s))
      (All-append Visible (reverse s) (a ∷ []) (reverse-Visible s h) (v, tt))

trim_front-space : (s : Bytes) → trim_front (32 ∷ s) ≡ trim_front s
unfolding trim_front
trim_front-space [] = refl
trim_front-space (b ∷ []) = refl
trim_front-space (b ∷ c ∷ s) = refl

-- A header of the word Bearer, a space and a token of visible ASCII gives that token.
pub token_of-bearer : (raw : Bytes) → All Visible raw → token_of (codes "Bearer " ++ raw) ≡ raw
unfolding token_of cut_prefix trim_space has_prefix
token_of-bearer raw h =
    ap (λ s. reverse (trim_reversed (reverse s))) (trim_front-space raw ∙ trim_front-Visible raw h)
    ∙ ap reverse (trim_reversed-Visible (reverse raw) (reverse-Visible raw h))
    ∙ reverse-reverse raw
