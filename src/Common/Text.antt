-- ===== src/Common/Text.antt =====
-- A Go string or byte slice as the list of its bytes; a text literal is read by `codes`.
use Prim.Native.Nat.{ℕ, zero, suc, ◌+◌, ◌-◌, ◌%◌, ◌<◌}
use Prim.Native.Char.{code}
use Prim.Native.String.{String}
use mathlib.Core.Path.{◌≡◌, refl, ap, ◌∙◌, sym}
use mathlib.Core.Logic.{◌↔◌, ◌≢◌}
use mathlib.Core.Bool.{Bool, true, false, ◌&&◌}
use mathlib.Core.List.{List, [], ◌∷◌, ◌++◌}
use native.Mathlib.Omega.{arith}
use aeus.Common.Lists.{length, take, drop, drop-length, take-append, length-append}
use aeus.Common.Tests.{◌==◌, ltb, if◌then◌else◌}

abbrev pub Bytes : Type 0
Bytes = List ℕ

-- The bytes of an ASCII text.
abbrev pub codes : String → Bytes
codes (String.◌∷◌ first rest) = code first ∷ codes rest
codes String.[] = []

-- Go's `==` on strings, and `bytes.Equal`.
infix 50 ◌=ᵇ◌
unfoldable pub ◌=ᵇ◌ : Bytes → Bytes → Bool
[] =ᵇ [] = true
[] =ᵇ (y ∷ ys) = false
(x ∷ xs) =ᵇ [] = false
(x ∷ xs) =ᵇ (y ∷ ys) = (x == y) && (xs =ᵇ ys)

pub =ᵇ_refl : (xs : Bytes) → (xs =ᵇ xs) ≡ true
unfolding ◌=ᵇ◌
=ᵇ_refl [] = refl
=ᵇ_refl (x ∷ xs) = ground (arith, =ᵇ_refl xs)

pub =ᵇ_sound : (xs ys : Bytes) → (xs =ᵇ ys) ≡ true → xs ≡ ys
unfolding ◌=ᵇ◌
=ᵇ_sound [] [] h = refl
=ᵇ_sound [] (y ∷ ys) h = cc
=ᵇ_sound (x ∷ xs) [] h = cc
=ᵇ_sound (x ∷ xs) (y ∷ ys) h = ground (arith, =ᵇ_sound xs ys)

pub =ᵇ_iff : (xs ys : Bytes) → ((xs =ᵇ ys) ≡ true) ↔ (xs ≡ ys)
=ᵇ_iff xs ys = (=ᵇ_sound xs ys, λ e. ap (λ (z : Bytes). xs =ᵇ z) (sym e) ∙ =ᵇ_refl xs)

-- `strings.HasPrefix(s, prefix)`.
unfoldable pub has_prefix : Bytes → Bytes → Bool
has_prefix s [] = true
has_prefix [] (p ∷ ps) = false
has_prefix (c ∷ s) (p ∷ ps) = (c == p) && has_prefix s ps

-- `s[n:]` for `n` within the string, where `n` is the length of a prefix.
pub has_prefix_sound : (s p : Bytes) → has_prefix s p ≡ true → (rest : Bytes) × (s ≡ p ++ rest)
unfolding has_prefix
has_prefix_sound s [] h = (s, refl)
has_prefix_sound [] (p ∷ ps) h = ([], cc)
has_prefix_sound (c ∷ s) (p ∷ ps) h =
    let (rest, e) = has_prefix_sound s ps (ground arith) in (rest, ground arith)

pub has_prefix-append : (p rest : Bytes) → has_prefix (p ++ rest) p ≡ true
unfolding has_prefix
has_prefix-append [] rest = refl
has_prefix-append (x ∷ p) rest = ground (arith, has_prefix-append p rest)

-- `s[i] == c`, for an index that the caller has checked; false past the end.
unfoldable pub byte_is : Bytes → ℕ → ℕ → Bool
byte_is [] i c = false
byte_is (x ∷ s) zero c = x == c
byte_is (x ∷ s) (suc i) c = byte_is s i c

pub byte_is-split :
    (s : Bytes) (i c : ℕ) → byte_is s i c ≡ true → s ≡ take i s ++ c ∷ drop (suc i) s
unfolding byte_is
byte_is-split [] i c h = cc
byte_is-split (x ∷ s) zero c h = ground arith
byte_is-split (x ∷ s) (suc i) c h = ap (◌∷◌ x) (byte_is-split s i c h)

pub byte_is-append : (s rest : Bytes) (c : ℕ) → byte_is (s ++ c ∷ rest) (length s) c ≡ true
unfolding byte_is
byte_is-append [] rest c = ground arith
byte_is-append (x ∷ s) rest c = byte_is-append s rest c

-- The last byte of a text that is not empty.
pub byte_is-last :
    (s : Bytes) (c : ℕ)
    → 0 < length s
    → byte_is s (length s - 1) c ≡ true
    → s ≡ take (length s - 1) s ++ c ∷ []
byte_is-last s c h e =
    let tail : drop (suc (length s - 1)) s ≡ [] = rw (last_index s h) (drop-length s) in
    byte_is-split s (length s - 1) c e ∙ ap (λ (t : Bytes). take (length s - 1) s ++ c ∷ t) tail
  where
    last_index : (t : Bytes) → 0 < length t → suc (length t - 1) ≡ length t
    last_index t k = omega arith

pub byte_is-snoc : (s : Bytes) (c : ℕ) → byte_is (s ++ c ∷ []) (length (s ++ c ∷ []) - 1) c ≡ true
byte_is-snoc s c =
    let e : length (s ++ c ∷ []) - 1 ≡ length s = omega (arith, length-append {0} s (c ∷ [])) in
    rw e (byte_is-append s [] c)

pub take-snoc : (s : Bytes) (c : ℕ) → take (length (s ++ c ∷ []) - 1) (s ++ c ∷ []) ≡ s
take-snoc s c =
    let e : length (s ++ c ∷ []) - 1 ≡ length s = omega (arith, length-append {0} s (c ∷ [])) in
    rw e (take-append s (c ∷ []))

pub ne_of_test : (xs ys : Bytes) → (xs =ᵇ ys) ≡ false → xs ≢ ys
ne_of_test xs ys h e = ground (arith, (=ᵇ_iff xs ys).1 e)

pub test_of_ne : (xs ys : Bytes) → xs ≢ ys → (xs =ᵇ ys) ≡ false
test_of_ne xs ys h = ground (arith, =ᵇ_iff xs ys)

-- `strings.ToUpper`, on ASCII letters.
unfoldable pub upper : Bytes → Bytes
upper [] = []
upper (b ∷ s) = (if ltb 96 b && ltb b 123 then b % 32 + 64 else b) ∷ upper s
