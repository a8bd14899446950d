-- ===== src/Common/Dict.antt =====
-- A Go map with string keys as an association list; the order of the list stands for one order
-- of iteration.
use Prim.Native.Nat.{◌≤◌, ◌+◌}
use mathlib.Core.Path.{◌≡◌, refl}
use mathlib.Core.Logic.{inl, inr}
use mathlib.Core.Bool.{Bool, false}
use mathlib.Core.Option.{Option, none, some}
use mathlib.Core.List.{List, [], ◌∷◌}
use native.Mathlib.Omega.{arith}
use aeus.Common.Tests.{if◌then◌else◌, Bool-cases}
use aeus.Common.Lists.{length}
use aeus.Common.Text.{Bytes, ◌=ᵇ◌, =ᵇ_iff}

abbrev pub Dict {ℓ} : Type ℓ → Type ℓ
Dict V = List (Bytes × V)

=ᵇ_false_sym : (k j : Bytes) → (k =ᵇ j) ≡ false → (j =ᵇ k) ≡ false
=ᵇ_false_sym k j h = ground (arith, =ᵇ_iff k j, =ᵇ_iff j k)

module _ {ℓ} {V : Type ℓ} where
  unfoldable pub lookup : Bytes → Dict V → Option V
  lookup key [] = none
  lookup key ((k, v) ∷ rest) = if k =ᵇ key then some v else lookup key rest

  -- `m[key] = x`.
  unfoldable pub insert : Bytes → V → Dict V → Dict V
  insert key x [] = (key, x) ∷ []
  insert key x ((k, v) ∷ rest) = if k =ᵇ key then (key, x) ∷ rest else (k, v) ∷ insert key x rest

  -- `delete(m, k)`.
  unfoldable pub remove : Bytes → Dict V → Dict V
  remove k [] = []
  remove k ((j, v) ∷ m) = if j =ᵇ k then m else (j, v) ∷ remove k m

  -- The entries that a loop over the map leaves when it deletes those whose value fails `p`.
  unfoldable pub keep : (V → Bool) → Dict V → Dict V
  keep p [] = []
  keep p ((j, v) ∷ m) = if p v then (j, v) ∷ keep p m else keep p m

  -- A key stands at most once, as in a Go map.
  abbrev pub Fresh : Bytes → Dict V → Type 0
  Fresh k [] = Unit
  Fresh k ((j, v) ∷ m) = ((j =ᵇ k) ≡ false) × Fresh k m

  abbrev pub Distinct : Dict V → Type 0
  Distinct [] = Unit
  Distinct ((j, v) ∷ m) = Fresh j m × Distinct m

  pub lookup-insert :
      (key other : Bytes) (x : V) (m : Dict V)
      → lookup other (insert key x m) ≡ (if key =ᵇ other then some x else lookup other m)
  unfolding lookup insert
  lookup-insert key other x [] = refl
  lookup-insert key other x ((k, v) ∷ rest) =
      let ih = lookup-insert key other x rest in
      ground (arith, ih, =ᵇ_iff k other, =ᵇ_iff k key, =ᵇ_iff key other)

  pub lookup_of_Fresh : (k : Bytes) (m : Dict V) → Fresh k m → lookup k m ≡ none
  unfolding lookup
  lookup_of_Fresh k [] h = refl
  lookup_of_Fresh k ((j, v) ∷ m) h = ground (arith, lookup_of_Fresh k m)

  pub Fresh-of_lookup : (k : Bytes) (m : Dict V) → lookup k m ≡ none → Fresh k m
  unfolding lookup
  Fresh-of_lookup k [] h = tt
  Fresh-of_lookup k ((j, v) ∷ m) h = ground (arith, Fresh-of_lookup k m)

  Fresh-insert :
      (k j : Bytes) (v : V) (m : Dict V) → (k =ᵇ j) ≡ false → Fresh j m → Fresh j (insert k v m)
  unfolding insert
  Fresh-insert k j v [] e h = (e, tt)
  Fresh-insert k j v ((i, w) ∷ m) e h = ground (arith, Fresh-insert k j v m)

  Fresh-remove : (k j : Bytes) (m : Dict V) → Fresh j m → Fresh j (remove k m)
  unfolding remove
  Fresh-remove k j [] h = tt
  Fresh-remove k j ((i, w) ∷ m) h = ground (arith, Fresh-remove k j m)

  Fresh-keep : (p : V → Bool) (j : Bytes) (m : Dict V) → Fresh j m → Fresh j (keep p m)
  unfolding keep
  Fresh-keep p j [] h = tt
  Fresh-keep p j ((i, w) ∷ m) h = ground (arith, Fresh-keep p j m)

  pub insert-Distinct : (k : Bytes) (v : V) (m : Dict V) → Distinct m → Distinct (insert k v m)
  unfolding insert
  insert-Distinct k v [] d = (tt, tt)
  insert-Distinct k v ((i, w) ∷ m) d = elim (Bool-cases (i =ᵇ k)) [
    | inl e ↦ ground (arith, =ᵇ_iff i k)
    | inr e ↦ ground (arith, insert-Distinct k v m, Fresh-insert k i v m (=ᵇ_false_sym i k e))
  ]

  pub remove-Distinct : (k : Bytes) (m : Dict V) → Distinct m → Distinct (remove k m)
  unfolding remove
  remove-Distinct k [] d = tt
  remove-Distinct k ((i, w) ∷ m) d = ground (arith, remove-Distinct k m, Fresh-remove k i m)

  pub keep-Distinct : (p : V → Bool) (m : Dict V) → Distinct m → Distinct (keep p m)
  unfolding keep
  keep-Distinct p [] d = tt
  keep-Distinct p ((i, w) ∷ m) d = ground (arith, keep-Distinct p m, Fresh-keep p i m)

  pub lookup-remove :
      (k j : Bytes) (m : Dict V)
      → Distinct m
      → lookup j (remove k m) ≡ (if k =ᵇ j then none else lookup j m)
  unfolding lookup remove
  lookup-remove k j [] d = ground arith
  lookup-remove k j ((i, w) ∷ m) d =
      ground (
        arith,
        =ᵇ_iff k j,
        =ᵇ_iff i k,
        =ᵇ_iff i j,
        lookup-remove k j m d.1,
        lookup_of_Fresh i m d.0,
      )

  -- A value that passes, and nothing else.
  abbrev pub filtered : (V → Bool) → Option V → Option V
  filtered p none = none
  filtered p (some v) = if p v then some v else none

  pub lookup-keep :
      (p : V → Bool) (j : Bytes) (m : Dict V)
      → Distinct m
      → lookup j (keep p m) ≡ filtered p (lookup j m)
  unfolding lookup keep
  lookup-keep p j [] d = refl
  lookup-keep p j ((i, w) ∷ m) d =
      ground (arith, =ᵇ_iff i j, lookup-keep p j m d.1, lookup_of_Fresh i m d.0)

  pub length-insert_new :
      (k : Bytes) (v : V) (m : Dict V) → lookup k m ≡ none → length (insert k v m) ≡ length m + 1
  unfolding lookup insert
  length-insert_new k v [] h = omega arith
  length-insert_new k v ((i, w) ∷ m) h = ground (arith, length-insert_new k v m)

  pub length-insert_old :
      (k : Bytes) (v w : V) (m : Dict V) → lookup k m ≡ some w → length (insert k v m) ≡ length m
  unfolding lookup insert
  length-insert_old k v w [] h = cc
  length-insert_old k v w ((i, x) ∷ m) h = ground (arith, length-insert_old k v w m)

  pub length-remove :
      (k : Bytes) (w : V) (m : Dict V) → lookup k m ≡ some w → length (remove k m) + 1 ≡ length m
  unfolding lookup remove
  length-remove k w [] h = cc
  length-remove k w ((i, x) ∷ m) h = ground (arith, length-remove k w m)

  pub length-remove-le : (k : Bytes) (m : Dict V) → length (remove k m) ≤ length m
  unfolding remove
  length-remove-le k [] = omega arith
  length-remove-le k ((i, x) ∷ m) = ground (arith, length-remove-le k m)

  pub length-keep-le : (p : V → Bool) (m : Dict V) → length (keep p m) ≤ length m
  unfolding keep
  length-keep-le p [] = omega arith
  length-keep-le p ((i, x) ∷ m) = ground (arith, length-keep-le p m)
