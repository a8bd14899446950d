-- ===== src/Cache/Memory.antt =====
-- The methods of `memCache` in infra/cache/memory/cache.go. An instant is a number of nanoseconds. A
-- value is of any type; `convert` says whether it is of the type of the destination, and what arrives
-- there. The copies of the values are not modelled: a value of the model cannot change.
use aeus.Common.{
  ℕ, ◌+◌, ◌==◌, Bytes, Bool, true, false, ltb, if◌then◌else◌, Option, none, some, Result, ok, err,
  ◌=ᵇ◌, ◌≡◌, arith,
}
use aeus.Common.Dict.{Dict, lookup, insert, remove, lookup-insert}

-- `time.Duration`; the size of a negative one is not read.
pub data Duration : Type 0 where
  negative : Duration
  span : ℕ → Duration

pub data LoadError : Type 0 where
  not_found type_mismatch : LoadError

pub record Item (V : Type 0) : Type 0 where
  pub value : V
  pub expiration : ℕ

abbrev pub expiry : Duration → ℕ → ℕ
expiry negative now = 0
expiry (span d) now = if ltb 0 d then now + d else 0

-- `DefaultExpiration`.
abbrev pub is_default : Duration → Bool
is_default negative = false
is_default (span d) = d == 0

module _ {V : Type 0} where
  -- `Expired`.
  unfoldable pub expired : Item V → ℕ → Bool
  expired i now = if i.expiration == 0 then false else ltb i.expiration now

  -- `Load`.
  unfoldable pub load :
      {A : Type 0} → (V → Option A) → Bytes → ℕ → Dict (Item V) → Result LoadError A
  load convert key now items = elim (lookup key items) [
    | none ↦ err not_found
    | some i ↦
        if expired i now
        then err not_found
        else elim (convert i.value) [ none ↦ err type_mismatch | some a ↦ ok a ]
  ]

  -- `Exists`.
  unfoldable pub exists : Bytes → ℕ → Dict (Item V) → Bool
  exists key now items = elim (lookup key items) [
    | none ↦ false
    | some i ↦ if expired i now then false else true
  ]

  -- `Store`, with the expiration of the options.
  unfoldable pub store : Duration → Bytes → V → Duration → ℕ → Dict (Item V) → Dict (Item V)
  store options_expiration key value d now items =
      insert key
        (record {
          value = value;
          expiration = expiry (if is_default d then options_expiration else d) now;
        })
        items

  -- `Delete`.
  abbrev pub delete_key : Bytes → Dict (Item V) → Dict (Item V)
  delete_key key items = remove key items

  -- What `Load` gives after `Store` of a value of the type of the destination under a positive duration: the value under
  -- its key up to the end of the duration and nothing after it, and under every other key what it gave
  -- before.
  pub load-store :
      {A : Type 0} (convert : V → Option A) (default : Duration) (key other : Bytes) (value : V)
      (a : A) (d now at : ℕ) (items : Dict (Item V))
      → convert value ≡ some a
      → ltb 0 d ≡ true
      → load convert other at (store default key value (span d) now items) ≡ (
          if key =ᵇ other
          then (if ltb (now + d) at then err not_found else ok a)
          else load convert other at items)
  unfolding load store expired
  load-store convert default key other value a d now at items c positive = ground (
    arith,
    c,
    positive,
    lookup-insert key other (record { value = value; expiration = now + d }) items,
  )
