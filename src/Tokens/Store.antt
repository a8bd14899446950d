-- ===== src/Tokens/Store.antt =====
-- `MemoryTokenStore`. The mutex makes each method one step; the clock `now` is an argument, and
-- instants are natural numbers (`until.After(now)` is `now < until`).
use aeus.Common.{
  ℕ, Bytes, Bool, true, false, [], ◌∷◌, ltb, leb, if◌then◌else◌, ◌=ᵇ◌, length, Option, none, some,
}
use aeus.Common.Dict.{Dict, lookup, insert, remove, keep}

pub record Store : Type 0 where
  pub capacity : ℕ
  pub revoked : Dict ℕ

-- `__revocationCapacity`.
abbrev pub revocation_capacity : ℕ
revocation_capacity = 65536

-- `NewMemoryTokenStore`.
pub new_memory_token_store : Store
new_memory_token_store = record { capacity = revocation_capacity; revoked = [] }

-- `sweepLocked`.
unfoldable pub sweep : ℕ → Dict ℕ → Dict ℕ
sweep now m = keep (λ until. ltb now until) m

-- One round of the loop of `evictOneLocked`: an entry that expires strictly sooner is the victim.
unfoldable pub sooner : Bytes × ℕ → Bytes × ℕ → Bytes × ℕ
sooner victim entry = if ltb entry.1 victim.1 then entry else victim

-- The loop after its first round, which takes the first entry.
unfoldable pub soonest : Bytes × ℕ → Dict ℕ → Bytes × ℕ
soonest victim [] = victim
soonest victim (entry ∷ m) = soonest (sooner victim entry) m

-- `evictOneLocked`.
unfoldable pub evict_one : Dict ℕ → Dict ℕ
unfolding soonest
evict_one [] = []
evict_one (entry ∷ m) = remove (soonest entry m).0 (entry ∷ m)

-- `if _, ok := s.revoked[jti]; !ok && len(s.revoked) >= s.capacity { s.evictOneLocked() }`.
unfoldable pub make_room : ℕ → Bytes → Dict ℕ → Dict ℕ
make_room capacity jti m = elim (lookup jti m) [
  | none ↦ if leb capacity (length m) then evict_one m else m
  | some _ ↦ m
]

-- The common end of `Revoke` and `RevokeIfNotRevoked`: sweep, evict at the cap, and write.
unfoldable pub record_revocation : Store → Bytes → ℕ → ℕ → Store
record_revocation s jti until now = record s {
  revoked = insert jti until (make_room s.capacity jti (sweep now s.revoked));
}

-- `Revoke`.
unfoldable pub revoke : Store → Bytes → ℕ → ℕ → Store
revoke s jti until now =
    if jti =ᵇ [] then s else if ltb now until then record_revocation s jti until now else s

-- `existing, ok := s.revoked[jti]; ok && existing.After(now)`.
abbrev pub is_held : Option ℕ → ℕ → Bool
is_held none now = false
is_held (some until) now = ltb now until

-- `RevokeIfNotRevoked`: true when this call was the first.
unfoldable pub revoke_if_not_revoked : Store → Bytes → ℕ → ℕ → Store × Bool
revoke_if_not_revoked s jti until now =
    if jti =ᵇ []
    then (s, false)
    else if ltb now until
    then (if is_held (lookup jti s.revoked) now
        then (s, false)
        else (record_revocation s jti until now, true))
    else (s, false)

-- `Revoked`: the answer, and the store without the entry if its window has passed.
unfoldable pub is_revoked : Store → Bytes → ℕ → Store × Bool
is_revoked s jti now = if jti =ᵇ [] then (s, false) else elim (lookup jti s.revoked) [
  | none ↦ (s, false)
  | some until ↦
      if ltb now until then (s, true) else (record s { revoked = remove jti s.revoked }, false)
]
