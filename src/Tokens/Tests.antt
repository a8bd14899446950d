-- ===== src/Tokens/Tests.antt =====
-- The denylist at concrete inputs.
use aeus.Common.{◌=ᵇ◌, [], ◌∷◌, codes, true, false, ◌≡◌, refl, arith, none}
use aeus.Common.Dict.{lookup, insert, remove, keep}
use aeus.Tokens.Store.{
  Store, make_room, sweep, evict_one, sooner, record_revocation, revoke, is_revoked,
}
use aeus.Tokens.Capacity.{IsValid}
use aeus.Tokens.Revocation.{is_revoked-revoke, claims, claims_once}

-- Two ids, in a store that has room for two.
abbrev two_ids : Store
two_ids = record { capacity = 2; revoked = (codes "a", 50) ∷ (codes "b", 90) ∷ [] }

two_ids-IsValid : IsValid two_ids
unfolding ◌=ᵇ◌
two_ids-IsValid = record {
  distinct = ((refl, tt), (tt, tt));
  room = omega arith;
  bounded = omega arith;
}

-- A third id at instant 10 evicts "a", which ends soonest.
evicts_soonest : lookup (codes "a") (revoke two_ids (codes "c") 70 10).revoked ≡ none
unfolding revoke record_revocation make_room sweep evict_one sooner insert remove keep lookup ◌=ᵇ◌
evicts_soonest = refl

is_revoked-revoke_example : (is_revoked (revoke two_ids (codes "c") 70 10) (codes "c") 60).1 ≡ true
is_revoked-revoke_example = is_revoked-revoke two_ids (codes "c") 70 10 60 (λ e. cc) (omega arith)

claims_once_example :
    claims two_ids (codes "c") ((70, 10) ∷ (70, 11) ∷ (99, 12) ∷ [])
    ≡ (record_revocation two_ids (codes "c") 70 10, true ∷ false ∷ false ∷ [])
unfolding lookup ◌=ᵇ◌
claims_once_example =
    claims_once two_ids (codes "c") 70 10 ((70, 11) ∷ (99, 12) ∷ []) (λ e. cc) (omega arith) refl
      (omega arith)
