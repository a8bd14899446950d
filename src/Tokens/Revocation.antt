-- ===== src/Tokens/Revocation.antt =====
-- What a revocation holds, and the replay fence of refresh rotation.
use aeus.Common.{
  ℕ, ◌≤◌, ◌<◌, Bytes, Bool, true, false, List, [], ◌∷◌, ltb, ◌=ᵇ◌, =ᵇ_iff, =ᵇ_refl, test_of_ne,
  length, some, ◌≡◌, ◌≢◌, refl, sym, ◌⊎◌, inl, inr, arith, Bool-cases, All, map,
}
use aeus.Common.Dict.{Dict, Distinct, lookup, lookup-insert, lookup-keep, keep-Distinct, filtered}
use aeus.Tokens.Store.{
  Store, sweep, evict_one, make_room, record_revocation, revoke, revoke_if_not_revoked, is_held,
  is_revoked,
}
use aeus.Tokens.Capacity.{IsValid, Evicted, evict_one-Evicted, make_room-cases}

pub lookup-record_revocation :
    (s : Store) (jti : Bytes) (until now : ℕ)
    → lookup jti (record_revocation s jti until now).revoked ≡ some until
unfolding record_revocation
lookup-record_revocation s jti until now = simp (lookup-insert, =ᵇ_refl)

-- An id that is not empty, revoked at an instant before the end of its window, reads as revoked at a
-- later call exactly before the end of that window, and not at its end itself, whatever the store held
-- and also when the store is full.
pub is_revoked-revoke :
    (s : Store) (jti : Bytes) (until now later : ℕ)
    → jti ≢ []
    → now < until
    → (is_revoked (revoke s jti until now) jti later).1 ≡ ltb later until
unfolding revoke is_revoked
is_revoked-revoke s jti until now later filled open_window =
    ground (arith, test_of_ne jti [] filled, lookup-record_revocation s jti until now)

-- A claim of `jti`: the end of the window asked for, and the instant of the call.
abbrev pub Claim : Type 0
Claim = ℕ × ℕ

-- The calls of `RevokeIfNotRevoked` for one id, in the order in which the mutex admits them.
unfoldable pub claims : Store → Bytes → List Claim → Store × List Bool
claims s jti [] = (s, [])
claims s jti ((until, now) ∷ cs) =
    let (s', won) = revoke_if_not_revoked s jti until now in
    let (s'', rest) = claims s' jti cs in (s'', won ∷ rest)

pub claim_lost :
    (s : Store) (jti : Bytes) (until held now : ℕ)
    → lookup jti s.revoked ≡ some held
    → now < held
    → revoke_if_not_revoked s jti until now ≡ (s, false)
unfolding revoke_if_not_revoked
claim_lost s jti until held now e h = ground arith

claims_lost :
    (s : Store) (jti : Bytes) (held : ℕ) (cs : List Claim)
    → lookup jti s.revoked ≡ some held
    → All (λ c. c.1 < held) cs
    → claims s jti cs ≡ (s, map (λ _. false) cs)
unfolding claims
claims_lost s jti held [] e h = refl
claims_lost s jti held ((until, now) ∷ cs) e (h, hs) =
    rw (claim_lost s jti until held now e h, claims_lost s jti held cs e hs)

-- The replay fence: of the refreshes of one token, in whatever order they are admitted, the first
-- wins and every other one before the end of its window loses, and the losers change nothing.
pub claims_once :
    (s : Store) (jti : Bytes) (until now : ℕ) (cs : List Claim)
    → jti ≢ []
    → now < until
    → is_held (lookup jti s.revoked) now ≡ false
    → All (λ c. c.1 < until) cs
    → claims s jti ((until, now) ∷ cs)
      ≡ (record_revocation s jti until now, true ∷ map (λ _. false) cs)
unfolding claims revoke_if_not_revoked
claims_once s jti until now cs filled open_window unheld before = ground (
  arith,
  test_of_ne jti [] filled,
  claims_lost (record_revocation s jti until now) jti until cs
      (lookup-record_revocation s jti until now) before,
)

lookup-sweep :
    (now : ℕ) (k : Bytes) (m : Dict ℕ)
    → Distinct m
    → lookup k (sweep now m) ≡ filtered (λ u. ltb now u) (lookup k m)
unfolding sweep
lookup-sweep now k m d = lookup-keep (λ u. ltb now u) k m d

-- The id is still denied, or the store was full of live entries of which none ends sooner.
abbrev pub KeptOrEvicted : Store → Store → Bytes → ℕ → ℕ → ℕ → Type 0
KeptOrEvicted s s' k u now later =
    ((is_revoked s' k later).1 ≡ true)
    ⊎ ((s.capacity ≤ length (sweep now s.revoked))
        × ((j : Bytes) (w : ℕ) → lookup j (sweep now s.revoked) ≡ some w → u ≤ w))

is_revoked_of_lookup :
    (s : Store) (k : Bytes) (u later : ℕ)
    → k ≢ []
    → lookup k s.revoked ≡ some u
    → later < u
    → (is_revoked s k later).1 ≡ true
unfolding is_revoked
is_revoked_of_lookup s k u later filled e h = ground (arith, test_of_ne k [] filled)

not_held_by_nil : (k : Bytes) (u : ℕ) → lookup k [] ≡ some u → ⊥
unfolding lookup
not_held_by_nil k u h = cc

module _ (s : Store) (v : IsValid s) (jti k : Bytes) (until u now later : ℕ) (filled : k ≢ [])
    (other : k ≢ jti) (held : lookup k s.revoked ≡ some u) (order : now ≤ later)
    (live : later < u) where
  swept : lookup k (sweep now s.revoked) ≡ some u
  swept = ground (arith, lookup-sweep now k s.revoked v.distinct)

  swept_Distinct : Distinct (sweep now s.revoked)
  unfolding sweep
  swept_Distinct = keep-Distinct _ s.revoked v.distinct

  kept_of_room :
      lookup k (make_room s.capacity jti (sweep now s.revoked)) ≡ some u
      → (is_revoked (record_revocation s jti until now) k later).1 ≡ true
  unfolding record_revocation
  kept_of_room e =
      is_revoked_of_lookup _ k u later filled
        (ground (
          arith,
          lookup-insert jti k until (make_room s.capacity jti (sweep now s.revoked)),
          test_of_ne jti k (λ q. other (sym q)),
        ))
        live

  lookup-evict_one :
      Evicted (sweep now s.revoked) (evict_one (sweep now s.revoked))
      → (lookup k (evict_one (sweep now s.revoked)) ≡ some u)
        ⊎ ((j : Bytes) (w : ℕ) → lookup j (sweep now s.revoked) ≡ some w → u ≤ w)
  lookup-evict_one e = elim (Bool-cases (e.victim =ᵇ k)) [
    | inl q ↦ inr (λ j w h. ground (arith, e.least j w h, e.held, swept, =ᵇ_iff e.victim k))
    | inr q ↦ inl (ground (arith, e.gone k, swept))
  ]

  record_revocation-others : KeptOrEvicted s (record_revocation s jti until now) k u now later
  record_revocation-others = elim (make_room-cases s.capacity jti (sweep now s.revoked)) [
    | inl (e, _) ↦ inl (kept_of_room (rw e swept))
    | inr (e, absent, full) ↦
        elim (lookup-evict_one
          (evict_one-Evicted _ (λ n. not_held_by_nil k u (rw (← n) swept)) swept_Distinct)) [
            | inl q ↦ inl (kept_of_room (rw e q))
            | inr q ↦ inr (full, q)
          ]
  ]

  -- Revoking one id keeps every other live id revoked, unless the store is full of live entries
  -- and the other id is one that ends soonest among them.
  pub revoke-others : KeptOrEvicted s (revoke s jti until now) k u now later
  unfolding revoke
  revoke-others = elim (Bool-cases (jti =ᵇ [])) [
    | inl e ↦ rw (e, revoke) (inl (is_revoked_of_lookup s k u later filled held live))
    | inr e ↦ elim (Bool-cases (ltb now until)) [
      | inl o ↦ rw (e, o, revoke) record_revocation-others
      | inr o ↦ rw (e, o, revoke) (inl (is_revoked_of_lookup s k u later filled held live))
    ]
  ]
