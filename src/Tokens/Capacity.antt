-- ===== src/Tokens/Capacity.antt =====
-- The capacity of the denylist, and which entry is evicted.
use aeus.Common.{
  ℕ, ◌+◌, ◌≤◌, ◌<◌, Bytes, false, [], ◌∷◌, ltb, leb, if◌then◌else◌, ◌=ᵇ◌, =ᵇ_iff, =ᵇ_refl, length,
  none, some, ◌≡◌, ◌≢◌, refl, ap, sym, ◌⊎◌, inl, inr, ◌∙◌, arith, Option-cases, Bool-cases,
}
use aeus.Common.Dict.{
  Dict, Distinct, Fresh, lookup, insert, insert-Distinct, remove-Distinct, keep-Distinct,
  length-insert_new, length-insert_old, length-remove, length-remove-le, length-keep-le,
  lookup-remove,
}
use aeus.Tokens.Store.{
  Store, sweep, sooner, soonest, evict_one, make_room, record_revocation, revoke,
  revoke_if_not_revoked, is_revoked,
}

-- The keys are distinct, as in a Go map, and the cap holds.
pub record IsValid (s : Store) : Type 0 where
  pub distinct : Distinct s.revoked
  pub room : 1 ≤ s.capacity
  pub bounded : length s.revoked ≤ s.capacity

sooner-le : (e x : Bytes × ℕ) → ((sooner e x).1 ≤ e.1) × ((sooner e x).1 ≤ x.1)
unfolding sooner
sooner-le e x = ground arith

soonest-le_victim : (e : Bytes × ℕ) (m : Dict ℕ) → (soonest e m).1 ≤ e.1
unfolding soonest
soonest-le_victim e [] = omega arith
soonest-le_victim e (x ∷ m) = omega (arith, soonest-le_victim (sooner e x) m, sooner-le e x)

abbrev In : Bytes × ℕ → Dict ℕ → Type 0
In e [] = ⊥
In e (x ∷ m) = (x ≡ e) ⊎ In e m

-- None expires sooner than the victim.
soonest-le : (e : Bytes × ℕ) (m : Dict ℕ) (r : Bytes × ℕ) → In r (e ∷ m) → (soonest e m).1 ≤ r.1
unfolding soonest
soonest-le e [] r (inl p) = ground (arith, p)
soonest-le e [] r (inr p) = absurd p
soonest-le e (x ∷ m) r (inl p) = ground (arith, p, soonest-le_victim (sooner e x) m, sooner-le e x)
soonest-le e (x ∷ m) r (inr (inl p)) =
    ground (arith, p, soonest-le_victim (sooner e x) m, sooner-le e x)
soonest-le e (x ∷ m) r (inr (inr p)) = soonest-le (sooner e x) m r (inr p)

In-of_lookup : (k : Bytes) (u : ℕ) (m : Dict ℕ) → lookup k m ≡ some u → In (k, u) m
unfolding lookup
In-of_lookup k u [] h = cc
In-of_lookup k u ((j, v) ∷ m) h = elim (Bool-cases (j =ᵇ k)) [
  | inl b ↦ inl (ground (arith, (=ᵇ_iff j k).0 b))
  | inr b ↦ inr (In-of_lookup k u m (ground arith))
]

sooner-cases : (e x : Bytes × ℕ) → (sooner e x ≡ e) ⊎ (sooner e x ≡ x)
unfolding sooner
sooner-cases e x = elim (Bool-cases (ltb x.1 e.1)) [ inl b ↦ inr (rw b) | inr b ↦ inl (rw b) ]

In-widen : (e x y r : Bytes × ℕ) (m : Dict ℕ) → (y ≡ e) ⊎ (y ≡ x) → In r (y ∷ m) → In r (e ∷ x ∷ m)
In-widen e x y r m (inl p) (inl q) = inl (sym p ∙ q)
In-widen e x y r m (inr p) (inl q) = inr (inl (sym p ∙ q))
In-widen e x y r m _ (inr q) = inr (inr q)

-- The victim is an entry of the map.
soonest-In : (e : Bytes × ℕ) (m : Dict ℕ) → In (soonest e m) (e ∷ m)
unfolding soonest
soonest-In e [] = inl refl
soonest-In e (x ∷ m) = In-widen e x (sooner e x) _ m (sooner-cases e x) (soonest-In (sooner e x) m)

In-Fresh-ne : (k j : Bytes) (v : ℕ) (m : Dict ℕ) → Fresh j m → In (k, v) m → (j =ᵇ k) ≡ false
In-Fresh-ne k j v [] f i = absurd i
In-Fresh-ne k j v ((x, w) ∷ m) f (inl e) = ground (arith, f.0, e, =ᵇ_iff x j, =ᵇ_iff j k)
In-Fresh-ne k j v ((x, w) ∷ m) f (inr i) = In-Fresh-ne k j v m f.1 i

lookup_of_In : (k : Bytes) (v : ℕ) (m : Dict ℕ) → Distinct m → In (k, v) m → lookup k m ≡ some v
unfolding lookup
lookup_of_In k v [] d i = absurd i
lookup_of_In k v ((x, w) ∷ m) d (inl e) = ground (arith, e, =ᵇ_refl k)
lookup_of_In k v ((x, w) ∷ m) d (inr i) =
    ground (arith, In-Fresh-ne k x v m d.0 i, lookup_of_In k v m d.1 i)

-- What `evictOneLocked` does to a map that is not empty.
pub record Evicted (m m' : Dict ℕ) : Type 0 where
  pub victim : Bytes
  pub expiry : ℕ
  pub held : lookup victim m ≡ some expiry
  pub gone : (k : Bytes) → lookup k m' ≡ (if victim =ᵇ k then none else lookup k m)
  pub least : (k : Bytes) (u : ℕ) → lookup k m ≡ some u → expiry ≤ u
  pub smaller : length m' + 1 ≡ length m

pub evict_one-Evicted : (m : Dict ℕ) → m ≢ [] → Distinct m → Evicted m (evict_one m)
unfolding evict_one
evict_one-Evicted [] h d = absurd (h refl)
evict_one-Evicted (e ∷ m) h d =
    let v = soonest e m in
    let held = lookup_of_In v.0 v.1 (e ∷ m) d (soonest-In e m) in
    record {
      victim = v.0;
      expiry = v.1;
      held = held;
      gone = λ k. lookup-remove v.0 k (e ∷ m) d;
      least = λ k u q. soonest-le e m (k, u) (In-of_lookup k u (e ∷ m) q);
      smaller = length-remove v.0 v.1 (e ∷ m) held;
    }

sweep-Distinct : (now : ℕ) (m : Dict ℕ) → Distinct m → Distinct (sweep now m)
unfolding sweep
sweep-Distinct now m d = keep-Distinct _ m d

length-sweep-le : (now : ℕ) (m : Dict ℕ) → length (sweep now m) ≤ length m
unfolding sweep
length-sweep-le now m = length-keep-le (λ u. ltb now u) m

ne_nil_of_length : (m : Dict ℕ) → 1 ≤ length m → m ≢ []
ne_nil_of_length m h e = omega (arith, ap length e)

make_room-Distinct : (c : ℕ) (jti : Bytes) (m : Dict ℕ) → Distinct m → Distinct (make_room c jti m)
unfolding make_room evict_one
make_room-Distinct c jti [] d = ground arith
make_room-Distinct c jti (e ∷ m) d = ground (arith, remove-Distinct (soonest e m).0 (e ∷ m) d)

-- `make_room` either leaves the map, and the write fits, or evicts from a full map.
pub make_room-cases :
    (c : ℕ) (jti : Bytes) (m : Dict ℕ)
    → ((make_room c jti m ≡ m) × ((lookup jti m ≢ none) ⊎ (length m < c)))
      ⊎ ((make_room c jti m ≡ evict_one m) × (lookup jti m ≡ none) × (c ≤ length m))
unfolding make_room
make_room-cases c jti m = elim (Option-cases (lookup jti m)) [
  | inr (w, e) ↦ inl (rw (e, make_room), inl (λ n. cc))
  | inl e ↦ elim (Bool-cases (leb c (length m))) [
    | inl b ↦ inr (rw (e, make_room) (rw b), e, ground arith)
    | inr b ↦ inl (rw (e, make_room) (rw b), inr (ground arith))
  ]
]

length-insert-le : (k : Bytes) (v : ℕ) (m : Dict ℕ) → length (insert k v m) ≤ length m + 1
length-insert-le k v m = elim (Option-cases (lookup k m)) [
  | inl e ↦ omega (arith, length-insert_new k v m e)
  | inr (w, e) ↦ omega (arith, length-insert_old k v w m e)
]

length-insert_known :
    (k : Bytes) (v : ℕ) (m : Dict ℕ) → lookup k m ≢ none → length (insert k v m) ≡ length m
length-insert_known k v m h = elim (Option-cases (lookup k m)) [
  | inl e ↦ absurd (h e)
  | inr (w, e) ↦ length-insert_old k v w m e
]

-- After making room, the write of `jti` stays within the cap.
length-make_room :
    (c : ℕ) (jti : Bytes) (m : Dict ℕ) (until : ℕ)
    → 1 ≤ c
    → Distinct m
    → length m ≤ c
    → length (insert jti until (make_room c jti m)) ≤ c
length-make_room c jti m until h d b = elim (make_room-cases c jti m) [
  | inl (e, inl known) ↦ rw e (omega (arith, length-insert_known jti until m known))
  | inl (e, inr free) ↦ rw e (omega (arith, length-insert-le jti until m))
  | inr (e, absent, full) ↦
      let v = evict_one-Evicted m (ne_nil_of_length m (omega arith)) d in
      rw e (omega (arith, v.smaller, length-insert-le jti until (evict_one m)))
]

record_revocation-IsValid :
    (s : Store) (jti : Bytes) (until now : ℕ)
    → IsValid s
    → IsValid (record_revocation s jti until now)
unfolding record_revocation
record_revocation-IsValid s jti until now v =
    let swept = sweep-Distinct now s.revoked v.distinct in
    record {
      distinct =
          insert-Distinct jti until _
            (make_room-Distinct s.capacity jti (sweep now s.revoked) swept);
      room = v.room;
      bounded =
          length-make_room s.capacity jti (sweep now s.revoked) until v.room swept
            (omega (arith, length-sweep-le now s.revoked, v.bounded));
    }

-- Every method keeps the denylist a map of at most `capacity` entries, whatever the clock says.
pub methods-IsValid :
    (s : Store) (jti : Bytes) (until now : ℕ)
    → IsValid s
    → IsValid (revoke s jti until now)
      × IsValid (revoke_if_not_revoked s jti until now).0
      × IsValid (is_revoked s jti now).0
unfolding revoke revoke_if_not_revoked is_revoked
methods-IsValid s jti until now v =
    let r = record_revocation-IsValid s jti until now v in
    let d = remove-Distinct jti s.revoked v.distinct in
    let l = length-remove-le jti s.revoked in
    (ground (arith, r), ground (arith, r), ground (arith, d, l))
