-- ===== src/Cache/Tests.antt =====
-- The caches at concrete instants.
use aeus.Common.{
  ℕ, ◌≤◌, Bytes, codes, true, List, [], ◌∷◌, ltb, if◌then◌else◌, ◌=ᵇ◌, some, ok, ◌≡◌, refl, inl,
  inr, arith, Bool-cases,
}
use aeus.Common.Dict.{Dict, lookup, insert, remove}
use aeus.Cache.Memory.{span, negative, Item, expired, load, exists, store}
use aeus.Cache.Reader.{Entries, Run, Cacher, revalidate, read, marker, reload_entry, try_key}
use aeus.Cache.Coherent.{Tracks, Served}
use aeus.Cache.Calls.{calls, calls-Served}

abbrev words : Dict (Item Bytes)
words = []

-- Without a positive duration an item does not expire.
stays :
    exists (codes "a") 1000000 (store negative (codes "a") (codes "x") (span 0) 100 words) ≡ true
unfolding exists expired store lookup insert ◌=ᵇ◌
stays = refl

-- The data change at version 5, and so does the marker.
abbrev change_at_5 : Cacher Bytes
change_at_5 = record {
  duration = 60000000000;
  options_expiration = span 0;
  dependency = some (λ v. ok (if ltb v 5 then codes "m1" else codes "m2"));
  loader = λ v. ok (if ltb v 5 then codes "old" else codes "new");
}

abbrev run_of : ℕ → ℕ → Run
run_of now v = record { now = now; later = now; check_at = v; mark_at = v; load_at = v }

abbrev first_calls : List Run
first_calls = run_of 1000000000 3 ∷ run_of 5000000000 4 ∷ []

abbrev left_by_first : Entries Bytes
left_by_first = calls change_at_5 (codes "k") first_calls []

abbrev left_by_third : Entries Bytes
left_by_third = (try_key change_at_5 (codes "k") (run_of 9000000000 6) left_by_first).1

-- The third call meets the change.
third :
    try_key change_at_5 (codes "k") (run_of 9000000000 6) left_by_first
    ≡ (ok (codes "new"), left_by_third)
unfolding calls try_key read revalidate marker reload_entry load expired store lookup insert remove
    ◌=ᵇ◌
third = refl

-- Within a second of a store, a call does not look at the marker.
in_grace :
    (try_key change_at_5
      (codes "k")
      (run_of 1900000000 6)
      (calls change_at_5 (codes "k") (run_of 1000000000 3 ∷ []) [])).0
    ≡ ok (codes "old")
unfolding calls try_key read revalidate marker reload_entry load expired store lookup insert remove
    ◌=ᵇ◌
in_grace = refl

change_at_5-Tracks : Tracks change_at_5 (codes "k")
unfolding marker
change_at_5-Tracks = record { unchanged = λ i j k m p q a b. unchanged i j k m p q a b }
  where
    unchanged :
        (i j k : ℕ) (m : Bytes)
        → marker change_at_5 (codes "k") i ≡ ok m
        → marker change_at_5 (codes "k") j ≡ ok m
        → i ≤ k
        → k ≤ j
        → change_at_5.loader k ≡ change_at_5.loader j
    unchanged i j k m p q a b = elim (Bool-cases (ltb i 5)) [
      | inl x ↦ elim (Bool-cases (ltb j 5)) [
        | inl y ↦ ground (arith, x, y, a, b)
        | inr y ↦ absurd (ground (arith, x, y, p, q))
      ]
      | inr x ↦ ground (arith, x, a, b)
    ]

calls-Served_example :
    Served change_at_5 (codes "k") (run_of 9000000000 6) left_by_first (codes "new")
calls-Served_example =
    calls-Served change_at_5 (codes "k") (λ v. ok (if ltb v 5 then codes "m1" else codes "m2")) refl
      change_at_5-Tracks first_calls (run_of 9000000000 6) left_by_third (codes "new")
      (
        record { from = omega arith; then_mark = omega arith; then_load = omega arith },
        (record { from = omega arith; then_mark = omega arith; then_load = omega arith }, tt),
      )
      (omega arith) third
