-- ===== src/Cache/Calls.antt =====
-- What sequences of calls of `Try` in admin/dbcache/cacher.go promise.
use aeus.Common.{
  ℕ, ◌≤◌, Bytes, List, [], ◌∷◌, length, ltb, if◌then◌else◌, =ᵇ_refl, some, Result, ok, err, ◌≡◌,
  refl, ap, ◌∙◌, subst, inl, inr, arith, Bool-cases, Result-cases,
}
use aeus.Common.Dict.{
  lookup, insert, remove, lookup-insert, lookup-remove, Distinct, insert-Distinct, remove-Distinct,
}
use aeus.Cache.Memory.{Item, span, expiry, is_default, store, delete_key}
use aeus.Cache.Reader.{
  CacheEntry, TryError, Entries, Run, Cacher, ReadPath, serve, reload, drop_and_reload,
  max_cache_key_len, read, marker, entry_of, reload_entry, follow, try_key,
}
use aeus.Cache.Coherent.{Honest, AllHonest, InOrder, Tracks, Served, Honest-later, read-serve}

module _ {A : Type 0} (c : Cacher A) (key : Bytes) where
  -- A map whose entry under the key, if any, is honest.
  pub record WellFormed (by : ℕ) (items : Entries A) : Type 0 where
    pub distinct : Distinct items
    pub honest : AllHonest c key by items

  WellFormed-later :
      (by at : ℕ) (items : Entries A) → by ≤ at → WellFormed by items → WellFormed at items
  WellFormed-later by at items le w = record {
    distinct = w.distinct;
    honest = λ i s. Honest-later c key by at i.value le (w.honest i s);
  }

  -- What a reload comes to: an error and the map as it was, or a stored entry.
  data Reloaded (r : Run) (items : Entries A) : Result TryError A × Entries A → Type 0 where
    failed : (e : TryError) → Reloaded r items (err e, items)
    stored :
        (v : A) (m : Bytes)
        → marker c key r.mark_at ≡ ok m
        → c.loader r.load_at ≡ ok v
        → Reloaded r items (
          ok v,
          store c.options_expiration key (entry_of c key r v m) (span c.duration) r.later items,
        )

  reload_entry-Reloaded :
      (r : Run) (items : Entries A) → Reloaded r items (reload_entry c key r items)
  unfolding reload_entry
  reload_entry-Reloaded r items = elim (Result-cases (marker c key r.mark_at)) [
    | inl (e, m) ↦ rw (m, reload_entry) (failed (TryError.dependency_error e))
    | inr (d, m) ↦ elim (Result-cases (c.loader r.load_at)) [
      | inl (e, l) ↦ rw (m, l, reload_entry) (failed (TryError.loader_error e))
      | inr (v, l) ↦ rw (m, l, reload_entry) (stored v d m l)
    ]
  ]

  Reloaded-WellFormed :
      (by : ℕ) (r : Run) (items : Entries A) (x : Result TryError A × Entries A)
      → by ≤ r.check_at
      → r.check_at ≤ r.mark_at
      → r.mark_at ≤ r.load_at
      → WellFormed by items
      → Reloaded r items x
      → WellFormed r.load_at x.1
  unfolding store
  Reloaded-WellFormed by r items _ a b d w (failed e) =
      WellFormed-later by r.load_at items (omega (arith, a, b, d)) w
  Reloaded-WellFormed by r items _ a b d w (stored v m p l) = record {
    distinct = insert-Distinct key _ items w.distinct;
    honest = λ i s.
        subst (λ x. Honest c key r.load_at x.value) (at_key i s)
          (record {
            marked_at = r.mark_at;
            loaded_at = r.load_at;
            ordered = d;
            past = omega arith;
            marked = p;
            loaded = l;
          });
  }
    where
      new : Item (CacheEntry A)
      new = record {
        value = entry_of c key r v m;
        expiration =
            expiry (if is_default (span c.duration) then c.options_expiration else span c.duration)
              r.later;
      }

      at_key : (i : Item (CacheEntry A)) → lookup key (insert key new items) ≡ some i → new ≡ i
      at_key i s = ground (arith, =ᵇ_refl key, lookup-insert key key new items, s)

  Reloaded-loaded :
      (r : Run) (items items' : Entries A) (v : A) (x : Result TryError A × Entries A)
      → Reloaded r items x
      → x ≡ (ok v, items')
      → c.loader r.load_at ≡ ok v
  Reloaded-loaded r items items' v _ (failed e) h = absurd (ground (arith, h))
  Reloaded-loaded r items items' v _ (stored w m p l) h = l ∙ ground (arith, h)

  dropped-WellFormed :
      (by : ℕ) (items : Entries A) → WellFormed by items → WellFormed by (delete_key key items)
  dropped-WellFormed by items w = record {
    distinct = remove-Distinct key items w.distinct;
    honest = λ i s. absurd (gone i s);
  }
    where
      gone : (i : Item (CacheEntry A)) → lookup key (remove key items) ≡ some i → ⊥
      gone i s = ground (arith, lookup-remove key key items w.distinct, =ᵇ_refl key, s)

  -- `Try` keeps the map well formed.
  pub try_key-WellFormed :
      (by : ℕ) (r : Run) (items : Entries A)
      → InOrder c key by r
      → WellFormed by items
      → WellFormed r.load_at (try_key c key r items).1
  unfolding try_key
  try_key-WellFormed by r items o w = elim (Bool-cases (ltb max_cache_key_len (length key))) [
    | inl z ↦
        rw (z, try_key)
          (WellFormed-later by r.load_at items (omega (arith, o.from, o.then_mark, o.then_load)) w)
    | inr z ↦ rw (z, try_key) (followed (read c key r items))
  ]
    where
      again : (x : Entries A) → WellFormed by x → WellFormed r.load_at (reload_entry c key r x).1
      again x v =
          Reloaded-WellFormed by r x (reload_entry c key r x) o.from o.then_mark o.then_load v
            (reload_entry-Reloaded r x)

      followed : (p : ReadPath A) → WellFormed r.load_at (follow c key r items p).1
      followed (serve v) =
          WellFormed-later by r.load_at items (omega (arith, o.from, o.then_mark, o.then_load)) w
      followed reload = again items w
      followed drop_and_reload = again (delete_key key items) (dropped-WellFormed by items w)

  -- The calls of a list, one after the other.
  unfoldable pub calls : List Run → Entries A → Entries A
  calls [] items = items
  calls (r ∷ runs) items = calls runs (try_key c key r items).1

  -- The last version that the calls have seen.
  abbrev pub seen : ℕ → List Run → ℕ
  seen by [] = by
  seen by (r ∷ runs) = seen r.load_at runs

  abbrev pub Ordered : ℕ → List Run → Type 0
  Ordered by [] = Unit
  Ordered by (r ∷ runs) = InOrder c key by r × Ordered r.load_at runs

  pub calls-WellFormed :
      (by : ℕ) (runs : List Run) (items : Entries A)
      → Ordered by runs
      → WellFormed by items
      → WellFormed (seen by runs) (calls runs items)
  unfolding calls
  calls-WellFormed by [] items o w = w
  calls-WellFormed by (r ∷ runs) items (o, rest) w =
      calls-WellFormed r.load_at runs (try_key c key r items).1 rest
        (try_key-WellFormed by r items o w)

  empty-WellFormed : WellFormed 0 []
  unfolding lookup
  empty-WellFormed = record { distinct = tt; honest = λ i s. absurd (ground (arith, s)) }

  module _ (get_value : ℕ → Result ℕ Bytes) (dep : c.dependency ≡ some get_value)
      (tracks : Tracks c key) where
    -- A value that `Try` gives was read from the database in the call, or is what the loader gives at the
    -- version of the check, or was served in the grace window.
    try_key-Served :
        (by : ℕ) (r : Run) (items items' : Entries A) (v : A)
        → by ≤ r.check_at
        → AllHonest c key by items
        → try_key c key r items ≡ (ok v, items')
        → Served c key r items v
    unfolding try_key
    try_key-Served by r items items' v le honest h =
        elim (Bool-cases (ltb max_cache_key_len (length key))) [
          | inl z ↦ absurd (ground (arith, z, h))
          | inr z ↦ followed (read c key r items) refl (ground (arith, z, h))
        ]
      where
        followed :
            (p : ReadPath A)
            → read c key r items ≡ p
            → follow c key r items p ≡ (ok v, items')
            → Served c key r items v
        followed (serve w) s e = inr (
            read-serve c key get_value dep by r items v tracks le honest
              (s ∙ ap serve (ground (arith, e))))
        followed reload s e = inl (
            Reloaded-loaded r items items' v (reload_entry c key r items)
              (reload_entry-Reloaded r items) e)
        followed drop_and_reload s e = inl (
            Reloaded-loaded r (delete_key key items) items' v
              (reload_entry c key r (delete_key key items))
              (reload_entry-Reloaded r (delete_key key items)) e)

    -- Of a cache with a dependency whose equal markers stand for data that did not change between them:
    -- after any calls for a key from an empty cache, a value that the next call gives is what the loader
    -- gives at the version of the call's reload or of its check, or an entry at most one second old that
    -- the loader gave before. The queries of the calls see versions in order.
    pub calls-Served :
        (runs : List Run) (r : Run) (items' : Entries A) (v : A)
        → Ordered 0 runs
        → seen 0 runs ≤ r.check_at
        → try_key c key r (calls runs []) ≡ (ok v, items')
        → Served c key r (calls runs []) v
    calls-Served runs r items' v o le h =
        try_key-Served (seen 0 runs) r (calls runs []) items' v le
          (calls-WellFormed 0 runs [] o empty-WellFormed).honest h
