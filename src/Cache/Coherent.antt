-- ===== src/Cache/Coherent.antt =====
-- What admin/dbcache promises of a value that it serves.
use aeus.Common.{
  ℕ, ◌-◌, ◌≤◌, Bytes, true, false, ltb, leb, ◌=ᵇ◌, =ᵇ_sound, some, Result, ok, ◌≡◌, ◌⊎◌, sym, ap,
  ◌∙◌, subst, inl, inr, arith, Bool-cases, Option-cases, Result-cases,
}
use aeus.Common.Dict.{lookup}
use aeus.Cache.Memory.{Item, expired, load}
use aeus.Cache.Reader.{
  CacheEntry, Entries, Run, Cacher, serve, nanoseconds, grace_window, revalidate, read, marker,
}

module _ {A : Type 0} (c : Cacher A) (key : Bytes) where
  -- An entry whose value a loader gave at a version, after the marker was read at one no later.
  pub record Honest (by : ℕ) (entry : CacheEntry A) : Type 0 where
    pub marked_at : ℕ
    pub loaded_at : ℕ
    pub ordered : marked_at ≤ loaded_at
    pub past : loaded_at ≤ by
    pub marked : marker c key marked_at ≡ ok entry.compare_value
    pub loaded : c.loader loaded_at ≡ ok entry.value

  -- What stands under the key, if anything, is honest.
  abbrev pub AllHonest : ℕ → Entries A → Type 0
  AllHonest by items = (i : Item (CacheEntry A)) → lookup key items ≡ some i → Honest by i.value

  -- The order of a call's queries, none before an instant of the past.
  pub record InOrder (by : ℕ) (r : Run) : Type 0 where
    pub from : by ≤ r.check_at
    pub then_mark : r.check_at ≤ r.mark_at
    pub then_load : r.mark_at ≤ r.load_at

  -- Two equal markers stand for data that did not change between them, as the loader sees it.
  pub record Tracks : Type 0 where
    pub unchanged :
        (i j k : ℕ) (m : Bytes)
        → marker c key i ≡ ok m
        → marker c key j ≡ ok m
        → i ≤ k
        → k ≤ j
        → c.loader k ≡ c.loader j

  -- A value that a call serves: read from the database in the call, or valid at its check, or no older
  -- than the grace window.
  pub record Graced (r : Run) (items : Entries A) (v : A) : Type 0 where
    pub entry : CacheEntry A
    pub found : load some key r.now items ≡ ok entry
    pub same : entry.value ≡ v
    pub created : ltb r.now (nanoseconds entry.created_at) ≡ false
    pub young : leb (r.now - nanoseconds entry.created_at) grace_window ≡ true
    pub honest : Honest r.check_at entry

  abbrev pub Served : Run → Entries A → A → Type 0
  Served r items v = (c.loader r.load_at ≡ ok v) ⊎ ((c.loader r.check_at ≡ ok v) ⊎ Graced r items v)

  pub Honest-later : (by at : ℕ) (e : CacheEntry A) → by ≤ at → Honest by e → Honest at e
  Honest-later by at e le h = record {
    marked_at = h.marked_at;
    loaded_at = h.loaded_at;
    ordered = h.ordered;
    past = omega (arith, le, h.past);
    marked = h.marked;
    loaded = h.loaded;
  }

  load-Honest :
      (by now : ℕ) (items : Entries A) (e : CacheEntry A)
      → AllHonest by items
      → load some key now items ≡ ok e
      → Honest by e
  unfolding load
  load-Honest by now items e honest h = elim (Option-cases (lookup key items)) [
    | inl n ↦ absurd (ground (arith, n, h))
    | inr (i, s) ↦ elim (Bool-cases (expired i now)) [
      | inl x ↦ absurd (ground (arith, s, x, h))
      | inr x ↦ subst (Honest by) (ground (arith, s, x, h)) (honest i s)
    ]
  ]

  module _ (get_value : ℕ → Result ℕ Bytes) (dep : c.dependency ≡ some get_value) where
    revalidate-serve :
        (r : Run) (e : CacheEntry A) (v : A)
        → revalidate c key r e ≡ serve v
        → (e.value ≡ v) × (marker c key r.check_at ≡ ok e.compare_value)
    unfolding revalidate marker
    revalidate-serve r e v h = elim (Result-cases (get_value r.check_at)) [
      | inl (n, g) ↦ absurd (ground (arith, dep, g, h))
      | inr (m, g) ↦ elim (Bool-cases (e.compare_value =ᵇ m)) [
        | inr t ↦ absurd (ground (arith, dep, g, t, h))
        | inl t ↦ (ground (arith, dep, g, t, h), ground (arith, dep, g, =ᵇ_sound _ _ t))
      ]
    ]

    -- What the read path serves.
    pub read-serve :
        (by : ℕ) (r : Run) (items : Entries A) (v : A)
        → Tracks
        → by ≤ r.check_at
        → AllHonest by items
        → read c key r items ≡ serve v
        → (c.loader r.check_at ≡ ok v) ⊎ Graced r items v
    unfolding read
    read-serve by r items v tracks le honest h = elim (Result-cases (load some key r.now items)) [
      | inl (e, l) ↦ absurd (ground (arith, l, h))
      | inr (e, l) ↦ elim (Bool-cases (ltb r.now (nanoseconds e.created_at))) [
        | inl b ↦ absurd (ground (arith, l, b, h))
        | inr b ↦ elim (Bool-cases (leb (r.now - nanoseconds e.created_at) grace_window)) [
          | inl y ↦ inr (record {
            entry = e;
            found = l;
            same = ground (arith, l, b, y, h);
            created = b;
            young = y;
            honest = Honest-later by r.check_at e le (load-Honest by r.now items e honest l);
          })
          | inr y ↦ inl (validated e l (revalidate-serve r e v (ground (arith, l, b, y, h))))
        ]
      ]
    ]
      where
        validated :
            (e : CacheEntry A)
            → load some key r.now items ≡ ok e
            → (e.value ≡ v) × (marker c key r.check_at ≡ ok e.compare_value)
            → c.loader r.check_at ≡ ok v
        validated e l (same, m) =
            let g = load-Honest by r.now items e honest l in
            sym (
              tracks.unchanged g.marked_at r.check_at g.loaded_at e.compare_value g.marked m
                g.ordered (omega (arith, g.past, le)))
            ∙ g.loaded
            ∙ ap ok same
