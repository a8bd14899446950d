-- ===== src/Cache/Reader.antt =====
-- `Try` of admin/dbcache/cacher.go on the memory cache. The database is read at versions, numbered in
-- the order of their commits: one for the marker that revalidates an entry, one for the marker of a
-- reload and one for its loader. Calls that share a reload through singleflight are one call here. An
-- entry is stored under the key of one type of value.
use aeus.Common.{
  ℕ, ◌-◌, ◌*◌, ◌/◌, Bytes, [], length, ltb, leb, if◌then◌else◌, ◌=ᵇ◌, Option, none, some, Result,
  ok, err,
}
use aeus.Common.Dict.{Dict}
use aeus.Cache.Memory.{Duration, span, Item, load, store, delete_key}

-- `cacheEntry`; the instant is in milliseconds.
pub record CacheEntry (A : Type 0) : Type 0 where
  pub value : A
  pub compare_value : Bytes
  pub created_at : ℕ

pub data TryError : Type 0 where
  key_too_long : TryError
  dependency_error loader_error : ℕ → TryError

abbrev pub max_cache_key_len : ℕ
max_cache_key_len = 256

-- `graceWindow`, in nanoseconds.
abbrev pub grace_window : ℕ
grace_window = 1000000000

abbrev pub nanoseconds : ℕ → ℕ
nanoseconds ms = ms * 1000000

abbrev pub Entries : Type 0 → Type 0
Entries A = Dict (Item (CacheEntry A))

-- When the parts of a call run: the instants of the read and of the store, and the versions of the
-- database that the three queries see.
pub record Run : Type 0 where
  pub now : ℕ
  pub later : ℕ
  pub check_at : ℕ
  pub mark_at : ℕ
  pub load_at : ℕ

-- A `Cacher` for one key, with what its loader and its dependency answer at each version.
pub record Cacher (A : Type 0) : Type 0 where
  pub duration : ℕ
  pub options_expiration : Duration
  pub dependency : Option (ℕ → Result ℕ Bytes)
  pub loader : ℕ → Result ℕ A

-- What the read of the cache comes to.
pub data ReadPath (A : Type 0) : Type 0 where
  serve : A → ReadPath A
  reload drop_and_reload : ReadPath A

module _ {A : Type 0} (c : Cacher A) (key : Bytes) where
  -- The marker is compared once the grace window is over.
  unfoldable pub revalidate : Run → CacheEntry A → ReadPath A
  revalidate r entry = elim (c.dependency) [
    | none ↦ serve entry.value
    | some get_value ↦ elim (get_value r.check_at) [
      | err e ↦ reload
      | ok depend_value ↦
          if entry.compare_value =ᵇ depend_value then serve entry.value else drop_and_reload
    ]
  ]

  -- The read path.
  unfoldable pub read : Run → Entries A → ReadPath A
  read r items = elim (load some key r.now items) [
    | err e ↦ reload
    | ok entry ↦
        if ltb r.now (nanoseconds entry.created_at)
        then reload
        else if leb (r.now - nanoseconds entry.created_at) grace_window
        then serve entry.value
        else revalidate r entry
  ]

  -- The marker of a reload; the empty text without a dependency.
  unfoldable pub marker : ℕ → Result ℕ Bytes
  marker at = elim (c.dependency) [ none ↦ ok [] | some get_value ↦ get_value at ]

  abbrev pub entry_of : Run → A → Bytes → CacheEntry A
  entry_of r value depend_value = record {
    value = value;
    compare_value = depend_value;
    created_at = r.later / 1000000;
  }

  -- The reload path.
  unfoldable pub reload_entry : Run → Entries A → Result TryError A × Entries A
  reload_entry r items = elim (marker r.mark_at) [
    | err e ↦ (err (dependency_error e), items)
    | ok depend_value ↦ elim (c.loader r.load_at) [
      | err e ↦ (err (loader_error e), items)
      | ok value ↦ (
        ok value,
        store c.options_expiration key (entry_of r value depend_value) (span c.duration) r.later
            items,
      )
    ]
  ]

  -- The way from the read path on.
  abbrev pub follow : Run → Entries A → ReadPath A → Result TryError A × Entries A
  follow r items (serve value) = (ok value, items)
  follow r items reload = reload_entry r items
  follow r items drop_and_reload = reload_entry r (delete_key key items)

  -- `Try`.
  unfoldable pub try_key : Run → Entries A → Result TryError A × Entries A
  try_key r items =
      if ltb max_cache_key_len (length key)
      then (err key_too_long, items)
      else follow r items (read r items)
