-- ===== src/Metadata/Defs.antt =====
-- The record Metadata and its methods, and MergeContext, of metadata/metadata.go. `S` is the state
-- behind the tee reader and the tee writer. `canonical` is `strings.ToLower` on ASCII text alone: what
-- depends on it has the hypothesis `IsAscii` on the keys.
use aeus.Common.{
  ◌+◌, ◌<◌, Bytes, Bool, All, false, not, ◌&&◌, [], ◌∷◌, ltb, ◌=ᵇ◌, if◌then◌else◌, Option, none,
  some,
}
use aeus.Common.Dict.{Dict, lookup, insert, remove}

pub record Metadata (S : Type 0) : Type 0 where
  pub tee_reader : Option (S → Bytes → Bytes)
  pub tee_writer : Option (Bytes → Bytes → S → S)
  pub variables : Dict Bytes

abbrev pub IsAscii : Bytes → Type 0
IsAscii key = All (λ b. b < 128) key

-- `canonicalMetadataKey` of an ASCII key.
unfoldable pub canonical : Bytes → Bytes
canonical [] = []
canonical (b ∷ s) = (if ltb 64 b && ltb b 91 then b + 32 else b) ∷ canonical s

-- `New`.
abbrev pub new_metadata : {S : Type 0} → Metadata S
new_metadata = record { tee_reader = none; tee_writer = none; variables = [] }

-- One entry of the patch.
abbrev pub kept : Bool → Option Bytes → Bool
kept overwrite none = false
kept overwrite (some old) = not overwrite

abbrev pub patch_entry : Bool → Bytes → Bytes → Dict Bytes → Dict Bytes
patch_entry overwrite k v m =
    if v =ᵇ [] then remove k m else if kept overwrite (lookup k m) then m else insert k v m

unfoldable pub patch_entries : Bool → Dict Bytes → Dict Bytes → Dict Bytes
patch_entries overwrite [] m = m
patch_entries overwrite ((k, v) ∷ patch) m =
    patch_entries overwrite patch (patch_entry overwrite k v m)

module _ {S : Type 0} where
  -- What the reader says, unless that is empty.
  abbrev pub read_through : Option (S → Bytes → Bytes) → S → Bytes → Option Bytes
  read_through none s key = none
  read_through (some reader) s key = if reader s key =ᵇ [] then none else some (reader s key)

  -- `Get`; a value that is not there is the empty one to Go.
  unfoldable pub get : Metadata S → S → Bytes → Option Bytes
  get m s key = elim (lookup (canonical key) m.variables) [
    | some v ↦ some v
    | none ↦ read_through m.tee_reader s (canonical key)
  ]

  abbrev pub write_through : Option (Bytes → Bytes → S → S) → Bytes → Bytes → S → S
  write_through none key v s = s
  write_through (some writer) key v s = writer key v s

  -- `Set`.
  unfoldable pub set : Bytes → Bytes → Metadata S × S → Metadata S × S
  set key v (m, s) = (
    record m { variables = insert (canonical key) v m.variables },
    write_through m.tee_writer (canonical key) v s,
  )

  -- `Delete`.
  unfoldable pub delete : Bytes → Metadata S × S → Metadata S × S
  delete key (m, s) = (
    record m { variables = remove (canonical key) m.variables },
    write_through m.tee_writer (canonical key) [] s,
  )

  -- The change that `Set` of a context makes to its metadata.
  unfoldable pub set_context : Bytes → Bytes → Metadata S × S → Metadata S × S
  set_context key v ms = if v =ᵇ [] then delete (canonical key) ms else set (canonical key) v ms

  -- `MergeContext`, of the metadata of the context, with a patch that may be nil.
  unfoldable pub merge_context : Metadata S → Option (Metadata S) → Bool → Metadata S
  merge_context old none overwrite = record new_metadata { variables = old.variables }
  merge_context old (some patch) overwrite = record new_metadata {
    variables = patch_entries overwrite patch.variables old.variables;
  }
