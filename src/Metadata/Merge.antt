-- ===== src/Metadata/Merge.antt =====
-- What MergeContext of metadata/metadata.go makes of two sets of entries.
use aeus.Common.{
  Bytes, Bool, [], ◌∷◌, ◌=ᵇ◌, =ᵇ_iff, if◌then◌else◌, Option, none, some, ◌≡◌, refl, arith,
  Bool-cases, inl, inr,
}
use aeus.Common.Dict.{
  Dict, lookup, Distinct, lookup-insert, lookup-remove, lookup_of_Fresh, insert-Distinct,
  remove-Distinct,
}
use aeus.Metadata.Defs.{Metadata, kept, patch_entry, patch_entries, merge_context}

-- The value of a key after an entry of the patch for it.
abbrev pub merged_value : Bool → Option Bytes → Option Bytes → Option Bytes
merged_value overwrite old none = old
merged_value overwrite old (some v) =
    if v =ᵇ [] then none else if kept overwrite old then old else some v

abbrev pub patch_of : {S : Type 0} → Option (Metadata S) → Dict Bytes
patch_of none = []
patch_of (some patch) = patch.variables

patch_entry-Distinct :
    (overwrite : Bool) (k v : Bytes) (m : Dict Bytes)
    → Distinct m
    → Distinct (patch_entry overwrite k v m)
patch_entry-Distinct overwrite k v m d =
    ground (arith, remove-Distinct k m d, insert-Distinct k v m d)

lookup-patch_entry :
    (overwrite : Bool) (k v j : Bytes) (m : Dict Bytes)
    → Distinct m
    → lookup j (patch_entry overwrite k v m)
      ≡ (if k =ᵇ j then merged_value overwrite (lookup k m) (some v) else lookup j m)
lookup-patch_entry overwrite k v j m d =
    ground (arith, lookup-remove k j m d, lookup-insert k j v m, =ᵇ_iff k j)

lookup-patch_entries :
    (overwrite : Bool) (patch m : Dict Bytes) (j : Bytes)
    → Distinct patch
    → Distinct m
    → lookup j (patch_entries overwrite patch m)
      ≡ merged_value overwrite (lookup j m) (lookup j patch)
unfolding patch_entries lookup
lookup-patch_entries overwrite [] m j p d = refl
lookup-patch_entries overwrite ((k, v) ∷ patch) m j (f, p) d =
    let ih =
      lookup-patch_entries overwrite patch (patch_entry overwrite k v m) j p
        (patch_entry-Distinct overwrite k v m d) in
    let one = lookup-patch_entry overwrite k v j m d in
    elim (Bool-cases (k =ᵇ j)) [
      | inl e ↦ ground (arith, ih, one, e, =ᵇ_iff k j, lookup_of_Fresh k patch f)
      | inr e ↦ ground (arith, ih, one, e)
    ]

patch_entries-Distinct :
    (overwrite : Bool) (patch m : Dict Bytes)
    → Distinct m
    → Distinct (patch_entries overwrite patch m)
unfolding patch_entries
patch_entries-Distinct overwrite [] m d = d
patch_entries-Distinct overwrite ((k, v) ∷ patch) m d =
    patch_entries-Distinct overwrite patch (patch_entry overwrite k v m)
      (patch_entry-Distinct overwrite k v m d)

module _ {S : Type 0} where
  -- Where no key stands twice among the entries of the context or among those of the patch: of the
  -- entries after MergeContext a key has the value of the patch where the patch has one that is not
  -- empty and either may overwrite or meets no entry, none where the patch has an empty value, and its
  -- old entry otherwise. No key stands twice among them, and there is no tee reader, also where the
  -- context or the patch had one.
  pub merge_context-lookup :
      (old : Metadata S) (patch : Option (Metadata S)) (overwrite : Bool) (key : Bytes)
      → Distinct old.variables
      → Distinct (patch_of patch)
      → (lookup key (merge_context old patch overwrite).variables
          ≡ merged_value overwrite (lookup key old.variables) (lookup key (patch_of patch)))
        × Distinct (merge_context old patch overwrite).variables
        × ((merge_context old patch overwrite).tee_reader ≡ none)
  unfolding merge_context lookup
  merge_context-lookup old none overwrite key d p = (refl, d, refl)
  merge_context-lookup old (some patch) overwrite key d p = (
    lookup-patch_entries overwrite patch.variables old.variables key p d,
    patch_entries-Distinct overwrite patch.variables old.variables d,
    refl,
  )
