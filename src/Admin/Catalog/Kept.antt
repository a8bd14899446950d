-- ===== src/Admin/Catalog/Kept.antt =====
-- What ensurePermissionRows of admin/derive.go keeps of the rows that operators may have edited.
use aeus.Common.{
  Bytes, true, false, ◌&&◌, ◌||◌, not, List, [], ◌∷◌, ◌=ᵇ◌, =ᵇ_iff, any, Option, none, some, ◌≡◌,
  refl, arith, All, Bool-cases, Option-cases, inl, inr, ◌⊎◌,
}
use aeus.Admin.Permission.Checker.{permission_type_api}
use aeus.Admin.Catalog.Defs.{
  Permission, CatalogError, lookup_failed, create_failed, back_fill_failed, Faults, Outcome,
  and_then, new_row, create_row,
}
use aeus.Admin.Catalog.Derive.{
  Resource, Entry, permission_code, permission_scenarios, has_code, first_code, fill_group,
  back_fill, ensure_permission_row, ensure_scenarios, overridden, ensure_permission_rows,
}
use aeus.Admin.Catalog.Edits.{
  Kept, Kept_refl, Kept-append, Kept_trans, Kept-fill_group, any-append, any-Kept, any-first_code,
}

-- The row of an entry: its code is empty, or a row has it.
abbrev pub Catalogued : Entry → List Permission → Type 0
Catalogued e t = ((e.code =ᵇ []) || any (has_code e.code) t) ≡ true

module _ (F : Faults) where
  -- An outcome of a run on a table: what is kept, and an error or what holds.
  pub record Keeps (P : List Permission → Type 0) (t : List Permission) (o : Outcome) : Type 0 where
    pub kept : Kept t o.1
    pub holds : ((e : CatalogError) × (o.0 ≡ some e)) ⊎ P o.1

  failed-Keeps :
      (P : List Permission → Type 0) (t : List Permission) (e : CatalogError)
      → Keeps P t (some e, t)
  failed-Keeps P t e = record { kept = Kept_refl t; holds = inl (e, refl) }

  back_fill-Keeps :
      (e : Entry) (existing : Permission) (t : List Permission)
      → first_code e.code t ≡ some existing
      → Keeps (Catalogued e) t (back_fill F e existing t)
  back_fill-Keeps e existing t h =
      elim (Bool-cases ((existing.group =ᵇ []) && not (e.group =ᵇ []))) [
        | inr g ↦ rw g (record { kept = Kept_refl t; holds = inr found })
        | inl g ↦ elim (Option-cases (F.update e.code)) [
          | inr (x, f) ↦ rw (g, f) (failed-Keeps (Catalogued e) t (back_fill_failed e.code x))
          | inl f ↦
              let k = Kept-fill_group e.code e.group t existing h (ground (arith, g)) in
              rw (g, f)
                (record {
                  kept = k;
                  holds =
                      inr (ground (arith, any-Kept e.code t (fill_group e.code e.group t) k there));
                })
        ]
      ]
    where
      there : any (has_code e.code) t ≡ true
      there = any-first_code e.code t existing h

      found : Catalogued e t
      found = ground (arith, any-first_code e.code t existing h)

  create_row-Keeps :
      (e : Entry) (t : List Permission)
      → Keeps
          (Catalogued e)
          t
          (create_row F (new_row permission_type_api e.code e.description e.group) t)
  create_row-Keeps e t = elim (Option-cases (F.create row)) [
    | inr (x, f) ↦ rw (create_row, f) (failed-Keeps (Catalogued e) t (create_failed e.code x))
    | inl f ↦
        rw (create_row, f)
          (record {
            kept = Kept-append t (row ∷ []);
            holds =
                inr
                  (ground (arith, any-append (has_code e.code) t (row ∷ []), =ᵇ_iff e.code e.code));
          })
  ]
    where
      row : Permission
      row = new_row permission_type_api e.code e.description e.group

  ensure_permission_row-Keeps :
      (e : Entry) (t : List Permission) → Keeps (Catalogued e) t (ensure_permission_row F e t)
  unfolding ensure_permission_row
  ensure_permission_row-Keeps e t = elim (Bool-cases (e.code =ᵇ [])) [
    | inl z ↦ rw z (record { kept = Kept_refl t; holds = inr (ground (arith, z)) })
    | inr z ↦ elim (Option-cases (F.find_code e.code)) [
      | inr (x, f) ↦ rw (z, f) (failed-Keeps (Catalogued e) t (lookup_failed e.code x))
      | inl f ↦ elim (Option-cases (first_code e.code t)) [
        | inl n ↦ rw (z, f, n) (create_row-Keeps e t)
        | inr (r, n) ↦ rw (z, f, n) (back_fill-Keeps e r t n)
      ]
    ]
  ]

  and_then-Keeps :
      (P Q R : List Permission → Type 0) (t : List Permission) (o : Outcome)
      (next : List Permission → Outcome)
      → ((u v : List Permission) → Kept u v → P u → Q v → R v)
      → Keeps P t o
      → ((u : List Permission) → Keeps Q u (next u))
      → Keeps R t (and_then o next)
  and_then-Keeps P Q R t (some e, u) next both k n = record { kept = k.kept; holds = inl (e, refl) }
  and_then-Keeps P Q R t (none, u) next both k n = record {
    kept = Kept_trans t u (next u).1 k.kept (n u).kept;
    holds = elim (k.holds) [
      | inl (e, h) ↦ absurd (some_none e h)
      | inr p ↦ elim ((n u).holds) [
        | inl h ↦ inl h
        | inr q ↦ inr (both u (next u).1 (n u).kept p q)
      ]
    ];
  }
    where
      some_none : (e : CatalogError) → ◌≡◌ {A = Option CatalogError} none (some e) → ⊥
      some_none e h = ground (arith, h)

  Catalogued-Kept : (e : Entry) (u v : List Permission) → Kept u v → Catalogued e u → Catalogued e v
  Catalogued-Kept e u v k c = ground (arith, any-Kept e.code u v k, c)

  ensure_scenarios-Keeps :
      (verb : Bytes → Bytes) (r : Resource) (scenarios : List Bytes) (t : List Permission)
      → Keeps
          (λ u. All (λ s. Catalogued (permission_code verb r s) u) scenarios)
          t
          (ensure_scenarios F verb r scenarios t)
  unfolding ensure_scenarios
  ensure_scenarios-Keeps verb r [] t = record { kept = Kept_refl t; holds = inr tt }
  ensure_scenarios-Keeps verb r (s ∷ more) t =
      and_then-Keeps (Catalogued (permission_code verb r s))
        (λ u. All (λ s. Catalogued (permission_code verb r s) u) more) _ t
        (ensure_permission_row F (permission_code verb r s) t) (ensure_scenarios F verb r more)
        (λ u v k c a. (Catalogued-Kept (permission_code verb r s) u v k c, a))
        (ensure_permission_row-Keeps (permission_code verb r s) t)
        (ensure_scenarios-Keeps verb r more)

  -- ensurePermissionRows of a resource with a module and a table, whether it fails or not, keeps every
  -- row of the catalog in its place and with its columns, but for a group that was empty. If it does
  -- not fail, every scenario of the call, or else of the model, whose route the resource has a URI for
  -- has a row with the route's code.
  pub ensure_permission_rows-Keeps :
      (canonical : List Bytes) (verb : Bytes → Bytes) (r : Resource)
      (override_scenarios : Option (List Bytes)) (t : List Permission)
      → (r.module_name =ᵇ []) ≡ false
      → (r.table_name =ᵇ []) ≡ false
      → Keeps
          (λ u.
            All
              (λ s. Catalogued (permission_code verb r s) u)
              (overridden override_scenarios (permission_scenarios canonical r)))
          t
          (ensure_permission_rows F canonical verb r override_scenarios t)
  unfolding ensure_permission_rows
  ensure_permission_rows-Keeps canonical verb r override_scenarios t m n =
      rw (m, n)
        (ensure_scenarios-Keeps verb r
          (overridden override_scenarios (permission_scenarios canonical r)) t)
