-- ===== src/Admin/Catalog/Registered.antt =====
-- What EnsureEndpointPermissions of admin/endpoint_permissions.go leaves.
use aeus.Common.{
  Bytes, Bool, true, false, ◌||◌, List, [], ◌∷◌, ◌++◌, ◌=ᵇ◌, =ᵇ_refl, any, none, some, ◌≡◌, refl,
  sym, ap, ◌∙◌, subst, arith, All, append-nil, Bool-cases, Option-cases, inl, inr,
}
use aeus.Admin.Permission.Checker.{permission_type_api}
use aeus.Admin.Catalog.Defs.{
  Permission, permission_type_button, Policy, permission, CatalogError, lookup_failed,
  create_failed, Faults, Outcome, and_then, is_typed, has_typed, new_row, ensure_permission,
  ensure_policy, ensure_endpoint_permissions,
}
use aeus.Admin.Catalog.Ensures.{
  Ensures, done, broken, Ensures-same, Ensures-nothing, Ensures-and_then,
}

any-append :
    (p : Permission → Bool) (xs ys : List Permission) → any p (xs ++ ys) ≡ (any p xs || any p ys)
any-append p [] ys = refl
any-append p (x ∷ xs) ys = ground (arith, any-append p xs ys)

-- The text is empty, or a row has it.
abbrev Has : Bytes → Bytes → List Permission → Type 0
Has type code t = ((code =ᵇ []) || has_typed type code t) ≡ true

-- A row of each kind that a policy asks for.
pub record Registered (p : Policy) (t : List Permission) : Type 0 where
  pub api_row :
      (p.is_public || (permission p =ᵇ []) || has_typed permission_type_api (permission p) t) ≡ true
  pub button_row :
      (p.is_public || (p.button =ᵇ []) || has_typed permission_type_button p.button t) ≡ true

module _ (F : Faults) where
  -- The ways in which ensurePermission ends.
  data Step (type code description group : Bytes) (t : List Permission) : Outcome → Type 0 where
    skipped : (code =ᵇ []) ≡ true → Step type code description group t (none, t)
    present :
        (code =ᵇ []) ≡ false
        → F.find_typed type code ≡ none
        → has_typed type code t ≡ true
        → Step type code description group t (none, t)
    created :
        (code =ᵇ []) ≡ false
        → F.find_typed type code ≡ none
        → Step type code description group t (none, t ++ new_row type code description group ∷ [])
    failed : (e : CatalogError) → Step type code description group t (some e, t)

  ensure_permission-Step :
      (type code description group : Bytes) (t : List Permission)
      → Step type code description group t (ensure_permission F type code description group t)
  unfolding ensure_permission
  ensure_permission-Step type code description group t = elim (Bool-cases (code =ᵇ [])) [
    | inl e ↦ subst S (ground (arith, e)) (skipped e)
    | inr e ↦ elim (Option-cases (F.find_typed type code)) [
      | inr (x, f) ↦ subst S (ground (arith, e, f)) (failed (lookup_failed code x))
      | inl f ↦ elim (Bool-cases (has_typed type code t)) [
        | inl h ↦ subst S (ground (arith, e, f, h)) (present e f h)
        | inr h ↦ elim (Option-cases (F.create (new_row type code description group))) [
          | inr (x, c) ↦ subst S (ground (arith, e, f, h, c)) (failed (create_failed code x))
          | inl c ↦ subst S (ground (arith, e, f, h, c)) (created e f)
        ]
      ]
    ]
  ]
    where
      S : Outcome → Type 0
      S = Step type code description group t

  has_typed-new_row :
      (type code description group : Bytes) (t : List Permission)
      → has_typed type code (t ++ new_row type code description group ∷ []) ≡ true
  has_typed-new_row type code description group t = ground (
    arith,
    any-append (is_typed type code) t (new_row type code description group ∷ []),
    =ᵇ_refl type,
    =ᵇ_refl code,
  )

  ensure_permission-again :
      (type code description group : Bytes) (t : List Permission)
      → (code =ᵇ []) ≡ false
      → F.find_typed type code ≡ none
      → has_typed type code t ≡ true
      → (more : List Permission)
      → Has type code (t ++ more)
        × (ensure_permission F type code description group (t ++ more) ≡ (none, t ++ more))
  unfolding ensure_permission
  ensure_permission-again type code description group t e f h more =
      let there : has_typed type code (t ++ more) ≡ true =
        ground (arith, any-append (is_typed type code) t more, h) in
      (ground (arith, there), ground (arith, e, f, there))

  ensure_permission-Ensures :
      (type code description group : Bytes) (t : List Permission) (o : Outcome)
      → ensure_permission F type code description group t ≡ o
      → Step type code description group t o
      → Ensures (ensure_permission F type code description group) (Has type code) t
  unfolding ensure_permission
  ensure_permission-Ensures type code description group t o q (skipped e) =
      done [] (q ∙ ap (λ (z : List Permission). (none, z)) (sym (append-nil t)))
        λ more. (ground (arith, e), ground (arith, e))
  ensure_permission-Ensures type code description group t o q (present e f h) =
      done [] (q ∙ ap (λ (z : List Permission). (none, z)) (sym (append-nil t))) (
        ensure_permission-again type code description group (t ++ []) e f
          (subst (λ z. has_typed type code z ≡ true) (sym (append-nil t)) h))
  ensure_permission-Ensures type code description group t o q (created e f) =
      done (new_row type code description group ∷ []) q (
        ensure_permission-again type code description group
          (t ++ new_row type code description group ∷ []) e f
          (has_typed-new_row type code description group t))
  ensure_permission-Ensures type code description group t o q (failed e) =
      broken [] e (q ∙ ap (λ (z : List Permission). (some e, z)) (sym (append-nil t)))

  pub ensure_permission-added :
      (type code description group : Bytes) (t : List Permission)
      → Ensures (ensure_permission F type code description group) (Has type code) t
  ensure_permission-added type code description group t =
      ensure_permission-Ensures type code description group t
        (ensure_permission F type code description group t) refl
        (ensure_permission-Step type code description group t)

  ensure_policy-added :
      (p : Policy) (t : List Permission) → Ensures (ensure_policy F p) (Registered p) t
  unfolding ensure_policy
  ensure_policy-added p t = elim (Bool-cases p.is_public) [
    | inl e ↦
        Ensures-nothing (ensure_policy F p) (Registered p) t (λ z. rw e refl)
          λ z. record { api_row = ground (arith, e); button_row = ground (arith, e) }
    | inr e ↦
        Ensures-same
          (λ z.
            and_then
              (ensure_permission F permission_type_api (permission p) p.description p.group z)
              (ensure_permission F permission_type_button p.button p.description p.group))
          (ensure_policy F p) _ (Registered p) t (λ z. rw e refl)
          (λ z (a, b). record { api_row = ground (arith, a); button_row = ground (arith, b) })
          (Ensures-and_then
            (ensure_permission F permission_type_api (permission p) p.description p.group)
            (ensure_permission F permission_type_button p.button p.description p.group)
            (Has permission_type_api (permission p)) (Has permission_type_button p.button) t
            (ensure_permission-added permission_type_api (permission p) p.description p.group t)
            (ensure_permission-added permission_type_button p.button p.description p.group))
  ]

  -- EnsureEndpointPermissions only adds rows at the end of the table. If it succeeds, every policy
  -- that is not public has a row for its route, unless it names no method or no path, and one for its
  -- button, unless it names none, also after more rows are added; and a call on such a table succeeds
  -- and changes nothing. A row that is deleted counts as one that is there.
  pub ensure_endpoint_permissions-Ensures :
      (policies : List Policy) (t : List Permission)
      → Ensures (ensure_endpoint_permissions F policies) (λ z. All (λ p. Registered p z) policies) t
  unfolding ensure_endpoint_permissions
  ensure_endpoint_permissions-Ensures [] t =
      Ensures-nothing (λ z. (none, z)) (λ z. Unit) t (λ z. refl) (λ z. tt)
  ensure_endpoint_permissions-Ensures (p ∷ policies) t =
      Ensures-and_then (ensure_policy F p) (ensure_endpoint_permissions F policies) (Registered p)
        (λ z. All (λ p. Registered p z) policies) t (ensure_policy-added p t)
        (ensure_endpoint_permissions-Ensures policies)
