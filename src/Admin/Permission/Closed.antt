-- ===== src/Admin/Permission/Closed.antt =====
-- That the checker of admin/permission.go is closed to what the tables do not grant, and that it does
-- not read the rows of other tenants.
use aeus.Common.{
  ℕ, Bytes, codes, true, false, List, [], ◌∷◌, if◌then◌else◌, ◌=ᵇ◌, =ᵇ_sound, none, some, Result,
  ok, err, Any, ◌≡◌, refl, sym, ap, subst, ◌∙◌, inl, inr, arith, Bool-cases, Result-cases,
}
use aeus.Admin.Permission.Checker.{
  Caller, Request, PermissionRow, GrantRow, Tables, CheckerConfig, permission_type_api,
  role_permission_type_permission, is_grant, member, path_match, is_infrastructure_path, route_of,
  code_of, load_catalog, load_grants, catalog_key, grant_key, Fetch, is_http, check_grant,
  check_catalog, check,
}
use aeus.Admin.Permission.Decision.{
  Allowed, other_protocol, infrastructure, public_route, uncatalogued, granted, check-none_iff,
}

-- An API row of the catalog, and a row that grants to the caller.
abbrev pub Catalogued : Bytes → PermissionRow → Type 0
Catalogued code row = (row.type ≡ permission_type_api) × (row.code ≡ code)

abbrev pub Grants : Caller → Bytes → GrantRow → Type 0
Grants c code row =
    (row.role_key ≡ c.role)
    × (row.tenant_id ≡ c.tenant_id)
    × (row.type ≡ role_permission_type_permission)
    × (row.code ≡ code)

member-load_catalog :
    (code : Bytes) (rows : List PermissionRow)
    → member code (load_catalog rows) ≡ true
    → Any (Catalogued code) rows
unfolding member load_catalog
member-load_catalog code [] h = cc
member-load_catalog code (row ∷ rows) h = elim (Bool-cases (row.type =ᵇ permission_type_api)) [
  | inr a ↦ inr (member-load_catalog code rows (ground (arith, a, h)))
  | inl a ↦ elim (Bool-cases (row.code =ᵇ code)) [
    | inl b ↦ inl (=ᵇ_sound _ _ a, =ᵇ_sound _ _ b)
    | inr b ↦ inr (member-load_catalog code rows (ground (arith, a, b, h)))
  ]
]

member-load_grants :
    (c : Caller) (code : Bytes) (rows : List GrantRow)
    → member code (load_grants c rows) ≡ true
    → Any (Grants c code) rows
unfolding member load_grants
member-load_grants c code [] h = cc
member-load_grants c code (row ∷ rows) h = elim (Bool-cases (is_grant c row)) [
  | inr a ↦ inr (member-load_grants c code rows (ground (arith, a, h)))
  | inl a ↦ elim (Bool-cases (row.code =ᵇ code)) [
    | inl b ↦ inl (
      =ᵇ_sound _ _ (ground (arith, a)),
      =ᵇ_sound _ _ (ground (arith, a)),
      =ᵇ_sound _ _ (ground (arith, a)),
      =ᵇ_sound _ _ b,
    )
    | inr b ↦ inr (member-load_grants c code rows (ground (arith, a, b, h)))
  ]
]

-- An HTTP request with claims, to a route that is neither infrastructure nor taken by the allowlist,
-- passes a checker that is not fail-open and whose caches are fresh only when sys_permissions has the
-- method and route as an API row and sys_role_permissions grants it to the caller's role on the
-- caller's tenant.
pub check-fails_closed :
    (cfg : CheckerConfig) (fetch : Fetch) (tables : Tables) (q : Request) (c : Caller)
    → ((key : Bytes) (loaded : List Bytes) → fetch key loaded ≡ ok loaded)
    → cfg.fail_open ≡ false
    → is_http q.protocol ≡ true
    → is_infrastructure_path (route_of q) ≡ false
    → path_match cfg.allowlist q.method q.path ≡ false
    → check cfg fetch tables q (some c) ≡ none
    → Any (Catalogued (code_of q)) tables.permissions × Any (Grants c (code_of q)) tables.grants
check-fails_closed cfg fetch tables q c fresh closed http business unlisted h =
    go ((check-none_iff cfg fetch tables q (some c)).0 h)
  where
    read :
        (key : Bytes) (loaded codes : List Bytes)
        → fetch key loaded ≡ ok codes
        → member (code_of q) codes ≡ true
        → member (code_of q) loaded ≡ true
    read key loaded codes p m = ground (arith, fresh key loaded, p, m)

    go :
        Allowed cfg fetch tables q (some c)
        → Any (Catalogued (code_of q)) tables.permissions × Any (Grants c (code_of q)) tables.grants
    go (other_protocol p) = absurd (ground (arith, p, http))
    go (infrastructure d k i) = absurd (ground (arith, i, business))
    go (public_route d k a) = absurd (ground (arith, a, unlisted))
    go (uncatalogued d codes k o p m) = absurd (ground (arith, o, closed))
    go (granted d codes grants k p m g held) = (
      member-load_catalog (code_of q) tables.permissions
          (read catalog_key (load_catalog tables.permissions) codes p m),
      member-load_grants c (code_of q) tables.grants (
          read (grant_key c) (load_grants c tables.grants) grants
            (subst (λ x. fetch (grant_key x) (load_grants x tables.grants) ≡ ok grants)
              (ground (arith, k)) g)
            held),
    )

-- The grants of one tenant.
unfoldable pub own_grants : Bytes → List GrantRow → List GrantRow
own_grants tenant_id [] = []
own_grants tenant_id (row ∷ rows) =
    if row.tenant_id =ᵇ tenant_id
    then row ∷ own_grants tenant_id rows
    else own_grants tenant_id rows

load_grants-own_grants :
    (c : Caller) (rows : List GrantRow)
    → load_grants c (own_grants c.tenant_id rows) ≡ load_grants c rows
unfolding load_grants own_grants
load_grants-own_grants c [] = refl
load_grants-own_grants c (row ∷ rows) = ground (arith, load_grants-own_grants c rows)

module _ (cfg : CheckerConfig) (fetch : Fetch) (tables tables' : Tables) (c : Caller) where
  check_grant-own_grants :
      (code : Bytes)
      → load_grants c tables.grants ≡ load_grants c tables'.grants
      → check_grant cfg fetch tables c code ≡ check_grant cfg fetch tables' c code
  unfolding check_grant
  check_grant-own_grants code g = rw (g, check_grant) refl

  check_catalog-own_grants :
      (code : Bytes)
      → tables.permissions ≡ tables'.permissions
      → load_grants c tables.grants ≡ load_grants c tables'.grants
      → check_catalog cfg fetch tables c code ≡ check_catalog cfg fetch tables' c code
  unfolding check_catalog
  check_catalog-own_grants code p g =
      elim (Result-cases (fetch catalog_key (load_catalog tables.permissions))) [
        | inl (e, r) ↦ ground (arith, r, other (err e) r)
        | inr (codes, r) ↦ ground (arith, r, other (ok codes) r, check_grant-own_grants code g)
      ]
    where
      other :
          (answer : Result ℕ (List Bytes))
          → fetch catalog_key (load_catalog tables.permissions) ≡ answer
          → fetch catalog_key (load_catalog tables'.permissions) ≡ answer
      other answer r = subst (λ rows. fetch catalog_key (load_catalog rows) ≡ answer) p r

  -- Two databases with the same catalog and the same grants of the caller's tenant give a request of
  -- the caller the same verdict: the grants of other tenants do not count.
  pub check-own_grants :
      (q : Request)
      → tables.permissions ≡ tables'.permissions
      → own_grants c.tenant_id tables.grants ≡ own_grants c.tenant_id tables'.grants
      → check cfg fetch tables q (some c) ≡ check cfg fetch tables' q (some c)
  unfolding check
  check-own_grants q p g = ground (arith, check_catalog-own_grants (code_of q) p same)
    where
      same : load_grants c tables.grants ≡ load_grants c tables'.grants
      same =
          sym (load_grants-own_grants c tables.grants)
          ∙ ap (load_grants c) g
          ∙ load_grants-own_grants c tables'.grants
