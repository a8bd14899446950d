-- ===== src/Admin/Catalog/Enforced.antt =====
-- The permission checker of admin/permission.go on a route that EnsureEndpointPermissions has registered.
use aeus.Common.{
  Bytes, true, false, List, [], ◌∷◌, ◌++◌, if◌then◌else◌, ◌=ᵇ◌, none, some, ok, ◌≡◌, sym, ap, ◌∙◌,
  subst, arith, All, append-nil, Bool-cases, inl, inr,
}
use aeus.Admin.Permission.Checker.{
  Caller, Request, GrantRow, Tables, CheckerConfig, Denial, permission_type_api, member, path_match,
  is_infrastructure_path, route_of, code_of, load_catalog, load_grants, catalog_key, grant_key,
  Fetch, is_http, check_grant, check_catalog, check,
}
use aeus.Admin.Catalog.Defs.{
  Permission, Policy, permission, CatalogError, Faults, Outcome, is_typed, has_typed,
  ensure_endpoint_permissions, live_rows,
}
use aeus.Admin.Catalog.Ensures.{done, broken}
use aeus.Admin.Catalog.Registered.{Registered, ensure_endpoint_permissions-Ensures}

-- No row of that type and code is deleted.
abbrev pub Undeleted : Bytes → Bytes → List Permission → Type 0
Undeleted type code = All (λ r. is_typed type code r ≡ true → r.deleted ≡ false)

member-load_catalog :
    (code : Bytes) (t : List Permission)
    → has_typed permission_type_api code t ≡ true
    → Undeleted permission_type_api code t
    → member code (load_catalog (live_rows t)) ≡ true
unfolding live_rows load_catalog member
member-load_catalog code [] h u = cc
member-load_catalog code (r ∷ t) h (live, u) =
    elim (Bool-cases (is_typed permission_type_api code r)) [
      | inl e ↦ ground (arith, e, live e)
      | inr e ↦ ground (arith, e, member-load_catalog code t (ground (arith, e, h)) u)
    ]

All-middle :
    {A : Type 0} (P : A → Type 0) (before after : List A) (x : A)
    → All P (before ++ x ∷ after)
    → P x
All-middle P [] after x (p, _) = p
All-middle P (y ∷ before) after x (_, a) = All-middle P before after x a

-- The caches answer what the database holds.
abbrev pub Fresh : Fetch → Type 0
Fresh fetch = (key : Bytes) (values : List Bytes) → fetch key values ≡ ok values

registered_api :
    (F : Faults) (before after : List Policy) (p : Policy) (t t' : List Permission)
    → ensure_endpoint_permissions F (before ++ p ∷ after) t ≡ (none, t')
    → p.is_public ≡ false
    → (permission p =ᵇ []) ≡ false
    → has_typed permission_type_api (permission p) t' ≡ true
registered_api F before after p t t' run closed named =
    elim (ensure_endpoint_permissions-Ensures F (before ++ p ∷ after) t) [
      | broken added e q ↦ absurd (some_none e added (sym q ∙ run))
      | done added q k ↦
          let whole : t ++ added ≡ t' = ap (λ (z : Outcome). z.1) (sym q ∙ run) in
          let r : Registered p t' =
            subst (Registered p) (append-nil (t ++ added) ∙ whole)
              (All-middle (λ p. Registered p ((t ++ added) ++ [])) before after p (k []).0) in
          ground (arith, r.api_row, closed, named)
    ]
  where
    some_none :
        (e : CatalogError) (added : List Permission)
        → ◌≡◌ {A = Outcome} (some e, t ++ added) (none, t')
        → ⊥
    some_none e added h = ground (arith, ap (λ (z : Outcome). z.0) h)

check_catalog-catalogued :
    (cfg : CheckerConfig) (fetch : Fetch) (tables : Tables) (c : Caller) (code : Bytes)
    → Fresh fetch
    → member code (load_catalog tables.permissions) ≡ true
    → check_catalog cfg fetch tables c code
      ≡ (if member code (load_grants c tables.grants) then none else some Denial.permission_denied)
unfolding check_catalog check_grant
check_catalog-catalogued cfg fetch tables c code fresh m = ground (
  arith,
  fresh catalog_key (load_catalog tables.permissions),
  fresh (grant_key c) (load_grants c tables.grants),
  m,
)

-- On the route of a policy that is not public, names a method and a path, and is among those that
-- EnsureEndpointPermissions has registered without an error, the checker of HTTP requests goes by the
-- caller's grants alone, also where it is set to let uncatalogued routes through: it passes a request
-- that is neither infrastructure nor in the allowlist exactly if the caller has the policy's code.
-- The caches answer what the database holds, and the route's row has not been deleted.
pub check-ensure_endpoint_permissions :
    (F : Faults) (before after : List Policy) (p : Policy) (t t' : List Permission)
    (grants : List GrantRow) (cfg : CheckerConfig) (fetch : Fetch) (q : Request) (c : Caller)
    → ensure_endpoint_permissions F (before ++ p ∷ after) t ≡ (none, t')
    → p.is_public ≡ false
    → (permission p =ᵇ []) ≡ false
    → Undeleted permission_type_api (permission p) t'
    → Fresh fetch
    → is_http q.protocol ≡ true
    → code_of q ≡ permission p
    → is_infrastructure_path (route_of q) ≡ false
    → path_match cfg.allowlist q.method q.path ≡ false
    → check cfg fetch (record { permissions = live_rows t'; grants = grants }) q (some c) ≡ (
        if member (permission p) (load_grants c grants)
        then none
        else some Denial.permission_denied)
unfolding check
check-ensure_endpoint_permissions F before after p t t' grants cfg fetch q c run closed named live
      fresh http route business listed =
    rw (http, business, listed, route)
      (check_catalog-catalogued cfg fetch (record { permissions = live_rows t'; grants = grants }) c
        (permission p) fresh catalogued)
  where
    catalogued : member (permission p) (load_catalog (live_rows t')) ≡ true
    catalogued =
        member-load_catalog (permission p) t'
          (registered_api F before after p t t' run closed named) live
