-- ===== src/Admin/Permission/Decision.antt =====
-- Which requests the checker of admin/permission.go lets through.
use aeus.Common.{
  ℕ, Bytes, codes, Bool, true, false, ◌&&◌, ◌||◌, List, [], ◌∷◌, ◌=ᵇ◌, Option, none, some, ok, err,
  any, ◌≡◌, ◌↔◌, inl, inr, arith, Bool-cases, Option-cases, Result-cases,
}
use aeus.Auth.Allow.{match_pattern}
use aeus.Admin.Permission.Checker.{
  Caller, Request, Tables, AllowEntry, CheckerConfig, member, match_from, path_match,
  is_infrastructure_path, route_of, code_of, load_catalog, load_grants, catalog_key, grant_key,
  Fetch, is_http, check_grant, check_catalog, check,
}

-- An entry of the allowlist takes the request.
abbrev pub takes : Bytes → Bytes → AllowEntry → Bool
takes method path e = ((e.method =ᵇ []) || (e.method =ᵇ method)) && match_pattern e.pattern path

match_from-hit :
    (m : List AllowEntry) (hit : Bool) (method path : Bytes)
    → match_from hit m method path ≡ (hit || any (takes method path) m)
unfolding match_from
match_from-hit [] hit method path = ground arith
match_from-hit (e ∷ m) hit method path =
    ground (arith, match_from-hit m hit method path, match_from-hit m true method path)

-- The allowlist takes a request exactly when one of its entries does, whatever their order.
pub path_match-any :
    (m : List AllowEntry) (method path : Bytes)
    → path_match m method path ≡ any (takes method path) m
path_match-any m method path = ground (arith, match_from-hit m false method path)

module _ (cfg : CheckerConfig) (fetch : Fetch) (tables : Tables) where
  -- The reasons for which a request passes.
  pub data Allowed (q : Request) (claims : Option Caller) : Type 0 where
    other_protocol : is_http q.protocol ≡ false → Allowed q claims
    infrastructure :
        (c : Caller)
        → claims ≡ some c
        → is_infrastructure_path (route_of q) ≡ true
        → Allowed q claims
    public_route :
        (c : Caller)
        → claims ≡ some c
        → path_match cfg.allowlist q.method q.path ≡ true
        → Allowed q claims
    uncatalogued :
        (c : Caller) (codes : List Bytes)
        → claims ≡ some c
        → cfg.fail_open ≡ true
        → fetch catalog_key (load_catalog tables.permissions) ≡ ok codes
        → member (code_of q) codes ≡ false
        → Allowed q claims
    granted :
        (c : Caller) (codes grants : List Bytes)
        → claims ≡ some c
        → fetch catalog_key (load_catalog tables.permissions) ≡ ok codes
        → member (code_of q) codes ≡ true
        → fetch (grant_key c) (load_grants c tables.grants) ≡ ok grants
        → member (code_of q) grants ≡ true
        → Allowed q claims

  check_grant-eq-none :
      (c : Caller) (code : Bytes)
      → check_grant cfg fetch tables c code ≡ none
      → (grants : List Bytes) × (fetch (grant_key c) (load_grants c tables.grants) ≡ ok grants)
        × (member code grants ≡ true)
  unfolding check_grant
  check_grant-eq-none c code h =
      elim (Result-cases (fetch (grant_key c) (load_grants c tables.grants))) [
        | inl (e, p) ↦ absurd (failed e p)
        | inr (grants, p) ↦ (grants, p, held grants p)
      ]
    where
      failed : (e : ℕ) → fetch (grant_key c) (load_grants c tables.grants) ≡ err e → ⊥
      failed e p = ground (arith, p, h)

      held :
          (grants : List Bytes)
          → fetch (grant_key c) (load_grants c tables.grants) ≡ ok grants
          → member code grants ≡ true
      held grants p = ground (arith, p, h)

  check_catalog-Allowed :
      (q : Request) (claims : Option Caller) (c : Caller)
      → claims ≡ some c
      → check_catalog cfg fetch tables c (code_of q) ≡ none
      → Allowed q claims
  unfolding check_catalog
  check_catalog-Allowed q claims c k h =
      elim (Result-cases (fetch catalog_key (load_catalog tables.permissions))) [
        | inl (e, p) ↦ absurd (failed e p)
        | inr (codes, p) ↦ elim (Bool-cases (member (code_of q) codes)) [
          | inl m ↦
              let (grants, g, held) = check_grant-eq-none c (code_of q) (catalogued codes p m) in
              granted c codes grants k p m g held
          | inr m ↦ uncatalogued c codes k (opened codes p m) p m
        ]
      ]
    where
      failed : (e : ℕ) → fetch catalog_key (load_catalog tables.permissions) ≡ err e → ⊥
      failed e p = ground (arith, p, h)

      catalogued :
          (codes : List Bytes)
          → fetch catalog_key (load_catalog tables.permissions) ≡ ok codes
          → member (code_of q) codes ≡ true
          → check_grant cfg fetch tables c (code_of q) ≡ none
      catalogued codes p m = ground (arith, p, m, h)

      opened :
          (codes : List Bytes)
          → fetch catalog_key (load_catalog tables.permissions) ≡ ok codes
          → member (code_of q) codes ≡ false
          → cfg.fail_open ≡ true
      opened codes p m = ground (arith, p, m, h)

  check-Allowed :
      (q : Request) (claims : Option Caller)
      → check cfg fetch tables q claims ≡ none
      → Allowed q claims
  unfolding check
  check-Allowed q claims h = elim (Bool-cases (is_http q.protocol)) [
    | inr p ↦ other_protocol p
    | inl p ↦ elim (Option-cases claims) [
      | inl k ↦ absurd (unclaimed p k)
      | inr (c, k) ↦ elim (Bool-cases (is_infrastructure_path (route_of q))) [
        | inl i ↦ infrastructure c k i
        | inr i ↦ elim (Bool-cases (path_match cfg.allowlist q.method q.path)) [
          | inl a ↦ public_route c k a
          | inr a ↦ check_catalog-Allowed q claims c k (catalogued p c k i a)
        ]
      ]
    ]
  ]
    where
      unclaimed : is_http q.protocol ≡ true → claims ≡ none → ⊥
      unclaimed p k = ground (arith, p, k, h)

      catalogued :
          is_http q.protocol ≡ true
          → (c : Caller) → claims ≡ some c
          → is_infrastructure_path (route_of q) ≡ false
          → path_match cfg.allowlist q.method q.path ≡ false
          → check_catalog cfg fetch tables c (code_of q) ≡ none
      catalogued p c k i a = ground (arith, p, k, i, a, h)

  Allowed-check :
      (q : Request) (claims : Option Caller)
      → Allowed q claims
      → check cfg fetch tables q claims ≡ none
  unfolding check check_catalog check_grant
  Allowed-check q claims (other_protocol p) = ground (arith, p)
  Allowed-check q claims (infrastructure c k i) = ground (arith, k, i)
  Allowed-check q claims (public_route c k a) = ground (arith, k, a)
  Allowed-check q claims (uncatalogued c codes k o p m) = ground (arith, k, o, p, m)
  Allowed-check q claims (granted c codes grants k p m g held) = ground (arith, k, p, m, g, held)

  -- The checker lets a request pass exactly for one of five reasons: it is not an HTTP request; or it
  -- has claims of the expected type, and its route is infrastructure, or the allowlist takes it, or
  -- the checker is fail-open and the catalog lacks the route, or the catalog has the route and the
  -- grants of the role on the tenant have it too.
  pub check-none_iff :
      (q : Request) (claims : Option Caller)
      → (check cfg fetch tables q claims ≡ none) ↔ Allowed q claims
  check-none_iff q claims = (check-Allowed q claims, Allowed-check q claims)
