-- ===== src/Admin/TenantScope.antt =====
-- The callbacks that `installTenantScope` of admin/tenant_scope.go registers, as filters of rows. The
-- schema's tenant_id column is a function `tenant_of` of the row; a table without the column, such as
-- sys_menus, is used without these functions.
use aeus.Common.{
  Bytes, Bool, true, false, not, ◌&&◌, ◌||◌, List, [], ◌∷◌, ◌++◌, if◌then◌else◌, ◌=ᵇ◌, Option, none,
  some, ◌≡◌, refl, arith,
}

-- The context of an operation: whether the callbacks are installed, WithoutTenant, and what the
-- resolver gives.
pub record Scope : Type 0 where
  pub installed : Bool
  pub bypassed : Bool
  pub resolved : Bytes

-- `WithoutTenant`.
abbrev pub without_tenant : Scope → Scope
without_tenant sc = record sc { bypassed = true }

-- The tenant that the callbacks impose, if any.
unfoldable pub tenant_clause : Scope → Option Bytes
tenant_clause sc =
    if not sc.installed || sc.bypassed
    then none
    else if sc.resolved =ᵇ []
    then none
    else some sc.resolved

abbrev pub in_clause : Option Bytes → Bytes → Bool
in_clause none tenant_id = true
in_clause (some tid) tenant_id = tenant_id =ᵇ tid

-- The condition that `applyTenantScope` adds to a query, an update or a delete.
unfoldable pub in_scope : Scope → Bytes → Bool
in_scope sc tenant_id = in_clause (tenant_clause sc) tenant_id

-- The tenant of a new row: `setTenantID` forces it where a tenant is imposed.
unfoldable pub forced_tenant : Scope → Bytes → Bytes
forced_tenant sc tenant_id = elim (tenant_clause sc) [ none ↦ tenant_id | some tid ↦ tid ]

module _ {A : Type 0} (tenant_of : A → Bytes) (sc : Scope) where
  -- The rows that a query with this condition reads.
  unfoldable pub query : (A → Bool) → List A → List A
  query where_clause [] = []
  query where_clause (row ∷ rows) =
      if in_scope sc (tenant_of row) && where_clause row
      then row ∷ query where_clause rows
      else query where_clause rows

  -- The rows that a delete with this condition leaves.
  unfoldable pub delete : (A → Bool) → List A → List A
  delete where_clause [] = []
  delete where_clause (row ∷ rows) =
      if in_scope sc (tenant_of row) && where_clause row
      then delete where_clause rows
      else row ∷ delete where_clause rows

  -- What a query reads from two tables.
  pub query-append : (q : A → Bool) (xs ys : List A) → query q (xs ++ ys) ≡ query q xs ++ query q ys
  unfolding query
  query-append q [] ys = refl
  query-append q (row ∷ rows) ys = ground (arith, query-append q rows ys)

module _ {A : Type 0} (tenant_of : A → Bytes) (sc sc' : Scope) where
  -- A delete keeps the rows that a query reads which never meets the delete's condition.
  pub query-delete :
      (p q : A → Bool) (rows : List A)
      → ((row : A)
          → (in_scope sc' (tenant_of row) && q row) ≡ true
          → (in_scope sc (tenant_of row) && p row) ≡ false)
      → query tenant_of sc' q (delete tenant_of sc p rows) ≡ query tenant_of sc' q rows
  unfolding query delete
  query-delete p q [] apart = refl
  query-delete p q (row ∷ rows) apart = ground (arith, apart row, query-delete p q rows apart)
