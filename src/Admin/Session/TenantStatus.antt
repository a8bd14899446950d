-- ===== src/Admin/Session/TenantStatus.antt =====
-- What the status that `resolveTenant` of admin/service/auth.go gives says of the row of the tenant.
use aeus.Common.{
  ℕ, Bytes, true, false, [], ◌=ᵇ◌, none, some, ◌≡◌, inl, inr, arith, Bool-cases, Option-cases,
}
use aeus.Admin.Session.Model.{disabled, Tenant, scan_tenant, Db, first}
use aeus.Admin.Session.Login.{resolve_tenant}

-- What lets a user of a tenant in: a row that is not disabled, and whatever keeps the row from being
-- read.
pub data TenantOpen (db : Db) (tenant_id : Bytes) : Type 0 where
  no_tenant : (tenant_id =ᵇ []) ≡ true → TenantOpen db tenant_id
  no_table : db.has_tenants ≡ false → TenantOpen db tenant_id
  unread : (n : ℕ) → db.failure scan_tenant ≡ some n → TenantOpen db tenant_id
  no_row : first (λ t. t.id =ᵇ tenant_id) db.tenants ≡ none → TenantOpen db tenant_id
  unnamed :
      (row : Tenant)
      → first (λ t. t.id =ᵇ tenant_id) db.tenants ≡ some row
      → (row.name =ᵇ []) ≡ true
      → TenantOpen db tenant_id
  not_disabled :
      (row : Tenant)
      → first (λ t. t.id =ᵇ tenant_id) db.tenants ≡ some row
      → (row.status =ᵇ disabled) ≡ false
      → TenantOpen db tenant_id

pub resolve_tenant-TenantOpen :
    (db : Db) (tenant_id : Bytes)
    → ((resolve_tenant db tenant_id).1 =ᵇ disabled) ≡ false
    → TenantOpen db tenant_id
unfolding resolve_tenant
resolve_tenant-TenantOpen db tenant_id h = elim (Bool-cases (tenant_id =ᵇ [])) [
  | inl e ↦ no_tenant e
  | inr e ↦ elim (Bool-cases db.has_tenants) [
    | inr t ↦ no_table t
    | inl t ↦ elim (Option-cases (db.failure scan_tenant)) [
      | inr (n, f) ↦ unread n f
      | inl f ↦ elim (Option-cases (first (λ t. t.id =ᵇ tenant_id) db.tenants)) [
        | inl m ↦ no_row m
        | inr (row, m) ↦ elim (Bool-cases (row.name =ᵇ [])) [
          | inl n ↦ unnamed row m n
          | inr n ↦ not_disabled row m (ground (arith, e, t, f, m, n, h))
        ]
      ]
    ]
  ]
]
