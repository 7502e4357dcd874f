-- ===== src/Workers/HardDelete.antt =====
-- `hardDeleteOffboardedTenants` of backend/src/workers/scheduler/cron.service.ts: closed tenants are
-- deleted for good.
pub mod Purged
use crm_multi_tenant_saas_ar.Prelude.{
  ℕ, ◌+◌, ◌*◌, Bool, true, false, not, ◌&&◌, String, Option, none, some, List, [], ◌∷◌, ◌==◌, ltb,
  map, filter, if◌then◌else◌,
}
use crm_multi_tenant_saas_ar.Workers.VipMigration.{Tables}
use crm_multi_tenant_saas_ar.Workers.VipDecommission.{delete_rows}

-- Of a row of `tenants`, what the job reads.
pub record ClosedTenant : Type 0 where
  pub id : String
  pub status : String
  pub offboarded_at : Option ℕ

-- The table `tenants`, and the tables with a column `tenant_id`.
pub record Stock : Type 0 where
  pub tenants : List ClosedTenant
  pub tables : Tables

abbrev pub retention_ms : ℕ
retention_ms = 90 * 24 * 60 * 60 * 1000

abbrev pub is_due : ℕ → Option ℕ → Bool
is_due now none = false
is_due now (some t) = ltb (t + retention_ms) now

-- The condition of the query.
abbrev pub qualifies : ℕ → ClosedTenant → Bool
qualifies now t = t.status == "offboarded" && is_due now t.offboarded_at

-- The tables that are emptied, in this order; not `audit_logs`.
abbrev pub owned_tables : List String
owned_tables =
    "marketing_campaigns" ∷ "automation_triggers" ∷ "support_cases" ∷ "customers" ∷ "refresh_tokens"
    ∷ "user_roles" ∷ "users" ∷ "roles" ∷ "tenant_plugins" ∷ []

-- `fails id table` tells whether the DELETE of the tenant's rows in the table throws.
module _ (fails : String → String → Bool) where
  -- Each DELETE is a transaction of its own; with whether all of them have succeeded.
  unfoldable pub delete_tables : String → List String → Tables → Tables × Bool
  unfolding delete_rows
  delete_tables id [] tables = (tables, true)
  delete_tables id (table ∷ rest) tables =
      if fails id table
      then (tables, false)
      else delete_tables id rest (delete_rows id table tables)

  -- The body of the loop. What a tenant's DELETE throws is caught.
  unfoldable pub delete_tenant : String → Stock → Stock
  unfolding delete_tables
  delete_tenant id s =
      let r = delete_tables id owned_tables s.tables in
      record {
        tenants =
            if r.1 && not (fails id "tenants")
            then filter (λ t. not (t.id == id)) s.tenants
            else s.tenants;
        tables = r.0;
      }

  unfoldable pub delete_each : List String → Stock → Stock
  unfolding delete_tenant
  delete_each [] s = s
  delete_each (id ∷ ids) s = delete_each ids (delete_tenant id s)

  unfoldable pub hard_delete : ℕ → Stock → Stock
  unfolding delete_each
  hard_delete now s = delete_each (map (λ t. t.id) (filter (qualifies now) s.tenants)) s
