-- ===== src/Workers/VipMigration/Schema.antt =====
-- The columns that a migration needs and does not make.
use crm_multi_tenant_saas_ar.Prelude.{
  ℕ, ◌≡◌, ◌<◌, refl, Bool, true, false, String, none, some, ◌<>◌, arith, eqb, length, inl, inr,
}
use crm_multi_tenant_saas_ar.Prelude.Dict.{lookup}
use crm_multi_tenant_saas_ar.Prelude.Member.{In}
use crm_multi_tenant_saas_ar.Gateway.Resolver.{TenantRow}
use crm_multi_tenant_saas_ar.Workers.VipMigration.{
  Tables, Site, JobData, Stage, Scan, create_database, create_schema, copy_data, failed,
  plugin_tables, rows_of, process,
}
use crm_multi_tenant_saas_ar.Workers.VipMigration.Outcome.{find_row, process-RolledBack}
use crm_multi_tenant_saas_ar.Workers.VipMigration.Whole.{Counts, has_rows}

has_rows-of_row :
    (tenant_id table : String) (shared : Tables)
    → In table plugin_tables
    → eqb (length (rows_of tenant_id table shared)) 0 ≡ false
    → has_rows tenant_id plugin_tables shared ≡ true
has_rows-of_row tenant_id table shared (inl e) h = rw (e, h) refl
has_rows-of_row tenant_id table shared (inr (inl e)) h = rw (e, h) (ground arith)
has_rows-of_row tenant_id table shared (inr (inr (inl e))) h = rw (e, h) (ground arith)
has_rows-of_row tenant_id table shared (inr (inr (inr (inl e)))) h = rw (e, h) (ground arith)
has_rows-of_row tenant_id table shared (inr (inr (inr (inr i)))) h = absurd i

-- No tenant that has a row in one of the four shared tables can be migrated, in whatever order they
-- are read: once the database and its schema are made the copy throws, at a column that the dedicated
-- table does not have if at nothing else; the tenant's status is active again in the tier it had, and
-- the dedicated database is gone.
pub process-rolled_back :
    (fails : Stage → Bool) (scan : Scan) (fuel : ℕ) (url table : String) (job : JobData) (s : Site)
    (row : TenantRow)
    → Counts scan
    → 0 < fuel
    → fails create_database ≡ false
    → fails create_schema ≡ false
    → In table plugin_tables
    → eqb (length (rows_of job.tenant_id table s.shared)) 0 ≡ false
    → find_row job.tenant_id s.tenants ≡ some row
    → let r = process fails scan fuel url job s in
      (r.1 ≡ failed copy_data)
      × (find_row job.tenant_id r.0.tenants
          ≡ some (record row { status = "active"; tier = job.current_tier }))
      × (lookup ("crm_vip_" <> job.slug) r.0.databases ≡ none)
process-rolled_back fails scan fuel url table job s row counts some_fuel a b listed some_row h =
    let some_there = has_rows-of_row job.tenant_id table s.shared listed some_row in
    let done = process-RolledBack fails scan fuel url job s row counts some_fuel some_there h a b in
    (done.0, done.1, done.2)
