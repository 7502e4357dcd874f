-- ===== src/Tests/WorkerRuns.antt =====
-- Runs of the theorems on the migration to a dedicated database.
use crm_multi_tenant_saas_ar.Prelude.{
  ◌≡◌, refl, ap, ◌∙◌, filter, Bool, false, String, none, some, [], ◌∷◌, ◌<>◌, arith, ◌==◌, ◌&&◌,
  any, eqb, length, if◌then◌else◌, Bool-cases, inl, inr,
}
use crm_multi_tenant_saas_ar.Prelude.Dict.{insert, lookup, remove}
use crm_multi_tenant_saas_ar.Prelude.Member.{All-In}
use crm_multi_tenant_saas_ar.Dal.Quota.{no_slots}
use crm_multi_tenant_saas_ar.Dal.Pool.{Pool, Registry, register_vip_pool, build_pool, take_chars}
use crm_multi_tenant_saas_ar.Gateway.Resolver.{TenantRow}
use crm_multi_tenant_saas_ar.Workers.Columns.{dedicated_columns, shared_columns, fits_shared}
use crm_multi_tenant_saas_ar.Workers.VipMigration.{
  Row, Tables, Site, JobData, Stage, Scan, copy_data, failed, process, plugin_tables, counts_match,
  rows_of, update_rows,
}
use crm_multi_tenant_saas_ar.Workers.VipMigration.Outcome.{
  Migrated, RolledBack, find_row, process-Migrated,
}
use crm_multi_tenant_saas_ar.Workers.VipMigration.Whole.{has_rows}
use crm_multi_tenant_saas_ar.Workers.VipMigration.Schema.{process-rolled_back}
use crm_multi_tenant_saas_ar.Workers.VipDecommission.{
  Answers, DecommissionJobData, no_fault, decommissioned, decommission, copy_all, copy_back,
  insert_all, insert_missing, check_counts, hand_over, release_tenant, end_pool, enter_quota,
  mark_registry, drop_dedicated,
}
use crm_multi_tenant_saas_ar.Workers.VipDecommission.Restore.{table_of-insert}
use crm_multi_tenant_saas_ar.Workers.VipDecommission.Ends.{Fuelled}
use crm_multi_tenant_saas_ar.Workers.VipDecommission.Outcome.{Unlost, decommission-Unlost}
use crm_multi_tenant_saas_ar.Workers.HardDelete.{Stock, qualifies, hard_delete}
use crm_multi_tenant_saas_ar.Workers.HardDelete.Purged.{Purged, Untouched, hard_delete-Purged}
use crm_multi_tenant_saas_ar.Tests.Samples.{id_a, id_b, id_a-is_uuid}

abbrev row_of : String → String → Row
row_of id k = record { tenant_id = id; key = k }

-- Two rows of the tenant and one of another.
abbrev shared : Tables
shared = ("customers", row_of id_a "c1" ∷ row_of id_b "c2" ∷ row_of id_a "c3" ∷ []) ∷ []

-- The row as a change to the plan vip leaves it.
abbrev closed_row : TenantRow
closed_row = record {
  id = id_a;
  name = "Acme";
  subdomain = some "acme";
  tier = "vip";
  status = "migrating";
  db_url = none;
  is_active = false;
  allowed_origins = none;
}

abbrev pool : Pool
pool = record { connection_string = "postgres://db/crm"; max = 20; name = "shared" }

abbrev pools : Registry
pools = record { shared_pool = pool; metadata_pool = pool; vip_pools = [] }

abbrev site : Site
site = record {
  tenants = closed_row ∷ [];
  vip_db_registry = [];
  shared = shared;
  databases = [];
  pools = pools;
  slots = no_slots;
  cleanups = [];
}

abbrev job : JobData
job = record { tenant_id = id_a; slug = "acme"; current_tier = "premium" }

abbrev url : String
url = "postgres://db/crm_vip_acme"

abbrev vip_pools : Registry
vip_pools = record pools {
  vip_pools = insert id_a (build_pool url 30 ("vip:" <> take_chars 8 id_a)) [];
}

pool_registered : register_vip_pool id_a url pools ≡ some vip_pools
unfolding register_vip_pool lookup
pool_registered = rw id_a-is_uuid refl

abbrev nothing_fails : Stage → Bool
nothing_fails _ = false

-- A table that is read in its own order.
abbrev in_order : Scan
in_order table offset rows = rows

-- The other tenant's row alone.
abbrev shared_b : Tables
shared_b = ("customers", row_of id_b "c2" ∷ []) ∷ []

no_rows : (t : String) → rows_of id_a t shared_b ≡ []
unfolding rows_of insert lookup
no_rows t =
    ap (λ rows. filter (λ r. r.tenant_id == id_a) rows)
      (table_of-insert t "customers" (row_of id_b "c2" ∷ []) [])
    ∙ elim (Bool-cases ("customers" == t)) [ inl e ↦ rw e refl | inr e ↦ rw e refl ]

abbrev site_b : Site
site_b = record site { shared = shared_b }

process-Migrated_example :
    if has_rows id_a plugin_tables shared_b
    then RolledBack job site_b closed_row (process nothing_fails in_order 1 url job site_b)
    else Migrated url job site_b closed_row (process nothing_fails in_order 1 url job site_b)
process-Migrated_example =
    process-Migrated nothing_fails in_order 1 url job site_b vip_pools closed_row
      (λ table offset rows. refl) (omega arith) pool_registered refl (λ _. refl)

-- The tenant has its own database, with two cases that the shared one lacks.
abbrev dedicated : Tables
dedicated =
    ("customers", [])
    ∷ ("support_cases", row_of id_a "k1" ∷ row_of id_a "k2" ∷ [])
    ∷ ("automation_triggers", [])
    ∷ ("marketing_campaigns", [])
    ∷ []

abbrev vip_site : Site
vip_site = record site_b {
  tenants = record closed_row { db_url = some url } ∷ [];
  databases = ("crm_vip_acme", dedicated) ∷ [];
  pools = vip_pools;
}

abbrev back : DecommissionJobData
back = record { tenant_id = id_a; slug = "acme"; new_tier = "premium" }

abbrev answers : Answers
answers = record {
  scan = in_order;
  select_throws = λ table offset. false;
  insert_throws = λ table r. false;
}

there : lookup "crm_vip_acme" vip_site.databases ≡ some dedicated
unfolding lookup
there = refl

fuelled : Fuelled 3 id_a plugin_tables dedicated
unfolding rows_of lookup
fuelled = (omega arith, (omega arith, (omega arith, (omega arith, tt))))

decommission-Unlost_example :
    Unlost back dedicated vip_site (decommission answers 3 no_fault 7 back vip_site)
decommission-Unlost_example =
    decommission-Unlost answers 3 no_fault 7 back dedicated vip_site
      (λ table offset rows. (refl, All-In rows (λ r i. i))) there fuelled no_rows

-- This run goes through: the cases are in the shared table, and the dedicated database is gone.
came_back :
    let r = decommission answers 3 no_fault 7 back vip_site in
    (r.1 ≡ decommissioned)
    × (rows_of id_a "support_cases" r.0.shared ≡ row_of id_a "k1" ∷ row_of id_a "k2" ∷ [])
    × (r.0.databases ≡ [])
unfolding decommission copy_all copy_back insert_all insert_missing check_counts counts_match
    hand_over release_tenant end_pool enter_quota mark_registry drop_dedicated update_rows rows_of
    lookup insert remove fits_shared dedicated_columns shared_columns
came_back = (refl, refl, refl)

two_customers : eqb (length (rows_of id_a "customers" shared)) 0 ≡ false
unfolding rows_of lookup
two_customers = refl

process-rolled_back_example :
    let r = process nothing_fails in_order 1 url job site in
    (r.1 ≡ failed copy_data)
    × (find_row id_a r.0.tenants ≡ some (record closed_row { status = "active"; tier = "premium" }))
    × (lookup ("crm_vip_" <> "acme") r.0.databases ≡ none)
process-rolled_back_example =
    process-rolled_back nothing_fails in_order 1 url "customers" job site closed_row
      (λ table offset rows. refl) (omega arith) refl refl (inl refl) two_customers refl

abbrev stock : Stock
stock = record {
  tenants =
      record { id = id_a; status = "offboarded"; offboarded_at = some 0 }
      ∷ (record { id = id_b; status = "active"; offboarded_at = none } ∷ []);
  tables = shared;
}

-- The other tenant's DELETEs throw.
abbrev refuses : String → String → Bool
refuses id table = id == id_b

hard_delete-Purged_example :
    if any (λ t. qualifies 7776000001 t && (t.id == id_a)) stock.tenants
    then Purged id_a (hard_delete refuses 7776000001 stock)
    else Untouched id_a stock (hard_delete refuses 7776000001 stock)
hard_delete-Purged_example = hard_delete-Purged refuses 7776000001 id_a stock (λ t. refl)
