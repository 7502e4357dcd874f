-- ===== src/Workers/VipMigration.antt =====
-- backend/src/workers/bullmq/processors/vip-migration.processor.ts: a tenant moves to a database of
-- its own.
pub mod Copy
pub mod Whole
pub mod Outcome
pub mod Schema
use crm_multi_tenant_saas_ar.Prelude.{
  ℕ, zero, suc, ◌+◌, Bool, true, false, not, ◌&&◌, String, Option, none, some, List, [], ◌∷◌, ◌++◌,
  ◌==◌, ◌<>◌, ltb, eqb, map, filter, take, drop, length, if◌then◌else◌,
}
use crm_multi_tenant_saas_ar.Prelude.Dict.{Dict, lookup, insert, remove}
use crm_multi_tenant_saas_ar.Dal.Quota.{Slots, deregister, register}
use crm_multi_tenant_saas_ar.Dal.Pool.{Registry, register_vip_pool}
use crm_multi_tenant_saas_ar.Gateway.Resolver.{TenantRow}
use crm_multi_tenant_saas_ar.Workers.Columns.{fits_dedicated, Copied, ended, threw_at, out_of_fuel}

-- A row of a plugin's table; of its columns the tenant and the key.
pub record Row : Type 0 where
  pub tenant_id : String
  pub key : String

-- The tables of a database.
abbrev pub Tables : Type 0
Tables = Dict (List Row)

pub record RegistryRow : Type 0 where
  pub tenant_id : String
  pub db_name : String
  pub db_url : String
  pub decommissioned_at : Option ℕ

pub record Site : Type 0 where
  pub tenants : List TenantRow
  pub vip_db_registry : List RegistryRow
  pub shared : Tables
  pub databases : Dict Tables
  pub pools : Registry
  pub slots : Slots
  -- The cleanup jobs: tenant and slug.
  pub cleanups : List (String × String)

pub record JobData : Type 0 where
  pub tenant_id : String
  pub slug : String
  pub current_tier : String

-- Where an `await` may throw.
pub data Stage : Type 0 where
  create_database create_schema copy_data insert_registry commit add_cleanup : Stage

abbrev pub plugin_tables : List String
plugin_tables = "customers" ∷ "support_cases" ∷ "automation_triggers" ∷ "marketing_campaigns" ∷ []

abbrev pub batch_size : ℕ
batch_size = 500

pub data Result : Type 0 where
  completed : Result
  failed : Stage → Result
  count_mismatch : Result
  invalid_tenant_id : Result
  -- The copy has not ended with the fuel given.
  unfinished : Result

abbrev pub table_of : String → Tables → List Row
table_of name tables = elim (lookup name tables) [ none ↦ [] | some rows ↦ rows ]

unfoldable pub rows_of : String → String → Tables → List Row
rows_of tenant_id table tables = filter (λ r. r.tenant_id == tenant_id) (table_of table tables)

-- The order in which PostgreSQL sees the rows of a table in a SELECT, by the table and the OFFSET: the
-- source orders by `created_at` only, so that rows of one time may come in any order, and in another
-- one for the next batch.
abbrev pub Scan : Type 0
Scan = String → ℕ → List Row → List Row

-- The loop of `copyTable`: batches by LIMIT and OFFSET; an INSERT throws where the columns do not fit.
unfoldable pub copy_from : Scan → String → ℕ → ℕ → List Row → List Row → Copied (List Row)
unfolding fits_dedicated
copy_from scan table zero offset source dest = out_of_fuel
copy_from scan table (suc fuel) offset source dest =
    let rows = take batch_size (drop offset (scan table offset source)) in
    let longer = copy_from scan table fuel (offset + length rows) source (dest ++ rows) in
    if eqb (length rows) 0
    then ended dest
    else if not (fits_dedicated table)
    then threw_at dest
    else if ltb (length rows) batch_size
    then ended (dest ++ rows)
    else longer

-- The loop over the tables.
unfoldable pub copy_tables : Scan → ℕ → String → List String → Tables → Tables → Copied Tables
unfolding copy_from rows_of
copy_tables scan fuel tenant_id [] shared dedicated = ended dedicated
copy_tables scan fuel tenant_id (table ∷ tables) shared dedicated =
    elim (copy_from scan table fuel 0 (rows_of tenant_id table shared) (table_of table dedicated)) [
      | ended rows ↦ copy_tables scan fuel tenant_id tables shared (insert table rows dedicated)
      | threw_at rows ↦ threw_at (insert table rows dedicated)
      | out_of_fuel ↦ out_of_fuel
    ]

-- `verifyRowCounts`
unfoldable pub counts_match : String → List String → Tables → Tables → Bool
unfolding rows_of
counts_match tenant_id [] shared dedicated = true
counts_match tenant_id (table ∷ tables) shared dedicated =
    eqb (length (rows_of tenant_id table shared)) (length (rows_of tenant_id table dedicated))
    && counts_match tenant_id tables shared dedicated

abbrev pub set_row : String → (TenantRow → TenantRow) → TenantRow → TenantRow
set_row id f t = if t.id == id then f t else t

unfoldable pub update_rows : String → (TenantRow → TenantRow) → List TenantRow → List TenantRow
update_rows id f rows = map (set_row id f) rows

abbrev pub drop_database : Bool → String → Dict Tables → Dict Tables
drop_database true name databases = remove name databases
drop_database false name databases = databases

-- The handler of the `catch`.
unfoldable pub roll_back : Bool → String → JobData → Site → Site
unfolding update_rows
roll_back db_created db_name job s = record s {
  tenants =
      update_rows job.tenant_id (λ t. record t { status = "active"; tier = job.current_tier })
        s.tenants;
  slots = register job.tenant_id job.current_tier s.slots;
  databases = drop_database db_created db_name s.databases;
}

abbrev pub registry_row : JobData → String → String → RegistryRow
registry_row job db_name url = record {
  tenant_id = job.tenant_id;
  db_name = db_name;
  db_url = url;
  decommissioned_at = none;
}

-- Step 6, inside its transaction.
unfoldable pub record_migration : JobData → String → String → Site → Site
unfolding update_rows
record_migration job db_name url s = record s {
  vip_db_registry = registry_row job db_name url ∷ s.vip_db_registry;
  tenants =
      update_rows job.tenant_id (λ t. record t { db_url = some url; status = "active" }) s.tenants;
}

-- `fails` tells what throws beside the INSERTs whose columns do not fit.
module _ (fails : Stage → Bool) (scan : Scan) where
  -- Steps 6 to 8. Where the INSERT throws, its transaction is left open and aborted, and so the two
  -- statements of the `catch` throw as well: nothing is restored.
  unfoldable pub settle : String → String → JobData → Site → Site × Result
  unfolding record_migration roll_back
  settle db_name url job s =
      if fails insert_registry
      then (s, failed insert_registry)
      else if fails commit
      then (roll_back true db_name job s, failed commit)
      else (let stored = record_migration job db_name url s in
          let freed = record stored { slots = deregister job.tenant_id stored.slots } in
          if fails add_cleanup
          then (roll_back true db_name job freed, failed add_cleanup)
          else (record freed { cleanups = (job.tenant_id, job.slug) ∷ freed.cleanups }, completed))

  -- Steps 4 and 5, given the copied tables.
  unfoldable pub verify : String → String → JobData → Copied Tables → Site → Site × Result
  unfolding counts_match settle roll_back
  verify db_name url job out_of_fuel s = (s, unfinished)
  verify db_name url job (threw_at _) s = (roll_back true db_name job s, failed copy_data)
  verify db_name url job (ended dedicated) s =
      let copied = record s { databases = insert db_name dedicated s.databases } in
      if counts_match job.tenant_id plugin_tables s.shared dedicated
      then elim (register_vip_pool job.tenant_id url s.pools) [
        | none ↦ (roll_back true db_name job copied, invalid_tenant_id)
        | some pools ↦ settle db_name url job (record copied { pools = pools })
      ]
      else (roll_back true db_name job copied, count_mismatch)

  -- `process`; `url` is the shared database's with the name replaced.
  unfoldable pub process : ℕ → String → JobData → Site → Site × Result
  unfolding update_rows copy_tables verify roll_back
  process fuel url job s =
      let db_name = "crm_vip_" <> job.slug in
      let gated = record s {
        tenants = update_rows job.tenant_id (λ t. record t { status = "migrating" }) s.tenants;
      } in
      let created = record gated { databases = insert db_name [] gated.databases } in
      if fails create_database
      then (roll_back false db_name job gated, failed create_database)
      else if fails create_schema
      then (roll_back true db_name job created, failed create_schema)
      else if fails copy_data
      then (roll_back true db_name job created, failed copy_data)
      else verify db_name url job (copy_tables scan fuel job.tenant_id plugin_tables s.shared [])
          created
