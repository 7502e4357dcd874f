-- ===== src/Workers/VipDecommission.antt =====
-- backend/src/workers/bullmq/processors/vip-decommission.processor.ts: a tenant moves back to the
-- shared database. And vip-shared-cleanup.processor.ts, which deletes the rows that a migration has
-- left in the shared database.
pub mod Keys
pub mod Restore
pub mod Ends
pub mod Outcome
pub mod Cleanup
use crm_multi_tenant_saas_ar.Prelude.{
  ℕ, zero, suc, ◌+◌, Bool, true, false, not, ◌||◌, String, Option, none, some, List, [], ◌∷◌, ◌==◌,
  ◌<>◌, ltb, eqb, map, filter, take, drop, length, if◌then◌else◌,
}
use crm_multi_tenant_saas_ar.Prelude.Dict.{Dict, lookup, insert, remove}
use crm_multi_tenant_saas_ar.Dal.Quota.{register}
use crm_multi_tenant_saas_ar.Dal.Pool.{deregister_vip_pool}
use crm_multi_tenant_saas_ar.Workers.Columns.{fits_shared, Copied, ended, threw_at, out_of_fuel}
use crm_multi_tenant_saas_ar.Workers.VipMigration.{
  Row, Tables, RegistryRow, Site, Scan, plugin_tables, batch_size, table_of, rows_of, counts_match,
  update_rows,
}

pub record DecommissionJobData : Type 0 where
  pub tenant_id : String
  pub slug : String
  pub new_tier : String

-- The statement after the copy at which a run throws.
pub data Fault : Type 0 where
  no_fault : Fault
  in_count in_update in_pool_end in_mark in_drop : Fault

abbrev pub stops_in_count : Fault → Bool
stops_in_count in_count = true
stops_in_count _ = false

-- What PostgreSQL answers in the copy: the order in which a SELECT sees the rows of a table, which is
-- not asked for and may be another one for each batch; and the statements that throw, beside the
-- INSERTs whose columns do not fit.
pub record Answers : Type 0 where
  pub scan : Scan
  pub select_throws : String → ℕ → Bool
  pub insert_throws : String → Row → Bool

pub data Ended : Type 0 where
  decommissioned : Ended
  threw : Fault → Ended
  threw_in_copy : Ended
  mismatch : Ended
  no_database : Ended
  -- The copy has not ended with the fuel given.
  unfinished : Ended

-- `INSERT … ON CONFLICT DO NOTHING`
unfoldable pub insert_missing : Row → List Row → List Row
insert_missing r [] = r ∷ []
insert_missing r (d ∷ dest) =
    let rest = insert_missing r dest in if d.key == r.key then d ∷ dest else d ∷ rest

-- The loop over the rows of a batch: each INSERT stands for itself, so that those before one that
-- throws stay.
unfoldable pub insert_all : (Row → Bool) → List Row → List Row → Copied (List Row)
unfolding insert_missing
insert_all throws [] dest = ended dest
insert_all throws (r ∷ rows) dest =
    let rest = insert_all throws rows (insert_missing r dest) in
    if throws r then threw_at dest else rest

abbrev pub insert_throws_in : Answers → String → Row → Bool
insert_throws_in answers table r = not (fits_shared table) || answers.insert_throws table r

-- The loop of `copyTable`.
unfoldable pub copy_back : Answers → String → ℕ → ℕ → List Row → List Row → Copied (List Row)
unfolding insert_all fits_shared
copy_back answers table zero offset source dest = out_of_fuel
copy_back answers table (suc fuel) offset source dest =
    let rows = take batch_size (drop offset (answers.scan table offset source)) in
    if answers.select_throws table offset
    then threw_at dest
    else if eqb (length rows) 0
    then ended dest
    else elim (insert_all (insert_throws_in answers table) rows dest) [
      | ended longer ↦ elim (ltb (length rows) batch_size) [
        | true ↦ ended longer
        | false ↦ copy_back answers table fuel (offset + length rows) source longer
      ]
      | threw_at longer ↦ threw_at longer
      | out_of_fuel ↦ out_of_fuel
    ]

-- Step 1: the loop over the tables.
unfoldable pub copy_all : Answers → ℕ → String → List String → Tables → Tables → Copied Tables
unfolding copy_back rows_of
copy_all answers fuel tenant_id [] dedicated shared = ended shared
copy_all answers fuel tenant_id (table ∷ tables) dedicated shared =
    elim (copy_back answers table fuel 0 (rows_of tenant_id table dedicated)
      (table_of table shared)) [
        | ended rows ↦ copy_all answers fuel tenant_id tables dedicated (insert table rows shared)
        | threw_at rows ↦ threw_at (insert table rows shared)
        | out_of_fuel ↦ out_of_fuel
      ]

abbrev pub mark_row : String → ℕ → RegistryRow → RegistryRow
mark_row id now r =
    if r.tenant_id == id
    then elim r.decommissioned_at [ none ↦ record r { decommissioned_at = some now } | some _ ↦ r ]
    else r

-- Step 3.
unfoldable pub release_tenant : DecommissionJobData → Site → Site
unfolding update_rows
release_tenant job s = record s {
  tenants =
      update_rows job.tenant_id
        (λ t. record t { db_url = none; tier = job.new_tier; status = "active" }) s.tenants;
}

-- Step 4.
unfoldable pub end_pool : DecommissionJobData → Site → Site
end_pool job s = record s { pools = (deregister_vip_pool job.tenant_id s.pools).0 }

-- Steps 5 and 6.
unfoldable pub enter_quota : DecommissionJobData → Site → Site
enter_quota job s = record s { slots = register job.tenant_id job.new_tier s.slots }

unfoldable pub mark_registry : ℕ → DecommissionJobData → Site → Site
mark_registry now job s = record s {
  vip_db_registry = map (mark_row job.tenant_id now) s.vip_db_registry;
}

-- Step 7.
unfoldable pub drop_dedicated : DecommissionJobData → Site → Site
drop_dedicated job s = record s { databases = remove ("crm_vip_" <> job.slug) s.databases }

-- Steps 3 to 7, each of which may throw.
unfoldable pub hand_over : Fault → ℕ → DecommissionJobData → Site → Site × Ended
unfolding release_tenant end_pool enter_quota mark_registry drop_dedicated
hand_over in_update now job s = (s, threw in_update)
hand_over in_pool_end now job s = (end_pool job (release_tenant job s), threw in_pool_end)
hand_over in_mark now job s = (enter_quota job (end_pool job (release_tenant job s)), threw in_mark)
hand_over in_drop now job s =
    (mark_registry now job (enter_quota job (end_pool job (release_tenant job s))), threw in_drop)
hand_over _ now job s = (
  drop_dedicated job
      (mark_registry now job (enter_quota job (end_pool job (release_tenant job s)))),
  decommissioned,
)

-- Step 2, given the copied tables.
unfoldable pub check_counts :
    Fault → ℕ → DecommissionJobData → Tables → Copied Tables → Site → Site × Ended
unfolding counts_match hand_over
check_counts fault now job dedicated out_of_fuel s = (s, unfinished)
check_counts fault now job dedicated (threw_at shared) s =
    (record s { shared = shared }, threw_in_copy)
check_counts fault now job dedicated (ended shared) s =
    let copied = record s { shared = shared } in
    if stops_in_count fault
    then (copied, threw in_count)
    else if counts_match job.tenant_id plugin_tables dedicated shared
    then hand_over fault now job copied
    else (copied, mismatch)

-- `process` of `VipDecommissionProcessor`
unfoldable pub decommission : Answers → ℕ → Fault → ℕ → DecommissionJobData → Site → Site × Ended
unfolding copy_all check_counts
decommission answers fuel fault now job s = elim (lookup ("crm_vip_" <> job.slug) s.databases) [
  | none ↦ (s, no_database)
  | some dedicated ↦
      check_counts fault now job dedicated
        (copy_all answers fuel job.tenant_id plugin_tables dedicated s.shared) s
]

abbrev pub cleanup_tables : List String
cleanup_tables = "marketing_campaigns" ∷ "automation_triggers" ∷ "support_cases" ∷ "customers" ∷ []

unfoldable pub delete_rows : String → String → Tables → Tables
delete_rows tenant_id table shared =
    insert table (filter (λ r. not (r.tenant_id == tenant_id)) (table_of table shared)) shared

unfoldable pub delete_from : String → List String → Tables → Tables
unfolding delete_rows
delete_from tenant_id [] shared = shared
delete_from tenant_id (table ∷ tables) shared =
    delete_from tenant_id tables (delete_rows tenant_id table shared)

-- `process` of `VipSharedCleanupProcessor`
unfoldable pub cleanup : String → Site → Site
unfolding delete_from
cleanup tenant_id s = record s { shared = delete_from tenant_id cleanup_tables s.shared }
