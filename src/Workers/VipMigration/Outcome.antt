-- ===== src/Workers/VipMigration/Outcome.antt =====
-- What a migration leaves: on success, and where the record of it cannot be written.
use crm_multi_tenant_saas_ar.Prelude.{
  ℕ, ◌≡◌, ◌<◌, refl, Bool, true, false, String, Option, none, some, List, [], ◌∷◌, ◌==◌, ◌<>◌,
  arith, eq_iff, find, Bool-cases, inl, inr, if◌then◌else◌,
}
use crm_multi_tenant_saas_ar.Prelude.Dict.{lookup, insert, lookup-insert_self, lookup-remove_self}
use crm_multi_tenant_saas_ar.Dal.Quota.{register, deregister}
use crm_multi_tenant_saas_ar.Dal.Pool.{Registry, register_vip_pool}
use crm_multi_tenant_saas_ar.Gateway.Resolver.{
  TenantRow, whole, refused, resolved_of, status_gate, gate,
}
use crm_multi_tenant_saas_ar.Workers.VipMigration.{
  Site, JobData, Stage, create_database, create_schema, copy_data, insert_registry, commit,
  add_cleanup, Result, completed, failed, Scan, plugin_tables, update_rows, roll_back,
  record_migration, settle, verify, process,
}
use crm_multi_tenant_saas_ar.Workers.VipMigration.Whole.{
  Counts, has_rows, empty_tables, copy_tables-empty, copy_tables-threw, counts_match-empty,
  plugin_tables-unfit,
}

-- The row of a tenant after an update of its row.
pub find-update_rows :
    (id : String) (f : TenantRow → TenantRow) (rows : List TenantRow) (row : TenantRow)
    → ((t : TenantRow) → (f t).id ≡ t.id)
    → find (λ t. t.id == id) rows ≡ some row
    → find (λ t. t.id == id) (update_rows id f rows) ≡ some (f row)
unfolding update_rows
find-update_rows id f [] row keeps h = absurd (ground arith)
find-update_rows id f (t ∷ rows) row keeps h =
    let ih = find-update_rows id f rows row keeps in ground (arith, ih, keeps t, eq_iff t.id id)

abbrev pub find_row : String → List TenantRow → Option TenantRow
find_row id rows = find (λ t. t.id == id) rows

-- The state before step 6.
abbrev pub before_record : String → JobData → Registry → Site → Site
before_record url job pools s = record s {
  tenants = update_rows job.tenant_id (λ t. record t { status = "migrating" }) s.tenants;
  databases =
      insert ("crm_vip_" <> job.slug) empty_tables (insert ("crm_vip_" <> job.slug) [] s.databases);
  pools = pools;
}

-- What a migration that has succeeded leaves of a tenant's row.
abbrev pub settled : String → TenantRow → TenantRow
settled url row = record row { status = "active"; db_url = some url }

find-record_migration :
    (url : String) (job : JobData) (pools : Registry) (s : Site) (row : TenantRow)
    → find_row job.tenant_id s.tenants ≡ some row
    → find_row job.tenant_id
        (record_migration job ("crm_vip_" <> job.slug) url (before_record url job pools s)).tenants
      ≡ some (settled url row)
unfolding record_migration
find-record_migration url job pools s row h =
    find-update_rows job.tenant_id (settled url)
      (update_rows job.tenant_id (λ t. record t { status = "migrating" }) s.tenants)
      (record row { status = "migrating" }) (λ t. refl)
      (find-update_rows job.tenant_id (λ t. record t { status = "migrating" }) s.tenants row
        (λ t. refl) h)

-- What a migration that has succeeded leaves.
abbrev pub Migrated : String → JobData → Site → TenantRow → Site × Result → Type 0
Migrated url job s row r =
    (r.1 ≡ completed)
    × (find_row job.tenant_id r.0.tenants ≡ some (settled url row))
    × (lookup ("crm_vip_" <> job.slug) r.0.databases ≡ some empty_tables)
    × (lookup job.tenant_id r.0.slots.entries ≡ none)
    × (r.0.shared ≡ s.shared)
    × (r.0.cleanups ≡ (job.tenant_id, job.slug) ∷ s.cleanups)

gate-forbidden :
    (method url : String) (row : TenantRow)
    → row.is_active ≡ false
    → gate method (some (whole (resolved_of (settled url row)))) ≡ refused 403
unfolding gate status_gate resolved_of
gate-forbidden method url row h = rw h refl

-- What a migration that has been rolled back leaves.
abbrev pub RolledBack : JobData → Site → TenantRow → Site × Result → Type 0
RolledBack job s row r =
    (r.1 ≡ failed copy_data)
    × (find_row job.tenant_id r.0.tenants
        ≡ some (record row { status = "active"; tier = job.current_tier }))
    × (lookup ("crm_vip_" <> job.slug) r.0.databases ≡ none)
    × (r.0.slots ≡ register job.tenant_id job.current_tier s.slots)
    × (r.0.shared ≡ s.shared)
    × (r.0.cleanups ≡ s.cleanups)

module _ (fails : Stage → Bool) (scan : Scan) where
  -- For a tenant without rows, where nothing has failed before, the job comes to step 6 with the copy
  -- made.
  process-settle :
      (fuel : ℕ) (url : String) (job : JobData) (s : Site) (pools : Registry)
      → Counts scan
      → 0 < fuel
      → has_rows job.tenant_id plugin_tables s.shared ≡ false
      → register_vip_pool job.tenant_id url s.pools ≡ some pools
      → fails create_database ≡ false
      → fails create_schema ≡ false
      → fails copy_data ≡ false
      → process fails scan fuel url job s
        ≡ settle fails scan ("crm_vip_" <> job.slug) url job (before_record url job pools s)
  unfolding process verify
  process-settle fuel url job s pools counts some_fuel none_there registered a b c =
      rw
        (
          a,
          b,
          c,
          copy_tables-empty scan fuel job.tenant_id s.shared counts some_fuel none_there,
          verify,
          counts_match-empty job.tenant_id s.shared none_there,
          registered,
        )
        refl

  settle-Migrated :
      (url : String) (job : JobData) (s : Site) (pools : Registry) (row : TenantRow)
      → find_row job.tenant_id s.tenants ≡ some row
      → fails insert_registry ≡ false
      → fails commit ≡ false
      → fails add_cleanup ≡ false
      → Migrated url job s row
          (settle fails scan ("crm_vip_" <> job.slug) url job (before_record url job pools s))
  unfolding settle deregister record_migration
  settle-Migrated url job s pools row h a b c =
      let found = find-record_migration url job pools s row h in
      let name = "crm_vip_" <> job.slug in
      rw (a, b, c)
        (
          refl,
          found,
          lookup-insert_self name empty_tables (insert name [] s.databases),
          lookup-remove_self job.tenant_id s.slots.entries,
          refl,
          refl,
        )

  -- A migration of a tenant with a row in one of the four shared tables whose database and schema can
  -- be made throws in the copy, whatever else throws.
  pub process-RolledBack :
      (fuel : ℕ) (url : String) (job : JobData) (s : Site) (row : TenantRow)
      → Counts scan
      → 0 < fuel
      → has_rows job.tenant_id plugin_tables s.shared ≡ true
      → find_row job.tenant_id s.tenants ≡ some row
      → fails create_database ≡ false
      → fails create_schema ≡ false
      → RolledBack job s row (process fails scan fuel url job s)
  unfolding process verify roll_back
  process-RolledBack fuel url job s row counts some_fuel some_there h a b =
      let gated =
        find-update_rows job.tenant_id (λ t. record t { status = "migrating" }) s.tenants row
          (λ t. refl) h in
      let opened =
        find-update_rows job.tenant_id
          (λ t. record t { status = "active"; tier = job.current_tier })
          (update_rows job.tenant_id (λ t. record t { status = "migrating" }) s.tenants)
          (record row { status = "migrating" }) (λ t. refl) gated in
      let (made, threw) =
        copy_tables-threw scan counts fuel job.tenant_id plugin_tables s.shared [] some_fuel
          plugin_tables-unfit some_there in
      elim (Bool-cases (fails copy_data)) [
        | inl c ↦
            rw (a, b, c)
              (refl, opened, lookup-remove_self ("crm_vip_" <> job.slug) _, refl, refl, refl)
        | inr c ↦
            rw (a, b, c, threw, verify)
              (refl, opened, lookup-remove_self ("crm_vip_" <> job.slug) _, refl, refl, refl)
      ]

  -- A migration in which nothing throws but the INSERTs whose columns do not fit, of a tenant that has
  -- a row in `tenants` and whose id makes a pool, completes exactly where the tenant has no row in the
  -- four shared tables, in whatever order these are read. Then the tenant's status is active, its row
  -- names the dedicated database, with four empty tables, and is otherwise as before, `is_active` too;
  -- the quota slot is gone, the shared rows are as they were, and their cleanup is scheduled. Otherwise
  -- it is rolled back: the status is active in the job's tier, the dedicated database is gone, the slot
  -- is registered anew, and no cleanup is scheduled.
  pub process-Migrated :
      (fuel : ℕ) (url : String) (job : JobData) (s : Site) (pools : Registry) (row : TenantRow)
      → Counts scan
      → 0 < fuel
      → register_vip_pool job.tenant_id url s.pools ≡ some pools
      → find_row job.tenant_id s.tenants ≡ some row
      → ((stage : Stage) → fails stage ≡ false)
      → if has_rows job.tenant_id plugin_tables s.shared
        then RolledBack job s row (process fails scan fuel url job s)
        else Migrated url job s row (process fails scan fuel url job s)
  process-Migrated fuel url job s pools row counts some_fuel registered h none_fails =
      elim (Bool-cases (has_rows job.tenant_id plugin_tables s.shared)) [
        | inl e ↦ rw e (
            process-RolledBack fuel url job s row counts some_fuel e h (none_fails create_database)
              (none_fails create_schema))
        | inr e ↦
            rw
              (
                e,
                process-settle fuel url job s pools counts some_fuel e registered
                    (none_fails create_database) (none_fails create_schema) (none_fails copy_data),
              )
              (settle-Migrated url job s pools row h (none_fails insert_registry)
                (none_fails commit) (none_fails add_cleanup))
      ]

  -- Where the INSERT into the registry throws and nothing before it, for a tenant without rows of the
  -- plugins that has a row and whose id makes a pool, nothing is restored: the tenant stays migrating
  -- and the dedicated database stays, with no cleanup scheduled.
  pub process-stuck :
      (fuel : ℕ) (url : String) (job : JobData) (s : Site) (pools : Registry) (row : TenantRow)
      → Counts scan
      → 0 < fuel
      → has_rows job.tenant_id plugin_tables s.shared ≡ false
      → register_vip_pool job.tenant_id url s.pools ≡ some pools
      → find_row job.tenant_id s.tenants ≡ some row
      → fails create_database ≡ false
      → fails create_schema ≡ false
      → fails copy_data ≡ false
      → fails insert_registry ≡ true
      → let r = process fails scan fuel url job s in
        (r.1 ≡ failed insert_registry)
        × (find_row job.tenant_id r.0.tenants ≡ some (record row { status = "migrating" }))
        × (lookup ("crm_vip_" <> job.slug) r.0.databases ≡ some empty_tables)
        × (r.0.cleanups ≡ s.cleanups)
  unfolding settle
  process-stuck fuel url job s pools row counts some_fuel none_there registered h a b c d =
      let name = "crm_vip_" <> job.slug in
      let gated =
        find-update_rows job.tenant_id (λ t. record t { status = "migrating" }) s.tenants row
          (λ t. refl) h in
      rw
        (
          process-settle fuel url job s pools counts some_fuel none_there registered a b c,
          settle,
          d,
        )
        (refl, gated, lookup-insert_self name empty_tables (insert name [] s.databases), refl)
