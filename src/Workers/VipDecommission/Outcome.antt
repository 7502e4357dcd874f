-- ===== src/Workers/VipDecommission/Outcome.antt =====
-- What a decommission keeps, wherever it throws and in whatever order it reads.
use crm_multi_tenant_saas_ar.Prelude.{
  ℕ, ◌≡◌, ◌≢◌, refl, String, some, List, [], ◌<>◌, arith, Bool-cases, inl, inr, ◌⊎◌,
}
use crm_multi_tenant_saas_ar.Prelude.Dict.{lookup}
use crm_multi_tenant_saas_ar.Workers.Columns.{ended}
use crm_multi_tenant_saas_ar.Workers.VipMigration.{
  Row, Tables, Site, plugin_tables, table_of, rows_of, counts_match,
}
use crm_multi_tenant_saas_ar.Workers.VipDecommission.{
  Answers, DecommissionJobData, Fault, no_fault, in_count, in_update, in_pool_end, in_mark, in_drop,
  stops_in_count, Ended, unfinished, hand_over, check_counts, copy_all, decommission,
  release_tenant, end_pool, enter_quota, mark_registry, drop_dedicated,
}
use crm_multi_tenant_saas_ar.Workers.VipDecommission.Keys.{Sourced}
use crm_multi_tenant_saas_ar.Workers.VipDecommission.Restore.{
  Reads, Kept, Copied-cases, copy_all-Sourced, counts_match-Kept,
}
use crm_multi_tenant_saas_ar.Workers.VipDecommission.Ends.{Fuelled, copy_all-ne-out_of_fuel}

hand_over-shared :
    (fault : Fault) (now : ℕ) (job : DecommissionJobData) (s : Site)
    → (hand_over fault now job s).0.shared ≡ s.shared
unfolding hand_over release_tenant end_pool enter_quota mark_registry drop_dedicated
hand_over-shared no_fault now job s = refl
hand_over-shared in_count now job s = refl
hand_over-shared in_update now job s = refl
hand_over-shared in_pool_end now job s = refl
hand_over-shared in_mark now job s = refl
hand_over-shared in_drop now job s = refl

hand_over-ne-unfinished :
    (fault : Fault) (now : ℕ) (job : DecommissionJobData) (s : Site)
    → (hand_over fault now job s).1 ≢ unfinished
unfolding hand_over
hand_over-ne-unfinished no_fault now job s = cc
hand_over-ne-unfinished in_count now job s = cc
hand_over-ne-unfinished in_update now job s = cc
hand_over-ne-unfinished in_pool_end now job s = cc
hand_over-ne-unfinished in_mark now job s = cc
hand_over-ne-unfinished in_drop now job s = cc

-- Nothing is lost: the databases are as they were, or the tenant's rows are in the shared tables.
abbrev pub Unlost : DecommissionJobData → Tables → Site → Site × Ended → Type 0
Unlost job dedicated s r =
    (r.1 ≢ unfinished)
    × ((r.0.databases ≡ s.databases) ⊎ Kept job.tenant_id plugin_tables dedicated r.0.shared)

check_counts-Unlost :
    (fault : Fault) (now : ℕ) (job : DecommissionJobData) (dedicated shared : Tables) (s : Site)
    → ((t : String) → Sourced job.tenant_id (rows_of job.tenant_id t dedicated) (table_of t shared))
    → Unlost job dedicated s (check_counts fault now job dedicated (ended shared) s)
unfolding check_counts
check_counts-Unlost fault now job dedicated shared s sourced =
    elim (Bool-cases (stops_in_count fault)) [
      | inl e ↦ rw e (cc, inl refl)
      | inr e ↦ elim (Bool-cases (counts_match job.tenant_id plugin_tables dedicated shared)) [
        | inl agreed ↦
            let kept =
              counts_match-Kept job.tenant_id plugin_tables dedicated shared sourced agreed in
            let after = record s { shared = shared } in
            rw (e, agreed)
              (
                hand_over-ne-unfinished fault now job after,
                inr (rw (hand_over-shared fault now job after) kept),
              )
        | inr differ ↦ rw (e, differ) (cc, inl refl)
      ]
    ]

no_rows-Sourced :
    (id t : String) (source : List Row) (shared : Tables)
    → rows_of id t shared ≡ []
    → Sourced id source (table_of t shared)
unfolding rows_of
no_rows-Sourced id t source shared none_there = record {
  distinct = rw none_there tt;
  among = λ k h. absurd (ground (arith, none_there));
}

-- A decommission whose copy finds no row of the tenant in the shared tables ends, with fuel for every
-- row of the dedicated database. Whatever statement of it throws, also in the middle of the copy, and
-- in whatever order PostgreSQL reads each batch, so that a batch may repeat rows and miss others:
-- either the databases are as they were, or each row of the tenant in the dedicated database has its
-- key at a row of the tenant in the shared table.
pub decommission-Unlost :
    (answers : Answers) (fuel : ℕ) (fault : Fault) (now : ℕ) (job : DecommissionJobData)
    (dedicated : Tables) (s : Site)
    → Reads answers.scan
    → lookup ("crm_vip_" <> job.slug) s.databases ≡ some dedicated
    → Fuelled fuel job.tenant_id plugin_tables dedicated
    → ((t : String) → rows_of job.tenant_id t s.shared ≡ [])
    → Unlost job dedicated s (decommission answers fuel fault now job s)
unfolding decommission check_counts
decommission-Unlost answers fuel fault now job dedicated s reads there enough cleaned =
    let id = job.tenant_id in
    elim (Copied-cases (copy_all answers fuel id plugin_tables dedicated s.shared)) [
      | inl (shared, e) ↦
          let sourced =
            copy_all-Sourced answers reads id fuel plugin_tables dedicated s.shared shared
              (λ t. no_rows-Sourced id t (rows_of id t dedicated) s.shared (cleaned t)) e in
          rw (decommission, there, e) (check_counts-Unlost fault now job dedicated shared s sourced)
      | inr (inl (shared, e)) ↦ rw (decommission, there, e) (cc, inl refl)
      | inr (inr e) ↦
          absurd (
            copy_all-ne-out_of_fuel answers reads fuel id plugin_tables dedicated s.shared enough e)
    ]
