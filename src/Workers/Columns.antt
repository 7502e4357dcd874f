-- ===== src/Workers/Columns.antt =====
-- The columns of the plugin tables in the two schemas: `createPluginSchema` of
-- backend/src/workers/bullmq/processors/vip-migration.processor.ts, and the shared tables of
-- backend/src/db/migrations/20260303000004_plugin_tables.ts. The copies of both jobs insert a row
-- under all the columns that it brings; PostgreSQL refuses an INSERT into an unknown column. And what
-- PostgreSQL answers in a copy.
use crm_multi_tenant_saas_ar.Prelude.{
  Bool, String, List, [], ◌∷◌, ◌==◌, all, includes, if◌then◌else◌,
}

-- `t.timestamps(true, true)`, and the key with its tenant.
abbrev stamped : List String → List String
stamped columns = "id" ∷ "tenant_id" ∷ "created_at" ∷ "updated_at" ∷ columns

-- `createPluginSchema`
unfoldable pub dedicated_columns : String → List String
dedicated_columns table =
    if table == "customers"
    then stamped ("name" ∷ "email" ∷ "phone" ∷ "metadata" ∷ [])
    else if table == "support_cases"
    then stamped ("customer_id" ∷ "title" ∷ "description" ∷ "status" ∷ [])
    else if table == "automation_triggers"
    then stamped ("name" ∷ "config" ∷ "is_active" ∷ [])
    else stamped ("name" ∷ "status" ∷ "config" ∷ [])

-- The shared tables.
unfoldable pub shared_columns : String → List String
shared_columns table =
    if table == "customers"
    then stamped ("name" ∷ "email" ∷ "phone" ∷ "company" ∷ "is_active" ∷ [])
    else if table == "support_cases"
    then stamped (
        "customer_id" ∷ "title" ∷ "description" ∷ "status" ∷ "priority" ∷ "assigned_to"
        ∷ "resolved_at" ∷ [])
    else if table == "automation_triggers"
    then stamped ("name" ∷ "event_type" ∷ "conditions" ∷ "actions" ∷ "is_active" ∷ [])
    else stamped
        ("name" ∷ "status" ∷ "campaign_type" ∷ "target_count" ∷ "sent_count" ∷ "scheduled_at" ∷ [])

-- Every column that the rows of the shared table bring is there in the dedicated one.
unfoldable pub fits_dedicated : String → Bool
unfolding dedicated_columns shared_columns
fits_dedicated table =
    all (λ column. includes column (dedicated_columns table)) (shared_columns table)

-- And the other way round.
unfoldable pub fits_shared : String → Bool
unfolding dedicated_columns shared_columns
fits_shared table = all (λ column. includes column (shared_columns table)) (dedicated_columns table)

-- What a copy has made: the loop has ended, or a statement has thrown, or the fuel has run out.
pub data Copied {ℓ} (A : Type ℓ) : Type ℓ where
  ended : A → Copied A
  threw_at : A → Copied A
  out_of_fuel : Copied A
