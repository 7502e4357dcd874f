-- ===== src/Admin/Tenants/Change.antt =====
-- `update` of
-- backend/src/api/v1/admin/tenants/admin-tenants.service.ts.
use crm_multi_tenant_saas_ar.Prelude.{
  Bool, true, false, not, ◌&&◌, ◌||◌, String, Option, none, some, List, ◌==◌, filter, includes,
  if◌then◌else◌,
}
use crm_multi_tenant_saas_ar.Dal.Quota.{update_cap}
use crm_multi_tenant_saas_ar.Dal.Cache.{Redis, del_for_tenant, invalidate_tenant_lookup}
use crm_multi_tenant_saas_ar.Gateway.Resolver.{Cached}
use crm_multi_tenant_saas_ar.Admin.Tables.{
  TenantRow, Database, is_valid_plan, tier_default_plugins, find_tenant, update_tenant, enable_all,
  disable_any,
}
use crm_multi_tenant_saas_ar.Admin.World.{
  World, Message, config_reload, cache_invalidate, vip_migration, vip_decommission, bad_request,
  not_found, ok, failed, Call, send, and_then,
}
use crm_multi_tenant_saas_ar.Admin.Tenants.Register.{TenantView, row_to_tenant, plugin_count, given}

pub record UpdateInput : Type 0 where
  pub name : Option String
  pub status : Option String
  pub plan : Option String

-- Whether a change of plan leads into the tier 'vip', or out of it.
abbrev pub is_vip_upgrade : Option String → String → Bool
is_vip_upgrade none current = false
is_vip_upgrade (some plan) current = plan == "vip" && not (current == "vip")

abbrev pub is_vip_downgrade : Option String → String → Bool
is_vip_downgrade none current = false
is_vip_downgrade (some plan) current = not (plan == "vip") && current == "vip"

-- The SET clauses of `update`, in order.
abbrev pub set_name : Option String → TenantRow → TenantRow
set_name none t = t
set_name (some name) t = record t { name = name }

abbrev pub set_tier : Option String → TenantRow → TenantRow
set_tier none t = t
set_tier (some tier) t = record t { tier = tier }

abbrev pub set_status : Bool → Option String → TenantRow → TenantRow
set_status true status t = record t { status = "migrating"; is_active = false }
set_status false none t = t
set_status false (some status) t = record t { status = status; is_active = status == "active" }

unfoldable pub set_clauses : UpdateInput → String → TenantRow → TenantRow
set_clauses input current t =
    let plan = given input.plan in
    set_status (is_vip_upgrade plan current || is_vip_downgrade plan current) (given input.status)
      (set_tier plan (set_name (given input.name) t))

-- `!sets.length`
abbrev pub is_empty : UpdateInput → Bool
is_empty input = elim (given input.name) [
  | some _ ↦ false
  | none ↦ elim (given input.plan) [
    | some _ ↦ false
    | none ↦ elim (given input.status) [ some _ ↦ false | none ↦ true ]
  ]
]

-- `xs.filter((p) => !ys.includes(p))`
abbrev pub without : List String → List String → List String
without xs ys = filter (λ p. not (includes p ys)) xs

-- The plugin delta when the tier changes.
unfoldable pub plugin_delta : String → String → String → Database → Database
unfolding tier_default_plugins enable_all disable_any
plugin_delta id current plan db =
    let after = tier_default_plugins plan in
    let before = tier_default_plugins current in
    record db {
      plugins =
          disable_any id (without before after) (enable_all id (without after before) db.plugins);
    }

-- `input.plan && input.plan !== currentTier`: the new plan.
abbrev pub changed_plan : Option String → String → Option String
changed_plan none current = none
changed_plan (some plan) current = if plan == current then none else some plan

-- The transaction of `update`.
unfoldable pub update_db : String → UpdateInput → String → Database → Database
unfolding update_tenant set_clauses plugin_delta
update_db id input current db =
    let changed = update_tenant id (set_clauses input current) db in
    elim (changed_plan (given input.plan) current) [
      | none ↦ changed
      | some plan ↦ plugin_delta id current plan changed
    ]

abbrev pub slug_of : String → Option String → String
slug_of id none = id
slug_of id (some subdomain) = subdomain

abbrev pub is_bad_plan : Option String → Bool
is_bad_plan none = false
is_bad_plan (some plan) = not (is_valid_plan plan)

module _ (redis : Redis Cached) (accepts : Message → Bool) where
  open redis use {Store}

  -- The cache after a change of tier.
  abbrev pub drop_cached : String → Option String → World Store → World Store
  drop_cached id subdomain w = record w {
    cache = invalidate_tenant_lookup redis id subdomain (
        del_for_tenant redis id "tenant-config" "tenant-config"
          (del_for_tenant redis id "tenant-config" "enabled-plugins" w.cache));
  }

  -- The job of a change into or out of the tier 'vip'.
  unfoldable pub enqueue_vip : String → Option String → String → String → Call Store Unit
  unfolding send
  enqueue_vip id subdomain current plan w =
      if plan == "vip"
      then send accepts (vip_migration id (slug_of id subdomain) current) w
      else if current == "vip"
      then send accepts (vip_decommission id (slug_of id subdomain) plan) w
      else (w, ok tt)

  -- The statements after COMMIT, for a new plan that is not the current one.
  unfoldable pub after_commit : String → Option String → String → String → Call Store Unit
  unfolding enqueue_vip send and_then
  after_commit id subdomain current plan w =
      let dropped = drop_cached id subdomain w in
      let capped = record dropped {
        slots = if plan == "vip" || current == "vip" then w.slots else update_cap id plan w.slots;
      } in
      and_then (send accepts (config_reload id plan) capped) (λ _ w'.
        and_then (send accepts (cache_invalidate id) w')
          (λ _ w''. enqueue_vip id subdomain current plan w''))

  -- The view in the answer counts the plugins before the delta.
  abbrev pub updated_view : String → UpdateInput → TenantRow → Database → TenantView
  updated_view id input row db = row_to_tenant (set_clauses input row.tier row) (plugin_count id db)

  unfoldable pub update_changed :
      Option String → String → TenantRow → TenantView → Call Store TenantView
  unfolding after_commit and_then
  update_changed none id row view w = (w, ok view)
  update_changed (some plan) id row view w =
      and_then (after_commit id row.subdomain row.tier plan w) (λ _ w'. (w', ok view))

  unfoldable pub update_found : String → UpdateInput → TenantRow → Call Store TenantView
  unfolding update_db update_changed row_to_tenant set_clauses
  update_found id input row w =
      if is_empty input
      then (w, ok (row_to_tenant row (plugin_count id w.db)))
      else update_changed (changed_plan (given input.plan) row.tier) id row
          (updated_view id input row w.db) (record w { db = update_db id input row.tier w.db })

  unfoldable pub update_row : String → UpdateInput → Option TenantRow → Call Store TenantView
  unfolding update_found
  update_row id input none w = (w, failed not_found)
  update_row id input (some row) w = update_found id input row w

  -- `update`
  unfoldable pub update : String → UpdateInput → Call Store TenantView
  unfolding update_row
  update id input w =
      if is_bad_plan (given input.plan)
      then (w, failed bad_request)
      else update_row id input (find_tenant id w.db) w
