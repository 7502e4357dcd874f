-- ===== src/Plugins/Registry.antt =====
-- backend/src/plugins/registry/plugin-registry.service.ts: the cores, and the plugins that are enabled
-- for a tenant.
pub mod Fresh
use crm_multi_tenant_saas_ar.Prelude.{ℕ, Bool, String, Option, none, some, List}
use crm_multi_tenant_saas_ar.Prelude.Dict.{Dict, lookup, insert, has}
use crm_multi_tenant_saas_ar.Dal.Context.{TenantStore}
use crm_multi_tenant_saas_ar.Dal.Cache
use crm_multi_tenant_saas_ar.Dal.Cache.{Redis}
use crm_multi_tenant_saas_ar.Admin.Tables.{PluginRow, enabled_names}

-- The map `cores`, from the names in the manifests.
module _ {Core : Type 0} where
  unfoldable pub register_core : String → Core → Dict Core → Dict Core
  register_core name core cores = insert name core cores

  -- `none` where `NotFoundException` is thrown.
  unfoldable pub get_core_or_throw : String → Dict Core → Option Core
  get_core_or_throw name cores = lookup name cores

  unfoldable pub is_core_registered : String → Dict Core → Bool
  is_core_registered name cores = has name cores

module _ (redis : Redis (List String)) where
  open redis use {Store}

  -- After the query: the list goes to the cache for five minutes. `none` where there is no tenant in
  -- the context, and the cache throws.
  unfoldable pub keep_enabled :
      Option TenantStore → List String → Store → Option (List String × Store)
  unfolding Cache.set
  keep_enabled context plugins cache =
      elim (Cache.set redis context "tenant-config" "enabled-plugins" plugins 300 cache) [
        | none ↦ none
        | some after ↦ some (plugins, after)
      ]

  -- `getEnabledPlugins`
  unfoldable pub get_enabled_plugins :
      Option TenantStore → String → List PluginRow → Store → Option (List String × Store)
  unfolding Cache.get keep_enabled enabled_names
  get_enabled_plugins context tenant_id rows cache =
      elim (Cache.get redis context "tenant-config" "enabled-plugins" cache) [
        | none ↦ none
        | some none ↦ keep_enabled context (enabled_names tenant_id rows) cache
        | some (some cached) ↦ some (cached, cache)
      ]
