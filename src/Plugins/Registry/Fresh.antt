-- ===== src/Plugins/Registry/Fresh.antt =====
-- The cached list against the table, when a plugin is switched.
use crm_multi_tenant_saas_ar.Prelude.{
  ◌≡◌, refl, ◌∙◌, Bool, String, Option, none, some, List, arith, eq_refl,
}
use crm_multi_tenant_saas_ar.Dal.Context.{TenantStore, require_tenant_id}
use crm_multi_tenant_saas_ar.Dal.Cache
use crm_multi_tenant_saas_ar.Dal.Cache.{Redis, key_of, build_key, del_for_tenant}
use crm_multi_tenant_saas_ar.Admin.Tables.{PluginRow, enabled_names, upsert_plugin}
use crm_multi_tenant_saas_ar.Plugins.Registry.{get_enabled_plugins, keep_enabled}

module _ (redis : Redis (List String)) (context : Option TenantStore) (tenant_id : String)
    (inside : require_tenant_id context ≡ some tenant_id) where
  open redis use {Store}

  abbrev enabled_key : String
  enabled_key = key_of tenant_id "tenant-config" "enabled-plugins"

  reads_hit :
      (rows : List PluginRow) (cache : Store) (plugins : List String)
      → redis.get enabled_key cache ≡ some plugins
      → get_enabled_plugins redis context tenant_id rows cache ≡ some (plugins, cache)
  unfolding get_enabled_plugins Cache.get build_key
  reads_hit rows cache plugins h = ground (arith, inside, h)

  reads_miss :
      (rows : List PluginRow) (cache : Store)
      → redis.get enabled_key cache ≡ none
      → get_enabled_plugins redis context tenant_id rows cache
        ≡ some (
          enabled_names tenant_id rows,
          redis.set enabled_key (enabled_names tenant_id rows) 300 cache,
        )
  unfolding get_enabled_plugins keep_enabled Cache.get Cache.set build_key
  reads_miss rows cache h = ground (arith, inside, h)

  kept :
      (plugins : List String) (cache : Store)
      → redis.get enabled_key (redis.set enabled_key plugins 300 cache) ≡ some plugins
  kept plugins cache =
      redis.get-set enabled_key enabled_key plugins 300 cache ∙ rw (eq_refl enabled_key) refl

  dropped :
      (cache : Store)
      → redis.get enabled_key
          (del_for_tenant redis tenant_id "tenant-config" "enabled-plugins" cache)
        ≡ none
  unfolding del_for_tenant
  dropped cache = redis.get-del enabled_key enabled_key cache ∙ rw (eq_refl enabled_key) refl

  -- In the tenant's context, once a plugin has been switched in the table and the cached list has been
  -- dropped, as `togglePlugin` does it, the next read answers with what the table says, whatever was
  -- cached before; and so does the read after it, from the cache.
  pub get_enabled_plugins-upsert :
      (name : String) (on : Bool) (rows : List PluginRow) (cache : Store)
      → let switched = upsert_plugin tenant_id name on rows in
        let names = enabled_names tenant_id switched in
        let after =
          redis.set enabled_key names 300
            (del_for_tenant redis tenant_id "tenant-config" "enabled-plugins" cache) in
        (get_enabled_plugins redis context tenant_id switched
            (del_for_tenant redis tenant_id "tenant-config" "enabled-plugins" cache)
          ≡ some (names, after))
        × (get_enabled_plugins redis context tenant_id switched after ≡ some (names, after))
  get_enabled_plugins-upsert name on rows cache =
      let switched = upsert_plugin tenant_id name on rows in
      let names = enabled_names tenant_id switched in
      let empty = del_for_tenant redis tenant_id "tenant-config" "enabled-plugins" cache in
      (
        reads_miss switched empty (dropped cache),
        reads_hit switched (redis.set enabled_key names 300 empty) names (kept names empty),
      )

  -- A read that has queried the table before a plugin is switched, and stores its list after the cached
  -- one has been dropped, leaves the old list behind: until it expires every read answers with the
  -- plugins of before, whatever rows the table has by then.
  pub keep_enabled-stale :
      (rows later : List PluginRow) (cache : Store)
      → let old = enabled_names tenant_id rows in
        let raced =
          redis.set enabled_key old 300
            (del_for_tenant redis tenant_id "tenant-config" "enabled-plugins" cache) in
        (keep_enabled redis context old
            (del_for_tenant redis tenant_id "tenant-config" "enabled-plugins" cache)
          ≡ some (old, raced))
        × (get_enabled_plugins redis context tenant_id later raced ≡ some (old, raced))
  unfolding keep_enabled Cache.set build_key
  keep_enabled-stale rows later cache =
      let old = enabled_names tenant_id rows in
      let empty = del_for_tenant redis tenant_id "tenant-config" "enabled-plugins" cache in
      (
        ground (arith, inside),
        reads_hit later (redis.set enabled_key old 300 empty) old (kept old empty),
      )
