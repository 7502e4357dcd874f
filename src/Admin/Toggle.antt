-- ===== src/Admin/Toggle.antt =====
-- `getPlugins` and `togglePlugin` of
-- backend/src/api/v1/admin/tenants/admin-tenants.service.ts, and the processor in
-- backend/src/plugins/init/plugin-init.processor.ts that initialises a plugin.
pub mod Closure
use crm_multi_tenant_saas_ar.Prelude.{
  ℕ, ◌≡◌, Bool, true, false, not, ◌&&◌, String, Option, none, some, List, [], ◌∷◌, ◌++◌, ◌==◌, map,
  find, if◌then◌else◌,
}
use crm_multi_tenant_saas_ar.Dal.Cache.{Redis, del_for_tenant}
use crm_multi_tenant_saas_ar.Gateway.Resolver.{Cached}
use crm_multi_tenant_saas_ar.Plugins.Manifest.{
  PluginManifest, PluginResourceLimits, built_in_manifests,
}
use crm_multi_tenant_saas_ar.Plugins.Dependency.{
  Index, index_of, get_missing_deps, get_blocking_dependents,
}
use crm_multi_tenant_saas_ar.Admin.Tables.{
  Database, PluginRow, plugin_of, plugin_rows, enabled_names, upsert_plugin,
}
use crm_multi_tenant_saas_ar.Admin.World.{
  World, Message, plugin_init, audit, AdminError, not_found, plugin_dependency, Answer, ok, failed,
  Call, send, send_quietly, and_then,
}

pub record PluginView : Type 0 where
  pub id : String
  pub name : String
  pub version : String
  pub enabled : Bool
  pub permissions : List String
  pub limits : PluginResourceLimits

-- `enabledMap.get(m.name) ?? false`: of several rows for one plugin the last one counts.
abbrev pub enabled_in : String → List PluginRow → Bool
enabled_in name [] = false
enabled_in name (r ∷ rows) =
    let rest = enabled_in name rows in
    let later = find (λ r. r.plugin_name == name) rows in
    if r.plugin_name == name then elim later [ none ↦ r.is_enabled | some _ ↦ rest ] else rest

unfoldable pub get_plugins : String → Database → List PluginView
get_plugins tenant_id db =
    map
      (λ m. record {
        id = m.name;
        name = m.name;
        version = m.version;
        enabled = enabled_in m.name (plugin_rows tenant_id db.plugins);
        permissions = m.permissions;
        limits = m.limits;
      })
      built_in_manifests

-- What `togglePlugin` answers; `initializing` where the field is there.
pub record Toggled : Type 0 where
  pub plugin_id : String
  pub enabled : Bool
  pub initializing : Option Bool

-- `!targetRow?.initialized_at`
abbrev pub is_first_enable : String → String → List PluginRow → Bool
is_first_enable tenant_id plugin_id rows = elim (find (plugin_of tenant_id plugin_id) rows) [
  | none ↦ true
  | some r ↦ not r.initialized
]

module _ (redis : Redis Cached) (accepts : Message → Bool) where
  open redis use {Store}

  abbrev pub upsert : String → String → Bool → World Store → World Store
  upsert tenant_id plugin_id on w = record w {
    db = record w.db { plugins = upsert_plugin tenant_id plugin_id on w.db.plugins };
  }

  abbrev pub drop_enabled_plugins : String → World Store → World Store
  drop_enabled_plugins tenant_id w = record w {
    cache = del_for_tenant redis tenant_id "tenant-config" "enabled-plugins" w.cache;
  }

  -- The statements after `queue.add('init', ...)`: the audit, whose failure is only logged, and the
  -- cached list.
  unfoldable pub announce : String → String → String → World Store → World Store
  unfolding send_quietly
  announce tenant_id plugin_id action w =
      drop_enabled_plugins tenant_id (send_quietly accepts (audit tenant_id action plugin_id) w)

  -- The branch that enables, after the check.
  unfoldable pub enable : String → String → Call Store Toggled
  unfolding announce send and_then
  enable tenant_id plugin_id w =
      let first = is_first_enable tenant_id plugin_id w.db.plugins in
      let stored = upsert tenant_id plugin_id true w in
      and_then
        (if first then send accepts (plugin_init tenant_id plugin_id) stored else (stored, ok tt))
        (λ _ w'. (
          announce tenant_id plugin_id "plugin.enabled" w',
          ok (record { plugin_id = plugin_id; enabled = true; initializing = some first }),
        ))

  unfoldable pub disable : String → String → Call Store Toggled
  unfolding announce
  disable tenant_id plugin_id w = (
    announce tenant_id plugin_id "plugin.disabled" (upsert tenant_id plugin_id false w),
    ok (record { plugin_id = plugin_id; enabled = false; initializing = none }),
  )

  -- The list of missing or of blocking plugins stops the call.
  unfoldable pub enable_checked : String → String → List String → Call Store Toggled
  enable_checked tenant_id plugin_id [] w = enable tenant_id plugin_id w
  enable_checked tenant_id plugin_id (p ∷ ps) w = (w, failed (plugin_dependency (p ∷ ps) []))

  unfoldable pub disable_checked : String → String → List String → Call Store Toggled
  disable_checked tenant_id plugin_id [] w = disable tenant_id plugin_id w
  disable_checked tenant_id plugin_id (p ∷ ps) w = (w, failed (plugin_dependency [] (p ∷ ps)))

  -- `togglePlugin` for the manifest that was found. There is no transaction: each statement is
  -- committed by itself.
  unfoldable pub toggle_found : Option PluginManifest → String → String → Bool → Call Store Toggled
  unfolding enable_checked disable_checked
  toggle_found none tenant_id plugin_id on w = (w, failed not_found)
  toggle_found (some _) tenant_id plugin_id true w =
      enable_checked tenant_id plugin_id
        (get_missing_deps plugin_id (enabled_names tenant_id w.db.plugins)
          (index_of built_in_manifests))
        w
  toggle_found (some _) tenant_id plugin_id false w =
      disable_checked tenant_id plugin_id
        (get_blocking_dependents plugin_id (enabled_names tenant_id w.db.plugins)
          (index_of built_in_manifests))
        w

  -- `togglePlugin`
  unfoldable pub toggle_plugin : String → String → Bool → Call Store Toggled
  unfolding toggle_found
  toggle_plugin tenant_id plugin_id on w =
      toggle_found (find (λ m. m.name == plugin_id) built_in_manifests) tenant_id plugin_id on w

-- `PluginInitProcessor.process`: `none` where it throws and BullMQ runs the job again.
abbrev pub mark_initialized : String → String → List PluginRow → List PluginRow
mark_initialized tenant_id plugin_id rows =
    map (λ r. if plugin_of tenant_id plugin_id r then record r { initialized = true } else r) rows

unfoldable pub process_init : String → String → Database → Option Database
process_init tenant_id plugin_id db = elim (find (plugin_of tenant_id plugin_id) db.plugins) [
  | none ↦ none
  | some r ↦
      if r.initialized
      then some db
      else some (record db { plugins = mark_initialized tenant_id plugin_id db.plugins })
]
