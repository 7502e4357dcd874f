-- ===== src/Tests/AdminRuns.antt =====
-- Runs of the theorems on the administration of tenants.
use crm_multi_tenant_saas_ar.Prelude.{
  ◌≡◌, refl, Bool, true, false, not, ◌&&◌, ◌||◌, String, none, some, List, [], ◌∷◌, ◌==◌, includes,
  if◌then◌else◌,
}
use crm_multi_tenant_saas_ar.Prelude.Dict.{Dict, lookup, insert, remove}
use crm_multi_tenant_saas_ar.Dal.Quota.{no_slots}
use crm_multi_tenant_saas_ar.Dal.Pool.{Pool}
use crm_multi_tenant_saas_ar.Dal.Cache.{
  get_tenant_lookup, set_tenant_lookup, flush_tenant, scan_keys, del_all, lookup_key, when_text,
}
use crm_multi_tenant_saas_ar.Gateway.Resolver.{Cached, whole, Directory, Request, tenant_identifier}
use crm_multi_tenant_saas_ar.Plugins.Dependency.{index_of}
use crm_multi_tenant_saas_ar.Plugins.Dependency.Checks.{Closed}
use crm_multi_tenant_saas_ar.Admin.Tables.{
  TenantRow, PluginRow, Database, is_valid_plan, tier_default_plugins, tier_order, find_tenant,
  taken, enabled_names,
}
use crm_multi_tenant_saas_ar.Admin.Tables.Enabled.{on}
use crm_multi_tenant_saas_ar.Admin.World.{World, Message, ok, failed, conflict}
use crm_multi_tenant_saas_ar.Admin.Toggle.{toggle_plugin}
use crm_multi_tenant_saas_ar.Admin.Toggle.Closure.{catalogue, toggle_plugin-Closed}
use crm_multi_tenant_saas_ar.Admin.Tenants.{
  CreateInput, UpdateInput, new_tenant, without, create, update, offboard, find_one, row_to_tenant,
}
use crm_multi_tenant_saas_ar.Admin.Tenants.Create.{closed?→Closed, create-provisioned}
use crm_multi_tenant_saas_ar.Admin.Tenants.Offboard.{Gone, offboard-Gone}
use crm_multi_tenant_saas_ar.Admin.Tenants.Update.{update-plugins}
use crm_multi_tenant_saas_ar.Admin.Tenants.Vip.{update-breaks_closure}
use crm_multi_tenant_saas_ar.Admin.Downgrade.{
  preview_of, preview_downgrade, confirm_downgrade, check_downgrade, with_preview, not_below,
}
use crm_multi_tenant_saas_ar.Admin.Downgrade.Promise.{confirm-preview}
use crm_multi_tenant_saas_ar.Tests.Samples.{memory, id_a, id_b, tenant_a}

abbrev acme : TenantRow
acme = record {
  id = id_a;
  name = "Acme";
  subdomain = some "acme";
  tier = "premium";
  is_active = true;
  status = "active";
}

abbrev enabled : String → PluginRow
enabled name = record {
  tenant_id = id_a;
  plugin_name = name;
  is_enabled = true;
  initialized = true;
}

abbrev db : Database
db = record {
  tenants = acme ∷ [];
  plugins =
      enabled "customer-data"
      ∷ enabled "customer-care"
      ∷ enabled "analytics"
      ∷ enabled "automation"
      ∷ [];
  admins = [];
}

abbrev shared : Pool
shared = record { connection_string = "postgres://shared"; max = 20; name = "shared" }

abbrev world : World (Dict Cached)
world = record {
  db = db;
  slots = no_slots;
  pools = record { shared_pool = shared; metadata_pool = shared; vip_pools = [] };
  cache = set_tenant_lookup (memory Cached) id_a (some "acme") (whole tenant_a) [];
  sent = [];
}

abbrev up : Message → Bool
up _ = true

abbrev down : Message → Bool
down _ = false

acme_found : find_tenant id_a db ≡ some acme
unfolding find_tenant
acme_found = refl

acme-Closed : Closed catalogue (enabled_names id_a db.plugins)
unfolding enabled_names index_of insert
acme-Closed = closed?→Closed catalogue (enabled_names id_a db.plugins) refl

automation_on : on id_a "automation" db.plugins ≡ true
unfolding enabled_names
automation_on = refl

toggle_plugin-Closed_example : Closed catalogue (
    enabled_names id_a
      (toggle_plugin (memory Cached) up id_a "automation" false world).0.db.plugins)
toggle_plugin-Closed_example =
    toggle_plugin-Closed (memory Cached) up id_a "automation" id_a false world acme-Closed

-- A second tenant.
abbrev input : CreateInput
input = record { name = "Beta"; subdomain = "beta"; plan = "basic"; admin_email = none }

valid_basic : is_valid_plan "basic" ≡ true
unfolding is_valid_plan
valid_basic = refl

beta_free : taken "beta" db ≡ false
unfolding taken
beta_free = refl

create-provisioned_example :
    (find_tenant id_b (create (memory Cached) up id_b input world).0.db
      ≡ some (record (new_tenant id_b input) { status = "active" }))
    × ((tenant j : String)
        → on tenant j (create (memory Cached) up id_b input world).0.db.plugins ≡ (
            (id_b == tenant && includes j (tier_default_plugins "basic"))
            || on tenant j db.plugins))
    × ((tenant : String)
        → Closed catalogue (enabled_names tenant db.plugins)
        → Closed catalogue
            (enabled_names tenant (create (memory Cached) up id_b input world).0.db.plugins))
create-provisioned_example =
    create-provisioned (memory Cached) up id_b input world valid_basic beta_free
      (refl, (refl, (refl, (refl, tt))))

abbrev clashing : CreateInput
clashing = record { name = "Copy"; subdomain = "acme"; plan = "basic"; admin_email = none }

clashes : create (memory Cached) up id_b clashing world ≡ (world, failed conflict)
unfolding create is_valid_plan taken
clashes = refl

-- The end of a tenant, while a broker is down.
abbrev one_reply : List (String × List String)
one_reply = ("0", []) ∷ []

abbrev flushed_cache : Dict Cached
flushed_cache = ("tenant-lookup:acme", whole tenant_a) ∷ []

flushes : flush_tenant (memory Cached) id_a one_reply one_reply world.cache ≡ some flushed_cache
unfolding flush_tenant scan_keys del_all lookup_key remove set_tenant_lookup when_text insert
flushes = refl

offboard-Gone_example :
    Gone
      (memory Cached)
      down
      id_a
      "acme"
      acme
      world
      (offboard (memory Cached) down id_a one_reply one_reply world).0
offboard-Gone_example =
    offboard-Gone (memory Cached) down id_a "acme" one_reply one_reply world acme flushed_cache
      acme_found refl refl flushes

-- Changes of plan.
abbrev to_plan : String → UpdateInput
to_plan plan = record { name = none; status = none; plan = some plan }

update-plugins_example :
    on id_a "analytics" (update (memory Cached) up id_a (to_plan "basic") world).0.db.plugins ≡ (
      if id_a == id_a
      then not (
          includes "analytics"
            (without (tier_default_plugins "premium") (tier_default_plugins "basic")))
        && (includes "analytics"
              (without (tier_default_plugins "basic") (tier_default_plugins "premium"))
            || on id_a "analytics" db.plugins)
      else on id_a "analytics" db.plugins)
update-plugins_example =
    update-plugins (memory Cached) up id_a "basic" id_a "analytics" (to_plan "basic") acme world
      acme_found refl valid_basic refl

update-breaks_closure_example :
    ¬ Closed catalogue
      (enabled_names id_a (update (memory Cached) up id_a (to_plan "basic") world).0.db.plugins)
update-breaks_closure_example =
    update-breaks_closure (memory Cached) up id_a (to_plan "basic") acme world acme_found refl refl
      automation_on

-- A suspension.
abbrev suspension : UpdateInput
suspension = record { name = none; status = some "suspended"; plan = none }

abbrev directory : Directory
directory = record { by_id = λ _. none; by_subdomain = λ _. none }

abbrev request : Request
request = record { method = "POST"; x_tenant_id = some id_a; x_tenant_slug = none; host = none }

identified : tenant_identifier request ≡ some id_a
unfolding tenant_identifier
identified = refl

still_cached : get_tenant_lookup (memory Cached) id_a world.cache ≡ some (whole tenant_a)
unfolding get_tenant_lookup set_tenant_lookup when_text lookup_key insert lookup
still_cached = refl

-- A downgrade.
previewed : preview_downgrade id_a "basic" db ≡ ok (preview_of "premium" "basic")
unfolding preview_downgrade with_preview check_downgrade find_one row_to_tenant find_tenant
    not_below tier_order
previewed = refl

confirm-preview_example :
    on id_a "customer-care" (confirm_downgrade (memory Cached) up id_a "basic" world).0.db.plugins
    ≡ (not (
          id_a == id_a
          && includes "customer-care" (preview_of "premium" "basic").plugins_to_disable)
        && on id_a "customer-care" db.plugins)
confirm-preview_example =
    confirm-preview (memory Cached) up id_a "basic" id_a "customer-care" world
      (preview_of "premium" "basic") previewed
