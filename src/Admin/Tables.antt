-- ===== src/Admin/Tables.antt =====
-- The tables `tenants`, `tenant_plugins` and `tenant_admins` as the statements of
-- backend/src/api/v1/admin/tenants/admin-tenants.service.ts read and write them, and the constants
-- of its plans. Timestamps that no statement of the service reads are left out.
pub mod Enabled
use crm_multi_tenant_saas_ar.Prelude.{
  ℕ, ◌+◌, ◌≡◌, Bool, true, false, not, ◌&&◌, String, Option, none, some, List, [], ◌∷◌, ◌++◌, ◌==◌,
  map, filter, find, any, includes, head?, if◌then◌else◌,
}

pub record TenantRow : Type 0 where
  pub id : String
  pub name : String
  pub subdomain : Option String
  pub tier : String
  pub is_active : Bool
  pub status : String

pub record PluginRow : Type 0 where
  pub tenant_id : String
  pub plugin_name : String
  pub is_enabled : Bool
  -- `initialized_at` is set.
  pub initialized : Bool

pub record AdminRow : Type 0 where
  pub tenant_id : String
  pub email : String

pub record Database : Type 0 where
  pub tenants : List TenantRow
  pub plugins : List PluginRow
  pub admins : List AdminRow

-- `VALID_PLANS.includes(plan)`
unfoldable pub is_valid_plan : String → Bool
is_valid_plan plan = includes plan ("basic" ∷ "premium" ∷ "enterprise" ∷ "vip" ∷ [])

-- `TIER_DEFAULT_PLUGINS[tier] ?? []`
unfoldable pub tier_default_plugins : String → List String
tier_default_plugins tier =
    if tier == "basic"
    then "customer-data" ∷ []
    else if tier == "premium"
    then "customer-data" ∷ "customer-care" ∷ "analytics" ∷ []
    else if tier == "enterprise"
    then "customer-data" ∷ "customer-care" ∷ "analytics" ∷ "marketing" ∷ []
    else if tier == "vip"
    then "customer-data" ∷ "customer-care" ∷ "analytics" ∷ "marketing" ∷ "automation" ∷ []
    else []

-- `TIER_ORDER[tier]`
unfoldable pub tier_order : String → Option ℕ
tier_order tier =
    if tier == "basic"
    then some 0
    else if tier == "premium"
    then some 1
    else if tier == "enterprise"
    then some 2
    else if tier == "vip"
    then some 3
    else none

abbrev pub row_of : String → TenantRow → Bool
row_of id t = t.id == id

-- `SELECT ... FROM tenants WHERE id = $1`
unfoldable pub find_tenant : String → Database → Option TenantRow
find_tenant id db = find (row_of id) db.tenants

abbrev pub change_row : String → (TenantRow → TenantRow) → TenantRow → TenantRow
change_row id f t = if t.id == id then f t else t

-- `UPDATE tenants SET ... WHERE id = $1`
unfoldable pub update_tenant : String → (TenantRow → TenantRow) → Database → Database
update_tenant id f db = record db { tenants = map (change_row id f) db.tenants }

abbrev pub has_subdomain : String → TenantRow → Bool
has_subdomain sub t = elim t.subdomain [ none ↦ false | some s ↦ s == sub ]

-- What the UNIQUE constraint on `subdomain` refuses.
unfoldable pub taken : String → Database → Bool
taken sub db = any (has_subdomain sub) db.tenants

abbrev pub plugin_of : String → String → PluginRow → Bool
plugin_of id name r = r.tenant_id == id && r.plugin_name == name

abbrev pub plugin_rows : String → List PluginRow → List PluginRow
plugin_rows id rows = filter (λ r. r.tenant_id == id) rows

-- `rows.filter((r) => r.is_enabled).map((r) => r.plugin_name)` of the tenant's rows.
unfoldable pub enabled_names : String → List PluginRow → List String
enabled_names id [] = []
enabled_names id (r ∷ rows) =
    let rest = enabled_names id rows in
    if r.tenant_id == id && r.is_enabled then r.plugin_name ∷ rest else rest

unfoldable pub set_rows : String → String → Bool → List PluginRow → List PluginRow
set_rows id name on [] = []
set_rows id name on (r ∷ rows) =
    (if plugin_of id name r then record r { is_enabled = on } else r) ∷ set_rows id name on rows

abbrev pub new_plugin : String → String → Bool → PluginRow
new_plugin id name on = record {
  tenant_id = id;
  plugin_name = name;
  is_enabled = on;
  initialized = false;
}

-- `INSERT INTO tenant_plugins ... ON CONFLICT (tenant_id, plugin_name) DO UPDATE SET is_enabled`
unfoldable pub upsert_plugin : String → String → Bool → List PluginRow → List PluginRow
unfolding set_rows
upsert_plugin id name on rows =
    if any (plugin_of id name) rows then set_rows id name on rows else new_plugin id name on ∷ rows

-- `INSERT INTO tenant_plugins ... ON CONFLICT DO NOTHING`
unfoldable pub insert_plugin : String → String → List PluginRow → List PluginRow
insert_plugin id name rows =
    if any (plugin_of id name) rows then rows else new_plugin id name true ∷ rows

unfoldable pub insert_plugins : String → List String → List PluginRow → List PluginRow
unfolding insert_plugin
insert_plugins id [] rows = rows
insert_plugins id (name ∷ names) rows = insert_plugins id names (insert_plugin id name rows)

-- The upsert over `unnest($2::text[])`.
unfoldable pub enable_all : String → List String → List PluginRow → List PluginRow
unfolding upsert_plugin
enable_all id [] rows = rows
enable_all id (name ∷ names) rows = enable_all id names (upsert_plugin id name true rows)

-- `UPDATE tenant_plugins SET is_enabled = false WHERE tenant_id = $1 AND plugin_name = ANY($2)`
unfoldable pub disable_any : String → List String → List PluginRow → List PluginRow
disable_any id names [] = []
disable_any id names (r ∷ rows) =
    (if r.tenant_id == id && includes r.plugin_name names
      then record r { is_enabled = false }
      else r)
    ∷ disable_any id names rows

-- `UPDATE tenant_plugins SET is_enabled = false WHERE tenant_id = $1`
unfoldable pub disable_all : String → List PluginRow → List PluginRow
disable_all id [] = []
disable_all id (r ∷ rows) =
    (if r.tenant_id == id then record r { is_enabled = false } else r) ∷ disable_all id rows
