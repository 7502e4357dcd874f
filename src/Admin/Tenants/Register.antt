-- ===== src/Admin/Tenants/Register.antt =====
-- `list`, `findOne` and `create` of
-- backend/src/api/v1/admin/tenants/admin-tenants.service.ts.
use crm_multi_tenant_saas_ar.Prelude.{
  ℕ, ◌-◌, ◌*◌, Bool, true, false, not, String, Option, none, some, List, ◌∷◌, ◌==◌, map, filter,
  take, drop, length, if◌then◌else◌,
}
use crm_multi_tenant_saas_ar.Dal.Quota.{register}
use crm_multi_tenant_saas_ar.Dal.Cache.{Redis, set_tenant_lookup}
use crm_multi_tenant_saas_ar.Gateway.Resolver.{Cached, partial}
use crm_multi_tenant_saas_ar.Admin.Tables.{
  TenantRow, AdminRow, Database, is_valid_plan, tier_default_plugins, find_tenant, update_tenant,
  taken, enabled_names, insert_plugins,
}
use crm_multi_tenant_saas_ar.Admin.World.{
  World, Message, welcome, bad_request, conflict, ok, failed, Call, send_quietly,
}

-- What `rowToTenant` makes of a row and a count.
pub record TenantView : Type 0 where
  pub id : String
  pub name : String
  pub subdomain : Option String
  pub plan : String
  pub status : String
  pub plugin_count : ℕ

unfoldable pub row_to_tenant : TenantRow → ℕ → TenantView
row_to_tenant row count = record {
  id = row.id;
  name = row.name;
  subdomain = row.subdomain;
  plan = row.tier;
  status = row.status;
  plugin_count = count;
}

-- `COUNT(*) ... WHERE is_enabled` of a tenant.
abbrev pub plugin_count : String → Database → ℕ
plugin_count id db = length (enabled_names id db.plugins)

-- `findOne`; `none` where it throws `NotFoundException`.
unfoldable pub find_one : String → Database → Option TenantView
unfolding row_to_tenant
find_one id db = elim (find_tenant id db) [
  | none ↦ none
  | some row ↦ some (row_to_tenant row (plugin_count id db))
]

-- `t.subdomain != 'system'` in SQL: not true of a row whose subdomain is null.
abbrev pub is_listed : TenantRow → Bool
is_listed t = elim t.subdomain [ none ↦ false | some s ↦ not (s == "system") ]

-- `list` without a search: a page of the listed tenants, and how many are listed. The rows stand
-- from the newest to the oldest.
unfoldable pub list : ℕ → ℕ → Database → List TenantView × ℕ
unfolding row_to_tenant
list page limit db =
    let rows = filter is_listed db.tenants in
    (
      map (λ t. row_to_tenant t (plugin_count t.id db))
          (take limit (drop ((page - 1) * limit) rows)),
      length rows,
    )

pub record CreateInput : Type 0 where
  pub name : String
  pub subdomain : String
  pub plan : String
  pub admin_email : Option String

-- A field that is there and not empty.
abbrev pub given : Option String → Option String
given none = none
given (some s) = if s == "" then none else some s

-- The row of a new tenant, as the INSERT leaves it.
abbrev pub new_tenant : String → CreateInput → TenantRow
new_tenant id input = record {
  id = id;
  name = input.name;
  subdomain = some input.subdomain;
  tier = input.plan;
  is_active = true;
  status = "provisioning";
}

abbrev pub insert_admin : String → Option String → List AdminRow → List AdminRow
insert_admin id none admins = admins
insert_admin id (some email) admins = record { tenant_id = id; email = email } ∷ admins

-- The transaction of `create`, for the key that the database draws.
unfoldable pub provision : String → CreateInput → Database → Database
unfolding update_tenant insert_plugins tier_default_plugins
provision id input db =
    update_tenant id (λ t. record t { status = "active" })
      (record {
        tenants = new_tenant id input ∷ db.tenants;
        plugins = insert_plugins id (tier_default_plugins input.plan) db.plugins;
        admins = insert_admin id (given input.admin_email) db.admins;
      })

module _ (redis : Redis Cached) (accepts : Message → Bool) where
  open redis use {Store}

  abbrev pub register_unless_vip : String → String → World Store → World Store
  register_unless_vip id plan w =
      if plan == "vip" then w else record w { slots = register id plan w.slots }

  abbrev pub warm : String → Option String → World Store → World Store
  warm id subdomain w = record w {
    cache = set_tenant_lookup redis id subdomain (partial id subdomain) w.cache;
  }

  abbrev pub welcome_to : String → Option String → World Store → World Store
  welcome_to id none w = w
  welcome_to id (some email) w = send_quietly accepts (welcome id email) w

  -- `create`; the key is what the database draws. `NOW()` and the rows' defaults aside, the INSERT
  -- can fail on the subdomain only.
  unfoldable pub create : String → CreateInput → Call Store TenantView
  unfolding provision row_to_tenant send_quietly
  create id input w =
      if not (is_valid_plan input.plan)
      then (w, failed bad_request)
      else if taken input.subdomain w.db
      then (w, failed conflict)
      else (let stored = record w { db = provision id input w.db } in
          let view =
            row_to_tenant (record (new_tenant id input) { status = "active" })
              (length (tier_default_plugins input.plan)) in
          (
            welcome_to id (given input.admin_email)
                (warm id (some input.subdomain) (register_unless_vip id input.plan stored)),
            ok view,
          ))
