-- ===== src/Gateway/Resolver.antt =====
-- backend/src/gateway/middleware/tenant-resolver.middleware.ts and
-- backend/src/gateway/dto/resolved-tenant.dto.ts: from a request to its tenant.
pub mod Gate
pub mod Lookup
use crm_multi_tenant_saas_ar.Prelude.{
  ℕ, ◌≡◌, Bool, true, false, not, ◌&&◌, ◌||◌, String, Option, none, some, List, [], ◌∷◌, ◌==◌,
  if◌then◌else◌,
}
use crm_multi_tenant_saas_ar.Dal.Context.{TenantStore, run}
use crm_multi_tenant_saas_ar.Dal.Uuid.{is_uuid}
use crm_multi_tenant_saas_ar.Dal.Cache.{Redis, set_tenant_lookup, get_tenant_lookup}
use crm_multi_tenant_saas_ar.Gateway.Host.{extract_subdomain}

pub record ResolvedTenant : Type 0 where
  pub id : String
  pub subdomain : Option String
  pub name : String
  pub tier : String
  pub status : String
  pub db_url : Option String
  pub is_active : Bool
  pub allowed_origins : List String

-- What may lie under a lookup key: the object that the resolver writes, or the one with two fields
-- that `AdminTenantsService.create` writes.
pub data Cached : Type 0 where
  whole : ResolvedTenant → Cached
  partial : String → Option String → Cached

-- A row of `tenants`; of its `config` only the entry `allowedOrigins` is read, `none` where that
-- is no array.
pub record TenantRow : Type 0 where
  pub id : String
  pub name : String
  pub subdomain : Option String
  pub tier : String
  pub status : String
  pub db_url : Option String
  pub is_active : Bool
  pub allowed_origins : Option (List String)

-- The two queries of PostgreSQL that the resolver sends.
pub record Directory : Type 0 where
  pub by_id : String → Option TenantRow
  pub by_subdomain : String → Option TenantRow

pub record Request : Type 0 where
  pub method : String
  pub x_tenant_id : Option String
  pub x_tenant_slug : Option String
  pub host : Option String

unfoldable pub resolved_of : TenantRow → ResolvedTenant
resolved_of row = record {
  id = row.id;
  subdomain = row.subdomain;
  name = row.name;
  tier = row.tier;
  status = row.status;
  db_url = row.db_url;
  is_active = row.is_active;
  allowed_origins = elim row.allowed_origins [ none ↦ [] | some origins ↦ origins ];
}

-- `a ?? b`
abbrev pub or_else {ℓ} : {A : Type ℓ} → Option A → Option A → Option A
or_else none b = b
or_else (some a) b = some a

abbrev pub text_or : Option String → String → String
text_or none d = d
text_or (some s) d = s

unfoldable pub tenant_identifier : Request → Option String
tenant_identifier req =
    or_else req.x_tenant_id (or_else req.x_tenant_slug (extract_subdomain (text_or req.host "")))

-- The row that the query of `lookupTenant` finds.
unfoldable pub find_row : Directory → String → Option TenantRow
find_row dir identifier =
    if is_uuid identifier then dir.by_id identifier else dir.by_subdomain identifier

pub data Outcome : Type 0 where
  -- `next()` with no tenant.
  skipped : Outcome
  -- `next()` inside the context of the tenant; whether the billing warning is set.
  passed : Bool → ResolvedTenant → TenantStore → Outcome
  -- An exception or a response with this HTTP status.
  refused : ℕ → Outcome

abbrev pub is_read : String → Bool
is_read method = method == "GET" || (method == "OPTIONS" || method == "HEAD")

-- The checks after `const { status } = tenant`.
unfoldable pub status_gate : String → String → ResolvedTenant → Outcome
unfolding run
status_gate method status tenant =
    if status == ""
    then refused 500
    else if status == "provisioning" || status == "migrating"
    then refused 503
    else if status == "offboarding"
    then refused 401
    else if status == "offboarded"
    then refused 404
    else if status == "suspended" && not (is_read method)
    then refused 402
    else if not tenant.is_active && status == "active"
    then refused 403
    else passed (status == "grace_period") tenant (run tenant.id tenant.tier)

-- An object with no field `status` is refused by the first check.
unfoldable pub gate : String → Option Cached → Outcome
unfolding status_gate
gate method none = refused 404
gate method (some (partial _ _)) = refused 500
gate method (some (whole tenant)) = status_gate method tenant.status tenant

module _ (redis : Redis Cached) (dir : Directory) where
  open redis use {Store}

  -- `lookupTenant`
  unfoldable pub lookup_tenant : String → Store → Option Cached × Store
  unfolding find_row resolved_of
  lookup_tenant identifier s = elim (get_tenant_lookup redis identifier s) [
    | some cached ↦ (some cached, s)
    | none ↦ elim (find_row dir identifier) [
      | none ↦ (none, s)
      | some row ↦ (
        some (whole (resolved_of row)),
        set_tenant_lookup redis row.id row.subdomain (whole (resolved_of row)) s,
      )
    ]
  ]

  unfoldable pub resolve_as : Option String → String → Store → Outcome × Store
  unfolding lookup_tenant gate
  resolve_as none method s = (refused 400, s)
  resolve_as (some identifier) method s =
      if identifier == ""
      then (refused 400, s)
      else (let (found, s') = lookup_tenant identifier s in (gate method found, s'))

  -- `use`
  unfoldable pub resolve : Request → Store → Outcome × Store
  unfolding resolve_as
  resolve req s =
      if req.method == "OPTIONS"
      then (skipped, s)
      else resolve_as (tenant_identifier req) req.method s
