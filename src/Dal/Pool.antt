-- ===== src/Dal/Pool.antt =====
-- backend/src/dal/pool/PoolRegistry.ts: the connection pools by tier.
pub mod Routing
use Prim.Native.Char.{Char}
use crm_multi_tenant_saas_ar.Prelude.{
  ℕ, zero, suc, Bool, true, false, not, ◌&&◌, String, Option, none, some, List, [], ◌∷◌, ◌++◌, ◌==◌,
  ◌<>◌, if◌then◌else◌,
}
use crm_multi_tenant_saas_ar.Prelude.Dict.{Dict, lookup, insert, remove, has}
use crm_multi_tenant_saas_ar.Dal.Context.{TenantStore, get_tenant_id}
use crm_multi_tenant_saas_ar.Dal.Uuid.{is_uuid}
use crm_multi_tenant_saas_ar.Dal.Interceptor.{Connection}

-- `PoolCreateOptions`, which also tells the pools apart.
pub record Pool : Type 0 where
  pub connection_string : String
  pub max : ℕ
  pub name : String

pub record Config : Type 0 where
  pub database_url : String
  pub database_metadata_url : Option String
  pub database_pool_max : ℕ
  pub database_metadata_pool_max : ℕ

pub record Registry : Type 0 where
  pub shared_pool : Pool
  pub metadata_pool : Pool
  pub vip_pools : Dict Pool

unfoldable pub build_pool : String → ℕ → String → Pool
build_pool connection_string max name = record {
  connection_string = connection_string;
  max = max;
  name = name;
}

unfoldable pub get_or : Option String → String → String
get_or none d = d
get_or (some s) d = s

-- The constructor.
unfoldable pub init : Config → Registry
unfolding build_pool get_or
init config = record {
  shared_pool = build_pool config.database_url config.database_pool_max "shared";
  metadata_pool =
      build_pool (get_or config.database_metadata_url config.database_url)
        config.database_metadata_pool_max "metadata";
  vip_pools = [];
}

-- `id.slice(0, n)`
unfoldable pub take_chars : ℕ → String → String
take_chars zero s = ""
take_chars (suc n) String.[] = ""
take_chars (suc n) (String.◌∷◌ c s) = String.◌∷◌ c (take_chars n s)

-- `none` where the source throws on an id that is no UUID.
unfoldable pub register_vip_pool : String → String → Registry → Option Registry
unfolding build_pool take_chars
register_vip_pool tenant_id db_url r =
    if is_uuid tenant_id
    then some (
        if has tenant_id r.vip_pools then r else record r {
          vip_pools =
              insert tenant_id (build_pool db_url 30 (◌<>◌ "vip:" (take_chars 8 tenant_id)))
                r.vip_pools;
        })
    else none

unfoldable pub get_vip_pool : String → Registry → Option Pool
get_vip_pool tenant_id r = lookup tenant_id r.vip_pools

-- The registry, and the pool that is ended.
unfoldable pub deregister_vip_pool : String → Registry → Registry × Option Pool
deregister_vip_pool tenant_id r = elim (lookup tenant_id r.vip_pools) [
  | none ↦ (r, none)
  | some pool ↦ (record r { vip_pools = remove tenant_id r.vip_pools }, some pool)
]

-- `get_pool` for a tenant id that may be missing.
unfoldable pub get_pool : String → Option String → Registry → Pool
get_pool tier none r = r.shared_pool
get_pool tier (some tenant_id) r =
    if not (tier == "basic") && not (tier == "premium") && not (tenant_id == "")
    then elim (lookup tenant_id r.vip_pools) [ none ↦ r.shared_pool | some pool ↦ pool ]
    else r.shared_pool

unfoldable pub get_metadata_pool : Registry → Pool
get_metadata_pool r = r.metadata_pool

-- `tenantId ?? TenantContext.getTenantId()`
unfoldable pub effective_tenant_id : Option String → Option TenantStore → Option String
unfolding get_tenant_id
effective_tenant_id none store = get_tenant_id store
effective_tenant_id (some tenant_id) store = some tenant_id

-- The connection is out of the pool in both cases; on the second nothing gives it back.
pub data Client : Type 0 where
  client : Pool → Connection → Client
  invalid_tenant_id : Pool → Client

-- `acquireConnection`; `connect` is what `pool.connect()` returns.
unfoldable pub acquire_connection :
    (Pool → Connection) → String → Option String → Option TenantStore → Registry → Client
unfolding get_pool effective_tenant_id
acquire_connection connect tier tenant_id store r =
    let effective = effective_tenant_id tenant_id store in
    let pool = get_pool tier effective r in
    elim effective [
      | none ↦ client pool (connect pool)
      | some id ↦
          if id == ""
          then client pool (connect pool)
          else if is_uuid id
          then client pool (record { app_tenant_id = id })
          else invalid_tenant_id pool
    ]

-- The wrapped `release`: the session that goes back, if it still answers.
unfoldable pub release : Bool → Connection → Option Connection
release alive c = if alive then some (record c { app_tenant_id = "" }) else none

unfoldable pub acquire_metadata_connection : (Pool → Connection) → Registry → Client
acquire_metadata_connection connect r = client r.metadata_pool (connect r.metadata_pool)

-- `shutdown`: the pools that are ended.
unfoldable pub pools_of : Dict Pool → List Pool
pools_of [] = []
pools_of ((_, pool) ∷ m) = pool ∷ pools_of m

unfoldable pub shutdown : Registry → List Pool
unfolding pools_of
shutdown r = r.shared_pool ∷ r.metadata_pool ∷ pools_of r.vip_pools
