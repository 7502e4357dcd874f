-- ===== src/Dal/Cache.antt =====
-- backend/src/dal/cache/CacheManager.ts: the tenant-aware wrapper of Redis.
pub mod Keys
pub mod Isolation
pub mod Flush
use crm_multi_tenant_saas_ar.Prelude.{
  ℕ, ◌≡◌, Bool, String, Option, none, some, List, [], ◌∷◌, ◌++◌, ◌==◌, ◌<>◌, if◌then◌else◌,
}
use crm_multi_tenant_saas_ar.Dal.Context.{TenantStore, require_tenant_id}

-- The Redis commands that the wrapper calls, and what their documentation says of them: a read
-- finds the last value written under the key and not deleted since. Expiry is not seen within
-- one call. Values stand for their MessagePack bytes.
pub record Redis (V : Type 0) : Type 1 where
  pub Store : Type 0
  pub get : String → Store → Option V
  -- `SET key value EX seconds`
  pub set : String → V → ℕ → Store → Store
  pub del : String → Store → Store
  pub get-set :
      (k j : String) (v : V) (ttl : ℕ) (s : Store)
      → get j (set k v ttl s) ≡ (if k == j then some v else get j s)
  pub get-del : (k j : String) (s : Store) → get j (del k s) ≡ (if k == j then none else get j s)

abbrev pub default_ttl_seconds : ℕ
default_ttl_seconds = 300

-- `t:${tenantId}:${resource}:${id}`
unfoldable pub key_of : String → String → String → String
key_of tenant_id resource id = "t:" <> tenant_id <> ":" <> resource <> ":" <> id

-- `none` where there is no tenant, and the source throws.
unfoldable pub build_key : Option TenantStore → String → String → Option String
unfolding key_of
build_key store resource id = elim (require_tenant_id store) [
  | none ↦ none
  | some tenant_id ↦ some (key_of tenant_id resource id)
]

unfoldable pub lookup_key : String → String
lookup_key identifier = "tenant-lookup:" <> identifier

-- The loop of `scanKeys` over the replies of Redis, a cursor and some keys each; `none` where the
-- replies end before the cursor is back at '0'.
unfoldable pub scan_keys : List (String × List String) → Option (List String)
scan_keys [] = none
scan_keys ((cursor, keys) ∷ replies) =
    let rest = scan_keys replies in
    if cursor == "0" then some keys else elim rest [ none ↦ none | some more ↦ some (keys ++ more) ]

module _ {V : Type 0} (redis : Redis V) where
  open redis use {Store, get as redis_get, set as redis_set, del as redis_del}

  -- `none` for the exception, `some none` for `null`.
  unfoldable pub get : Option TenantStore → String → String → Store → Option (Option V)
  get context resource id s = elim (build_key context resource id) [
    | none ↦ none
    | some key ↦ some (redis_get key s)
  ]

  unfoldable pub set : Option TenantStore → String → String → V → ℕ → Store → Option Store
  set context resource id value ttl s = elim (build_key context resource id) [
    | none ↦ none
    | some key ↦ some (redis_set key value ttl s)
  ]

  unfoldable pub del : Option TenantStore → String → String → Store → Option Store
  del context resource id s = elim (build_key context resource id) [
    | none ↦ none
    | some key ↦ some (redis_del key s)
  ]

  unfoldable pub del_for_tenant : String → String → String → Store → Store
  del_for_tenant tenant_id resource id s = redis_del (key_of tenant_id resource id) s

  -- `redis.del(...keys)`
  unfoldable pub del_all : List String → Store → Store
  del_all [] s = s
  del_all (k ∷ ks) s = del_all ks (redis_del k s)

  -- `invalidateResource`, given the replies to its SCAN: `none` for the exception or for a SCAN
  -- that has not ended.
  unfoldable pub invalidate_resource :
      Option TenantStore → List (String × List String) → Store → Option Store
  invalidate_resource context replies s = elim (require_tenant_id context) [
    | none ↦ none
    | some tenant_id ↦ elim (scan_keys replies) [ none ↦ none | some keys ↦ some (del_all keys s) ]
  ]

  -- `flushTenant`, given the replies to its two SCANs.
  unfoldable pub flush_tenant :
      String → List (String × List String) → List (String × List String) → Store → Option Store
  flush_tenant tenant_id application rate s = elim (scan_keys application) [
    | none ↦ none
    | some keys ↦ elim (scan_keys rate) [
      | none ↦ none
      | some buckets ↦ some (redis_del (lookup_key tenant_id) (del_all buckets (del_all keys s)))
    ]
  ]

  -- `if (subdomain)`: neither null nor empty.
  unfoldable pub when_text : Option String → (String → Store → Store) → Store → Store
  when_text none f s = s
  when_text (some text) f s = if text == "" then s else f text s

  -- `setTenantLookup` of a value whose fields `id` and `subdomain` are given.
  unfoldable pub set_tenant_lookup : String → Option String → V → Store → Store
  unfolding when_text
  set_tenant_lookup id subdomain tenant s =
      when_text subdomain (λ sub. redis_set (lookup_key sub) tenant 300)
        (redis_set (lookup_key id) tenant 300 s)

  unfoldable pub get_tenant_lookup : String → Store → Option V
  get_tenant_lookup identifier s = redis_get (lookup_key identifier) s

  unfoldable pub invalidate_tenant_lookup : String → Option String → Store → Store
  unfolding when_text
  invalidate_tenant_lookup tenant_id subdomain s =
      when_text subdomain (λ sub. redis_del (lookup_key sub)) (redis_del (lookup_key tenant_id) s)
