-- ===== src/Dal/Pool/Routing.antt =====
-- Which pool a tenant's connections come from, over the life of its dedicated pool.
use crm_multi_tenant_saas_ar.Prelude.{
  ◌≡◌, true, String, none, some, ◌==◌, arith, eq_iff, Option-cases, ◌<>◌, if◌then◌else◌, inl, inr,
}
use crm_multi_tenant_saas_ar.Prelude.Dict.{lookup, lookup-insert, lookup-remove}
use crm_multi_tenant_saas_ar.Dal.Uuid.{is_uuid}
use crm_multi_tenant_saas_ar.Dal.Pool.{
  Registry, build_pool, take_chars, register_vip_pool, get_vip_pool, deregister_vip_pool, get_pool,
}

-- After a first registration the tenant has its pool, a second one changes nothing, and no other
-- tenant's pool is touched.
pub lookup-register_vip_pool :
    (id other url : String) (r r' : Registry)
    → register_vip_pool id url r ≡ some r'
    → (is_uuid id ≡ true)
      × (r'.shared_pool ≡ r.shared_pool)
      × (get_vip_pool other r' ≡ (
          if id == other
          then elim (get_vip_pool id r) [
            | none ↦ some (build_pool url 30 (◌<>◌ "vip:" (take_chars 8 id)))
            | some pool ↦ some pool
          ]
          else get_vip_pool other r))
unfolding register_vip_pool get_vip_pool
lookup-register_vip_pool id other url r r' h = elim (Option-cases (lookup id r.vip_pools)) [
  | inl e ↦ ground (
    arith,
    eq_iff id other,
    lookup-insert id other (build_pool url 30 (◌<>◌ "vip:" (take_chars 8 id))) r.vip_pools,
  )
  | inr (pool, e) ↦ ground (arith, eq_iff id other)
]

-- After `deregisterVipPool` the tenant is served by the shared pool at every tier, every other
-- tenant as before, and the pool that is ended is the one that the tenant had.
pub get_pool-deregister_vip_pool :
    (id other tier : String) (r : Registry)
    → ((deregister_vip_pool id r).1 ≡ get_vip_pool id r)
      × (get_pool tier (some other) (deregister_vip_pool id r).0
          ≡ (if id == other then r.shared_pool else get_pool tier (some other) r))
unfolding deregister_vip_pool get_vip_pool get_pool
get_pool-deregister_vip_pool id other tier r = elim (Option-cases (lookup id r.vip_pools)) [
  | inl e ↦ ground (arith, eq_iff id other)
  | inr (pool, e) ↦ ground (arith, eq_iff id other, lookup-remove id other r.vip_pools)
]
