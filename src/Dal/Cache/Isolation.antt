-- ===== src/Dal/Cache/Isolation.antt =====
-- What one tenant writes to the cache, another never reads; and the tenant lookup entries.
use crm_multi_tenant_saas_ar.Prelude.{
  ℕ, ◌≡◌, ◌≢◌, true, false, String, none, some, ◌==◌, arith, eq_iff, eq_refl, if◌then◌else◌,
  Option-cases, inl, inr, ne→==,
}
use crm_multi_tenant_saas_ar.Dal.Context.{TenantStore, require_tenant_id}
use crm_multi_tenant_saas_ar.Dal.Uuid.{is_uuid}
use crm_multi_tenant_saas_ar.Dal.Cache.{
  Redis, key_of, lookup_key, build_key, get, set, set_tenant_lookup, get_tenant_lookup,
  invalidate_tenant_lookup, when_text,
}
use crm_multi_tenant_saas_ar.Dal.Cache.Keys.{key_of-ne, lookup_key_inj}

-- Inside a request of a tenant the key is that of the tenant.
build_key-of :
    (t : TenantStore) (resource id : String)
    → (t.tenant_id == "") ≡ false
    → build_key (some t) resource id ≡ some (key_of t.tenant_id resource id)
unfolding build_key require_tenant_id
build_key-of t resource id named = ground arith

module _ {V : Type 0} (redis : Redis V) where
  open redis use {Store}

  -- A value set in a request of a tenant is what the same request then gets.
  pub get-set_self :
      (t : TenantStore) (resource id : String) (v : V) (ttl : ℕ) (s s' : Store)
      → set redis (some t) resource id v ttl s ≡ some s'
      → get redis (some t) resource id s' ≡ some (some v)
  unfolding set get
  get-set_self t resource id v ttl s s' h = elim (Option-cases (build_key (some t) resource id)) [
    | inl e ↦ ground arith
    | inr (key, e) ↦ ground (arith, eq_refl key, redis.get-set key key v ttl s)
  ]

  -- A write in a request of one tenant leaves every read of another tenant as it was, if their ids
  -- are different UUIDs; and a read or a write without a tenant is refused.
  pub get-set_other :
      (t u : TenantStore) (resource id resource' id' : String) (v : V) (ttl : ℕ) (s s' : Store)
      → is_uuid t.tenant_id ≡ true
      → is_uuid u.tenant_id ≡ true
      → t.tenant_id ≢ u.tenant_id
      → set redis (some t) resource id v ttl s ≡ some s'
      → get redis (some u) resource' id' s' ≡ get redis (some u) resource' id' s
  unfolding set get build_key require_tenant_id
  get-set_other t u resource id resource' id' v ttl s s' ht hu ne h =
      let apart =
        ne→== (key_of t.tenant_id resource id) (key_of u.tenant_id resource' id')
          (key_of-ne t.tenant_id u.tenant_id resource resource' id id' ht hu ne) in
      ground (
        arith,
        apart,
        redis.get-set (key_of t.tenant_id resource id) (key_of u.tenant_id resource' id') v ttl s,
      )

  -- A stored tenant is found by its id, and by its subdomain where it has one; the other lookups
  -- are as before.
  pub get_tenant_lookup-set :
      (id sub other : String) (v : V) (s : Store)
      → (sub == "") ≡ false
      → get_tenant_lookup redis other (set_tenant_lookup redis id (some sub) v s) ≡ (
          if sub == other
          then some v
          else if id == other
          then some v
          else get_tenant_lookup redis other s)
  unfolding set_tenant_lookup get_tenant_lookup when_text
  get_tenant_lookup-set id sub other v s named = ground (
    arith,
    eq_iff sub other,
    eq_iff id other,
    eq_iff (lookup_key sub) (lookup_key other),
    eq_iff (lookup_key id) (lookup_key other),
    lookup_key_inj sub other,
    lookup_key_inj id other,
    redis.get-set (lookup_key sub) (lookup_key other) v 300 (redis.set (lookup_key id) v 300 s),
    redis.get-set (lookup_key id) (lookup_key other) v 300 s,
  )

  -- After an invalidation the tenant is found neither by its id nor by its subdomain; the other
  -- lookups are as before.
  pub get_tenant_lookup-invalidate :
      (id sub other : String) (s : Store)
      → (sub == "") ≡ false
      → get_tenant_lookup redis other (invalidate_tenant_lookup redis id (some sub) s) ≡ (
          if sub == other
          then none
          else if id == other
          then none
          else get_tenant_lookup redis other s)
  unfolding invalidate_tenant_lookup get_tenant_lookup when_text
  get_tenant_lookup-invalidate id sub other s named = ground (
    arith,
    eq_iff sub other,
    eq_iff id other,
    eq_iff (lookup_key sub) (lookup_key other),
    eq_iff (lookup_key id) (lookup_key other),
    lookup_key_inj sub other,
    lookup_key_inj id other,
    redis.get-del (lookup_key sub) (lookup_key other) (redis.del (lookup_key id) s),
    redis.get-del (lookup_key id) (lookup_key other) s,
  )
