-- ===== src/Gateway/Resolver/Lookup.antt =====
-- The cache in front of the tenant table.
use crm_multi_tenant_saas_ar.Prelude.{
  ◌≡◌, true, false, ◌||◌, String, none, some, ◌==◌, arith, eq_iff,
}
use crm_multi_tenant_saas_ar.Dal.Cache.{Redis, set_tenant_lookup, get_tenant_lookup}
use crm_multi_tenant_saas_ar.Dal.Cache.Isolation.{get_tenant_lookup-set}
use crm_multi_tenant_saas_ar.Gateway.Resolver.{
  TenantRow, Directory, Request, Cached, whole, partial, refused, resolved_of, find_row,
  lookup_tenant, gate, resolve, resolve_as, tenant_identifier,
}

module _ (redis : Redis Cached) (dir : Directory) where
  open redis use {Store}

  -- After a lookup that had to ask the database, lookups of the same tenant by its id or by its
  -- subdomain are answered from the cache: the same answer for any database, and no more writes.
  pub lookup_tenant_again :
      (dir' : Directory) (identifier sub again : String) (s : Store) (row : TenantRow)
      → get_tenant_lookup redis identifier s ≡ none
      → find_row dir identifier ≡ some row
      → row.subdomain ≡ some sub
      → (sub == "") ≡ false
      → ((again == row.id) || (again == sub)) ≡ true
      → lookup_tenant redis dir' again (lookup_tenant redis dir identifier s).1
        ≡ (some (whole (resolved_of row)), (lookup_tenant redis dir identifier s).1)
  unfolding lookup_tenant
  lookup_tenant_again dir' identifier sub again s row miss found named ne key = ground (
    arith,
    eq_iff again row.id,
    eq_iff again sub,
    eq_iff sub again,
    eq_iff row.id again,
    get_tenant_lookup-set redis row.id sub again (whole (resolved_of row)) s,
  )

  -- What lies in the cache decides: while an object of a tenant is cached under the identifier,
  -- every request but a preflight is judged by that object, whatever the database says by then.
  pub resolve_cached :
      (req : Request) (identifier : String) (s : Store) (cached : Cached)
      → (req.method == "OPTIONS") ≡ false
      → tenant_identifier req ≡ some identifier
      → (identifier == "") ≡ false
      → get_tenant_lookup redis identifier s ≡ some cached
      → resolve redis dir req s ≡ (gate req.method (some cached), s)
  unfolding resolve resolve_as lookup_tenant
  resolve_cached req identifier s cached method named ne hit = ground arith

  -- After the cache has been warmed the way `AdminTenantsService.create` does it, with an object
  -- that has no status, every request of the new tenant but a preflight is answered by an
  -- internal error, for as long as the entry lives.
  pub resolve_warmed :
      (req : Request) (id sub identifier : String) (s : Store)
      → (req.method == "OPTIONS") ≡ false
      → (sub == "") ≡ false
      → (identifier == "") ≡ false
      → tenant_identifier req ≡ some identifier
      → ((identifier == id) || (identifier == sub)) ≡ true
      → (resolve redis dir req (set_tenant_lookup redis id (some sub) (partial id (some sub)) s)).0
        ≡ refused 500
  unfolding gate
  resolve_warmed req id sub identifier s method ne ne' named key =
      let s' = set_tenant_lookup redis id (some sub) (partial id (some sub)) s in
      let hit : get_tenant_lookup redis identifier s' ≡ some (partial id (some sub)) = ground (
        arith,
        eq_iff identifier id,
        eq_iff identifier sub,
        eq_iff sub identifier,
        eq_iff id identifier,
        get_tenant_lookup-set redis id sub identifier (partial id (some sub)) s,
      ) in
      ground (arith, resolve_cached req identifier s' (partial id (some sub)) method named ne' hit)
