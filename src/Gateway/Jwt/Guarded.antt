-- ===== src/Gateway/Jwt/Guarded.antt =====
-- Who passes the guard.
use crm_multi_tenant_saas_ar.Prelude.{◌≡◌, false, String, Option, none, some, arith, eq_iff, ◌↔◌}
use crm_multi_tenant_saas_ar.Dal.Cache.{Redis}
use crm_multi_tenant_saas_ar.Gateway.Resolver.{ResolvedTenant}
use crm_multi_tenant_saas_ar.Gateway.Jwt.{
  JwtClaims, granted, tenant_matches, is_revoked, handle_request, can_activate,
}

module _ (redis : Redis String) where
  open redis use {Store, get}

  -- On a route that is not public a user passes exactly with a verified token of the very tenant
  -- that the request is for, if its id is not revoked.
  pub can_activate-granted_iff :
      (user : Option JwtClaims) (tenant : ResolvedTenant) (claims : JwtClaims) (s : Store)
      → (can_activate redis false user (some tenant) s ≡ granted claims) ↔ (
          (user ≡ some claims)
          × (claims.tenant_id ≡ tenant.id)
          × (is_revoked redis claims.jti s ≡ false))
  unfolding can_activate handle_request tenant_matches
  can_activate-granted_iff none tenant claims s = (λ h. cc, λ h. ground arith)
  can_activate-granted_iff (some u) tenant claims s = (
    λ h. ground (arith, eq_iff u.tenant_id tenant.id),
    λ h. ground (arith, eq_iff u.tenant_id tenant.id),
  )
