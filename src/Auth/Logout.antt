-- ===== src/Auth/Logout.antt =====
-- A token after its logout, at the guard.
use crm_multi_tenant_saas_ar.Prelude.{
  ℕ, ◌-◌, ◌/◌, ◌<◌, ◌≤◌, ◌≡◌, false, String, some, ◌==◌, arith, eq_refl, if◌then◌else◌,
}
use crm_multi_tenant_saas_ar.Dal.Cache.{Redis}
use crm_multi_tenant_saas_ar.Gateway.Resolver.{ResolvedTenant}
use crm_multi_tenant_saas_ar.Gateway.Jwt.{
  JwtClaims, denied, blacklist_key, tenant_matches, is_revoked, handle_request, can_activate,
}
use crm_multi_tenant_saas_ar.Auth.{logout}

module _ (redis : Redis String) where
  open redis use {Store}

  -- After a logout before the token expires the guard refuses the token: as revoked for its own
  -- tenant, and as before for another; a token that has expired by then is not written down.
  pub can_activate-logout :
      (claims : JwtClaims) (jti : String) (tenant : ResolvedTenant) (now : ℕ) (s : Store)
      → claims.jti ≡ some jti
      → (jti == "") ≡ false
      → (now / 1000 < claims.exp
          → can_activate redis false (some claims) (some tenant) (logout redis jti claims.exp now s)
            ≡ (if claims.tenant_id == tenant.id then denied 401 else denied 403))
        × (claims.exp ≤ now / 1000 → logout redis jti claims.exp now s ≡ s)
  unfolding logout can_activate handle_request tenant_matches is_revoked
  can_activate-logout claims jti tenant now s e named = (
    λ early. ground (
      arith,
      eq_refl (blacklist_key jti),
      redis.get-set (blacklist_key jti) (blacklist_key jti) "1" (claims.exp - now / 1000) s,
    ),
    λ late. ground arith,
  )
