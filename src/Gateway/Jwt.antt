-- ===== src/Gateway/Jwt.antt =====
-- backend/src/gateway/strategies/jwt.strategy.ts and backend/src/gateway/guards/jwt-auth.guard.ts:
-- from a verified token to the user of the request.
pub mod Guarded
use crm_multi_tenant_saas_ar.Prelude.{
  ℕ, ◌≡◌, Bool, true, false, String, Option, none, some, List, [], ◌∷◌, ◌==◌, ◌<>◌, if◌then◌else◌,
}
use crm_multi_tenant_saas_ar.Dal.Cache.{Redis}
use crm_multi_tenant_saas_ar.Gateway.Resolver.{ResolvedTenant}

pub record JwtClaims : Type 0 where
  pub sub : String
  pub tenant_id : String
  pub roles : List String
  pub email : Option String
  pub iat : ℕ
  pub exp : ℕ
  pub jti : Option String

-- The decoded token: `none` for a claim that is missing or of another type.
pub record Payload : Type 0 where
  pub sub : Option String
  pub tenant_id : Option String
  pub roles : Option (List String)
  pub email : Option String
  pub iat : ℕ
  pub exp : ℕ
  pub jti : Option String

-- A text that is there and not empty.
unfoldable pub required : Option String → Option String
required none = none
required (some s) = if s == "" then none else some s

-- `JwtStrategy.validate`; `none` where it throws `UnauthorizedException`.
unfoldable pub validate : Payload → Option JwtClaims
unfolding required
validate payload = elim (required payload.sub) [
  | none ↦ none
  | some sub ↦ elim (required payload.tenant_id) [
    | none ↦ none
    | some tenant_id ↦ some (record {
      sub = sub;
      tenant_id = tenant_id;
      roles = elim payload.roles [ none ↦ [] | some roles ↦ roles ];
      email = payload.email;
      iat = payload.iat;
      exp = payload.exp;
      jti = payload.jti;
    })
  ]
]

-- The request goes on, with the user if it has one, or ends with the status.
pub data Access : Type 0 where
  open_to_all : Access
  granted : JwtClaims → Access
  denied : ℕ → Access

unfoldable pub blacklist_key : String → String
blacklist_key jti = "auth:blacklist:" <> jti

-- `if (resolvedTenant && claims.tenant_id !== resolvedTenant.id)`
unfoldable pub tenant_matches : Option ResolvedTenant → JwtClaims → Bool
tenant_matches none claims = true
tenant_matches (some tenant) claims = claims.tenant_id == tenant.id

module _ (redis : Redis String) where
  open redis use {Store, get}

  -- Whether Redis has a text that is not empty under the key of the token.
  unfoldable pub is_revoked : Option String → Store → Bool
  is_revoked none s = false
  is_revoked (some jti) s = if jti == "" then false else elim (get (blacklist_key jti) s) [
    | none ↦ false
    | some v ↦ if v == "" then false else true
  ]

  -- `handleRequest`; `user` is what Passport found, `none` for an error or no user.
  unfoldable pub handle_request : Option JwtClaims → Option ResolvedTenant → Store → Access
  handle_request none tenant s = denied 401
  handle_request (some claims) tenant s =
      if tenant_matches tenant claims
      then (if is_revoked claims.jti s then denied 401 else granted claims)
      else denied 403

  -- `canActivate`: Passport verifies the token, and calls `handleRequest`.
  unfoldable pub can_activate : Bool → Option JwtClaims → Option ResolvedTenant → Store → Access
  can_activate is_public user tenant s =
      if is_public then open_to_all else handle_request user tenant s
