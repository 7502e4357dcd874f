-- ===== src/Gateway/Cors.antt =====
-- backend/src/gateway/middleware/tenant-cors.middleware.ts: cross-origin requests.
pub mod Grants
use crm_multi_tenant_saas_ar.Prelude.{
  ℕ, ◌≡◌, Bool, true, false, String, Option, none, some, List, [], ◌∷◌, ◌==◌, includes, filter, map,
  not, if◌then◌else◌,
}
use crm_multi_tenant_saas_ar.Gateway.Resolver.{ResolvedTenant}

-- The headers that `applyHeaders` sets: the granted origin, and the three of a preflight.
pub record Headers : Type 0 where
  pub allow_origin : String
  pub allow_credentials : String
  pub vary : String
  pub allow_methods : Option String
  pub allow_headers : Option String
  pub max_age : Option String

unfoldable pub apply_headers : String → Bool → Headers
apply_headers origin is_preflight = record {
  allow_origin = origin;
  allow_credentials = "true";
  vary = "Origin";
  allow_methods = if is_preflight then some "GET,HEAD,PUT,PATCH,POST,DELETE,OPTIONS" else none;
  allow_headers =
      if is_preflight
      then some "Content-Type,Authorization,X-Tenant-ID,X-Tenant-Slug,X-Correlation-ID"
      else none;
  max_age = if is_preflight then some "86400" else none;
}

pub data Reply : Type 0 where
  -- `next()`, with the headers that were set.
  next : Option Headers → Reply
  -- The status 204, at once.
  no_content : Headers → Reply

-- The constructor, after the split at commas and `trim`: `filter(Boolean)` drops empty texts.
unfoldable pub global_origins : Option (List String) → List String
global_origins none = []
global_origins (some origins) = filter (λ o. not (o == "")) origins

-- Tenant-specific origins override the global ones.
unfoldable pub allowed_origins : Option ResolvedTenant → List String → List String
allowed_origins none global = global
allowed_origins (some tenant) global = elim tenant.allowed_origins [ [] ↦ global | o ∷ os ↦ o ∷ os ]

unfoldable pub granted : String → Bool → Reply
unfolding apply_headers
granted origin is_preflight =
    if is_preflight
    then no_content (apply_headers origin true)
    else next (some (apply_headers origin false))

unfoldable pub decide : String → Bool → List String → Reply
unfolding granted
decide origin is_preflight [] = granted origin is_preflight
decide origin is_preflight (o ∷ os) =
    if includes origin (o ∷ os) then granted origin is_preflight else next none

-- `use`, for the method, the header `Origin`, and the tenant of the request.
unfoldable pub use_cors : List String → String → Option String → Option ResolvedTenant → Reply
unfolding allowed_origins decide
use_cors global method none tenant = next none
use_cors global method (some origin) tenant =
    if origin == ""
    then next none
    else decide origin (method == "OPTIONS") (allowed_origins tenant global)
