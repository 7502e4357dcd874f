-- ===== src/Tests/GatewayRuns.antt =====
-- Runs of the theorems on the gateway.
use Prim.Native.Nat.{min}
use crm_multi_tenant_saas_ar.Prelude.{
  ℕ, zero, suc, ◌+◌, ◌-◌, ◌/◌, ◌≡◌, ◌↔◌, refl, Bool, true, false, String, none, some, List, [], ◌∷◌,
  ◌==◌, arith, length, All, if◌then◌else◌,
}
use crm_multi_tenant_saas_ar.Prelude.Dict.{lookup}
use crm_multi_tenant_saas_ar.Dal.Context.{TenantStore, run, active}
use crm_multi_tenant_saas_ar.Dal.Uuid.{is_uuid, uuid_rest, hex_run, is_hex, dash}
use crm_multi_tenant_saas_ar.Dal.Quota.{finite}
use crm_multi_tenant_saas_ar.Dal.Cache.{set_tenant_lookup, get_tenant_lookup}
use crm_multi_tenant_saas_ar.Gateway.Host.{extract_subdomain}
use crm_multi_tenant_saas_ar.Gateway.Resolver.{
  TenantRow, Directory, Request, Cached, whole, partial, passed, refused, tenant_identifier,
  find_row, gate, resolve,
}
use crm_multi_tenant_saas_ar.Gateway.Resolver.Gate.{Served, gate-passed_iff}
use crm_multi_tenant_saas_ar.Gateway.Resolver.Lookup.{resolve_warmed}
use crm_multi_tenant_saas_ar.Gateway.RateLimit.{tier_rate_limit, bucket_key}
use crm_multi_tenant_saas_ar.Gateway.RateLimit.Window.{passed_count, passed_count_minute}
use crm_multi_tenant_saas_ar.Gateway.Cors.{use_cors}
use crm_multi_tenant_saas_ar.Gateway.Cors.Grants.{Permitted, grant, grant-use_cors}
use crm_multi_tenant_saas_ar.Gateway.Jwt.{JwtClaims, granted, is_revoked, can_activate}
use crm_multi_tenant_saas_ar.Gateway.Jwt.Guarded.{can_activate-granted_iff}
use crm_multi_tenant_saas_ar.Tests.Samples.{memory, tallies, id_a, tenant_a}

-- The host.
from_host : extract_subdomain "acme.crm.app:3000" ≡ some "acme"
unfolding extract_subdomain
from_host = refl

from_www : extract_subdomain "www.crm.app" ≡ none
unfolding extract_subdomain
from_www = refl

-- The status.
gate-passed_iff_example :
    (Served "GET" tenant_a active
      → gate "GET" (some (whole tenant_a))
        ≡ passed ("active" == "grace_period") tenant_a (run id_a "premium"))
    × ((warning : Bool) (store : TenantStore)
        → gate "GET" (some (whole tenant_a)) ≡ passed warning tenant_a store
        → Served "GET" tenant_a active
          × (store ≡ run id_a "premium")
          × (warning ≡ ("active" == "grace_period")))
gate-passed_iff_example = gate-passed_iff "GET" tenant_a active refl

-- The lookup.
abbrev row_a : TenantRow
row_a = record {
  id = id_a;
  name = "Acme";
  subdomain = some "acme";
  tier = "premium";
  status = "active";
  db_url = none;
  is_active = true;
  allowed_origins = none;
}

abbrev directory : Directory
directory = record {
  by_id = λ id. if id == id_a then some row_a else none;
  by_subdomain = λ s. if s == "acme" then some row_a else none;
}

abbrev empty_directory : Directory
empty_directory = record { by_id = λ _. none; by_subdomain = λ _. none }

row_found : find_row directory "acme" ≡ some row_a
unfolding find_row is_uuid uuid_rest hex_run is_hex dash
row_found = refl

not_cached : get_tenant_lookup (memory Cached) "acme" [] ≡ none
unfolding get_tenant_lookup lookup
not_cached = refl

abbrev request : String → Request
request method = record {
  method = method;
  x_tenant_id = some id_a;
  x_tenant_slug = none;
  host = some "acme.crm.app";
}

identified : (method : String) → tenant_identifier (request method) ≡ some id_a
unfolding tenant_identifier
identified method = refl

resolve_warmed_example :
    (resolve
      (memory Cached)
      directory
      (request "GET")
      (set_tenant_lookup (memory Cached) id_a (some "acme") (partial id_a (some "acme")) [])).0
    ≡ refused 500
resolve_warmed_example =
    resolve_warmed (memory Cached) directory (request "GET") id_a "acme" id_a [] refl refl refl
      (identified "GET") refl

-- The rate.
abbrev three_times : List ℕ
three_times = 60000 ∷ 60001 ∷ 119999 ∷ []

premium_rate : tier_rate_limit "premium" ≡ finite 500
unfolding tier_rate_limit
premium_rate = refl

passed_count_minute_example :
    ((passed_count tallies tenant_a three_times []).0
      ≡ min (length three_times) (500 - tallies.value (bucket_key tallies id_a 1) []))
    × (tallies.value (bucket_key tallies id_a 1) (passed_count tallies tenant_a three_times []).1
        ≡ tallies.value (bucket_key tallies id_a 1) [] + length three_times)
passed_count_minute_example =
    passed_count_minute tallies tenant_a 500 1 three_times [] premium_rate
      (refl, (refl, (refl, tt)))

-- Five hundred requests at one time.
abbrev burst : ℕ → ℕ → List ℕ
burst zero now = []
burst (suc n) now = now ∷ burst n now

burst-All :
    (n now : ℕ) → All (λ t. t / 60000 ≡ now / 60000) (burst n now) × (length (burst n now) ≡ n)
burst-All zero now = (tt, refl)
burst-All (suc n) now = let ih = burst-All n now in ((refl, ih.0), omega (arith, ih.1))

untouched : (key : String) → tallies.value key [] ≡ 0
unfolding lookup
untouched key = refl

-- Other origins.
abbrev listed_origin : String
listed_origin = "https://acme.example"

abbrev global : List String
global = "https://crm.app" ∷ []

grant-use_cors_example :
    (grant (use_cors global "GET" (some listed_origin) (some tenant_a)) ≡ some listed_origin
      → (listed_origin ≡ listed_origin) × Permitted listed_origin tenant_a.allowed_origins global)
    × ((listed_origin ≡ listed_origin) × Permitted listed_origin tenant_a.allowed_origins global
        → grant (use_cors global "GET" (some listed_origin) (some tenant_a)) ≡ some listed_origin)
grant-use_cors_example =
    grant-use_cors global "GET" listed_origin listed_origin (some tenant_a) refl

-- The guard.
abbrev claims_a : JwtClaims
claims_a = record {
  sub = "u1";
  tenant_id = id_a;
  roles = [];
  email = none;
  iat = 0;
  exp = 1000;
  jti = some "j1";
}

can_activate-granted_iff_example :
    (can_activate (memory String) false (some claims_a) (some tenant_a) [] ≡ granted claims_a) ↔ (
      (some claims_a ≡ some claims_a)
      × (claims_a.tenant_id ≡ tenant_a.id)
      × (is_revoked (memory String) claims_a.jti [] ≡ false))
can_activate-granted_iff_example =
    can_activate-granted_iff (memory String) (some claims_a) tenant_a claims_a []
