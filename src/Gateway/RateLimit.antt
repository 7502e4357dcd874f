-- ===== src/Gateway/RateLimit.antt =====
-- backend/src/gateway/middleware/tenant-rate-limit.middleware.ts: requests per minute and tenant.
pub mod Window
use crm_multi_tenant_saas_ar.Prelude.{
  ℕ, ◌+◌, ◌/◌, ◌≡◌, Bool, true, false, String, Option, none, some, List, [], ◌∷◌, ◌==◌, ◌<>◌, ltb,
  eqb, if◌then◌else◌,
}
use crm_multi_tenant_saas_ar.Dal.Quota.{Limit, finite, infinity}
use crm_multi_tenant_saas_ar.Gateway.Resolver.{ResolvedTenant}

-- `TIER_RATE_LIMITS[tenant.tier] ?? 100`
unfoldable pub tier_rate_limit : String → Limit
tier_rate_limit tier =
    if tier == "basic"
    then finite 100
    else if tier == "standard"
    then finite 100
    else if tier == "premium"
    then finite 500
    else if tier == "enterprise"
    then finite 2000
    else if tier == "vip"
    then infinity
    else finite 100

-- The Redis counters. Within the life of a key INCR adds one and returns the new value, and
-- EXPIRE changes no value; `0` is the value of a key that is not there.
pub record Counters : Type 1 where
  pub Store : Type 0
  pub value : String → Store → ℕ
  pub incr : String → Store → Store
  pub expire : String → ℕ → Store → Store
  pub value-incr :
      (k j : String) (s : Store)
      → value j (incr k s) ≡ (if k == j then value j s + 1 else value j s)
  pub value-expire :
      (k j : String) (seconds : ℕ) (s : Store) → value j (expire k seconds s) ≡ value j s
  -- How JavaScript prints a whole number.
  pub show : ℕ → String
  pub show_inj : (m n : ℕ) → show m ≡ show n → m ≡ n

module _ (c : Counters) where
  open c use {Store, value, incr, expire, show}

  -- `rl:${tenant.id}:${minuteBucket}`
  unfoldable pub bucket_key : String → ℕ → String
  bucket_key id minute = "rl:" <> id <> ":" <> show minute

  -- `true` for `next()`, `false` for the status 429.
  unfoldable pub count_request : String → ℕ → Store → Bool × Store
  count_request key limit s =
      let s' = incr key s in
      let count = value key s' in
      (if ltb limit count then false else true, if eqb count 1 then expire key 60 s' else s')

  -- The bucket is that of the time `now`, in milliseconds.
  unfoldable pub limit_request : ResolvedTenant → ℕ → Store → Bool × Store
  unfolding count_request bucket_key
  limit_request tenant now s = elim (tier_rate_limit tenant.tier) [
    | infinity ↦ (true, s)
    | finite limit ↦ count_request (bucket_key tenant.id (now / 60000)) limit s
  ]

  -- `use`: a request without a tenant goes on.
  unfoldable pub use_limit : Option ResolvedTenant → ℕ → Store → Bool × Store
  unfolding limit_request
  use_limit none now s = (true, s)
  use_limit (some tenant) now s = limit_request tenant now s
