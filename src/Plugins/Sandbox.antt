-- ===== src/Plugins/Sandbox.antt =====
-- backend/src/plugins/sandbox/sandbox.service.ts: a limit of time for a call of a plugin's core.
use crm_multi_tenant_saas_ar.Prelude.{ℕ, Bool, Option, none, some, ◌==◌, ltb, if◌then◌else◌}
use crm_multi_tenant_saas_ar.Dal.Context.{TenantStore, get_tier}

abbrev pub vip_min_timeout_ms : ℕ
vip_min_timeout_ms = 10000

abbrev pub max : ℕ → ℕ → ℕ
max a b = if ltb a b then b else a

-- `tier === 'vip' ? Math.max(timeoutMs, VIP_MIN_TIMEOUT_MS) : timeoutMs`
unfoldable pub effective_timeout : Option TenantStore → ℕ → ℕ
effective_timeout context timeout_ms = elim (get_tier context) [
  | none ↦ timeout_ms
  | some tier ↦ if tier == "vip" then max timeout_ms vip_min_timeout_ms else timeout_ms
]

pub data Raced (T : Type 0) : Type 0 where
  settled : T → Raced T
  -- `GatewayTimeoutException`; the function runs on.
  timed_out : Raced T

-- `execute`: when the function settles, if ever, and with what. On a tie either may be first, which
-- `first` decides.
unfoldable pub execute : {T : Type 0} → Bool → Option TenantStore → ℕ → Option (ℕ × T) → Raced T
unfolding effective_timeout
execute first context timeout_ms none = timed_out
execute first context timeout_ms (some (after, outcome)) =
    let limit = effective_timeout context timeout_ms in
    if ltb after limit
    then settled outcome
    else if ltb limit after
    then timed_out
    else if first
    then settled outcome
    else timed_out
