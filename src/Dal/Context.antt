-- ===== src/Dal/Context.antt =====
-- backend/src/dal/context/TenantContext.ts and backend/src/dal/middleware/QueryCounter.ts.
-- What `AsyncLocalStorage.getStore()` answers is passed explicitly: `none` outside of a context.
use crm_multi_tenant_saas_ar.Prelude.{
  ℕ, ◌+◌, Bool, ◌&&◌, String, Option, none, some, ltb, ◌==◌, if◌then◌else◌,
}

-- A tier is one of the texts 'basic', 'premium', 'enterprise', 'vip'.
pub record TenantStore : Type 0 where
  pub tenant_id : String
  pub tenant_tier : String
  pub query_count : ℕ

-- `run`: the store that the callback sees.
unfoldable pub run : String → String → TenantStore
run id tier = record { tenant_id = id; tenant_tier = tier; query_count = 0 }

unfoldable pub get_tenant_id : Option TenantStore → Option String
get_tenant_id none = none
get_tenant_id (some s) = some s.tenant_id

unfoldable pub get_tier : Option TenantStore → Option String
get_tier none = none
get_tier (some s) = some s.tenant_tier

-- `none` where the source throws: no context, or the empty text.
unfoldable pub require_tenant_id : Option TenantStore → Option String
require_tenant_id none = none
require_tenant_id (some s) = if s.tenant_id == "" then none else some s.tenant_id

unfoldable pub increment_query_count : Option TenantStore → Option TenantStore × ℕ
increment_query_count none = (none, 0)
increment_query_count (some s) =
    (some (record s { query_count = s.query_count + 1 }), s.query_count + 1)

unfoldable pub get_query_count : Option TenantStore → ℕ
get_query_count none = 0
get_query_count (some s) = s.query_count

-- `QUERY_LIMIT`
abbrev pub query_limit : ℕ
query_limit = 50

pub data Counted : Type 0 where
  counted : ℕ → Counted
  query_limit_exceeded : ℕ → ℕ → Counted

-- `QueryCounter.increment`: the store is changed on the error path too.
unfoldable pub increment : Bool → Option TenantStore → Option TenantStore × Counted
unfolding increment_query_count
increment throw_on_limit store =
    let (after, count) = increment_query_count store in
    (
      after,
      if throw_on_limit && ltb query_limit count
          then query_limit_exceeded count query_limit
          else counted count,
    )

-- `QueryCounter.isExceeded`
unfoldable pub is_exceeded : Option TenantStore → Bool
unfolding get_query_count
is_exceeded store = ltb query_limit (get_query_count store)

-- The type `TenantStatus`, and the texts of its values.
pub data TenantStatus : Type 0 where
  provisioning active migrating grace_period suspended offboarding offboarded : TenantStatus

abbrev pub status_text : TenantStatus → String
status_text provisioning = "provisioning"
status_text active = "active"
status_text migrating = "migrating"
status_text grace_period = "grace_period"
status_text suspended = "suspended"
status_text offboarding = "offboarding"
status_text offboarded = "offboarded"
