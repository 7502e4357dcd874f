-- ===== src/Dal/Interceptor.antt =====
-- backend/src/dal/interceptor/QueryInterceptor.ts: what happens to a connection between Knex's
-- pool and a query.
pub mod Scope
pub mod Budget
use crm_multi_tenant_saas_ar.Prelude.{
  ℕ, suc, ◌+◌, ◌-◌, Bool, true, false, String, Option, none, some, List, [], ◌∷◌, ◌==◌,
  if◌then◌else◌,
}
use crm_multi_tenant_saas_ar.Dal.Context.{
  TenantStore, get_tenant_id, get_tier, Counted, counted, query_limit_exceeded, increment,
}
use crm_multi_tenant_saas_ar.Dal.Uuid.{is_uuid}
use crm_multi_tenant_saas_ar.Dal.Quota.{
  Slots, Poll, Acquired, entered, unavailable, pending, acquire, register, release, is_registered,
}

-- A database session: its variable `app.tenant_id`, by which row level security filters.
pub record Connection : Type 0 where
  pub app_tenant_id : String

-- What the interceptor reads and changes: the store of the request, the quota slots, and how many
-- connections Knex's pool has handed out.
pub record State : Type 0 where
  pub store : Option TenantStore
  pub slots : Slots
  pub taken : ℕ

pub data Outcome : Type 0 where
  handed : Connection → Outcome
  invalid_tenant_id : Outcome
  cap_reached : Outcome
  over_query_limit : Outcome
  -- The polling loop of the quota has not ended yet.
  unfinished : Outcome

-- The lazy registration on first sight.
unfoldable pub ensure_registered : String → Option String → Slots → Slots
ensure_registered tenant_id none slots = slots
ensure_registered tenant_id (some tier) slots =
    if tier == ""
    then slots
    else if is_registered tenant_id slots
    then slots
    else register tenant_id tier slots

-- `QueryCounter.increment(true); return connection;`
unfoldable pub count_query : Connection → State → State × Outcome
count_query connection s =
    let (store, counter) = increment true s.store in
    (
      record s { store = store },
      elim counter [ counted _ ↦ handed connection | query_limit_exceeded _ _ ↦ over_query_limit ],
    )

-- After `await TenantQuotaEnforcer.acquire(tenantId)`.
unfoldable pub after_quota : Connection → State → Acquired → State × Outcome
unfolding count_query
after_quota connection s (entered slots) = count_query connection (record s { slots = slots })
after_quota connection s (unavailable slots) = (record s { slots = slots }, cap_reached)
after_quota connection s pending = (s, unfinished)

-- The statements of the replaced `acquireConnection` after the connection is there: first those
-- under `if (tenantId)`.
unfoldable pub scope_session :
    ℕ → List Poll → Option String → Option String → Connection → State → State × Outcome
unfolding count_query after_quota ensure_registered
scope_session start polls none tier connection s = count_query connection s
scope_session start polls (some tenant_id) tier connection s =
    if tenant_id == ""
    then count_query connection s
    else if is_uuid tenant_id
    then (let slots = ensure_registered tenant_id tier s.slots in
        after_quota (record { app_tenant_id = tenant_id }) (record s { slots = slots })
          (acquire tenant_id start polls slots))
    else (s, invalid_tenant_id)

-- The replaced `acquireConnection`. `connection` is what Knex's own `acquireConnection` has
-- returned; `start` and `polls` are the clock and the rounds of the quota's waiting loop.
unfoldable pub acquire_connection : ℕ → List Poll → Connection → State → State × Outcome
unfolding scope_session
acquire_connection start polls connection s =
    scope_session start polls (get_tenant_id s.store) (get_tier s.store) connection
      (record s { taken = s.taken + 1 })

-- `if (tenantId) TenantQuotaEnforcer.release(tenantId);`
unfoldable pub release_quota : Option String → Slots → Slots
release_quota none slots = slots
release_quota (some tenant_id) slots = if tenant_id == "" then slots else release tenant_id slots

-- The replaced `releaseConnection`: the state, and the connection that goes back to the pool.
-- `alive` tells whether the session still answers; a broken one is discarded by the pool.
unfoldable pub release_connection : Bool → Connection → State → State × Option Connection
unfolding release_quota
release_connection alive connection s = (
  record s { slots = release_quota (get_tenant_id s.store) s.slots; taken = s.taken - 1 },
  if alive then some (record connection { app_tenant_id = "" }) else none,
)
