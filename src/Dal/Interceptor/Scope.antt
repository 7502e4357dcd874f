-- ===== src/Dal/Interceptor/Scope.antt =====
-- Tenant isolation of the sessions: which tenant a session is scoped to when it is handed out, and
-- when it is back in the pool.
use crm_multi_tenant_saas_ar.Prelude.{
  ℕ, ◌+◌, ◌≤◌, ◌≡◌, Bool, true, false, some, List, ◌==◌, arith, Bool-cases, inl, inr,
}
use crm_multi_tenant_saas_ar.Dal.Context.{
  TenantStore, get_tenant_id, get_tier, increment, query_limit,
}
use crm_multi_tenant_saas_ar.Dal.Uuid.{is_uuid}
use crm_multi_tenant_saas_ar.Dal.Quota.{Poll, Acquired, entered, unavailable, pending, acquire}
use crm_multi_tenant_saas_ar.Dal.Interceptor.{
  Connection, State, handed, ensure_registered, scope_session, count_query, after_quota,
  acquire_connection, release_connection,
}

-- A connection handed out counts one query, and is within the budget.
pub count_query-handed :
    (c d : Connection) (s s' : State) (t : TenantStore)
    → s.store ≡ some t
    → count_query c s ≡ (s', handed d)
    → (d ≡ c)
      × (t.query_count + 1 ≤ query_limit)
      × (s'.store ≡ some (record t { query_count = t.query_count + 1 }))
unfolding count_query increment
count_query-handed c d s s' t e h = ground arith

after_quota-handed :
    (c d : Connection) (s s' : State) (t : TenantStore) (a : Acquired)
    → s.store ≡ some t
    → after_quota c s a ≡ (s', handed d)
    → (d ≡ c)
      × (t.query_count + 1 ≤ query_limit)
      × (s'.store ≡ some (record t { query_count = t.query_count + 1 }))
unfolding after_quota
after_quota-handed c d s s' t (entered slots) e h =
    count_query-handed c d (record s { slots = slots }) s' t e h
after_quota-handed c d s s' t (unavailable slots) e h = ground arith
after_quota-handed c d s s' t pending e h = ground arith

-- Inside a tenant's request, a session is handed out only if the tenant id is a UUID and the
-- request stays within its 50 queries; the session is scoped to that tenant, whatever tenant it
-- served before, and one more query is counted.
pub acquire_connection-scoped :
    (start : ℕ) (polls : List Poll) (c d : Connection) (s s' : State) (t : TenantStore)
    → s.store ≡ some t
    → (t.tenant_id == "") ≡ false
    → acquire_connection start polls c s ≡ (s', handed d)
    → (d.app_tenant_id ≡ t.tenant_id)
      × (is_uuid t.tenant_id ≡ true)
      × (t.query_count + 1 ≤ query_limit)
      × (s'.store ≡ some (record t { query_count = t.query_count + 1 }))
unfolding acquire_connection scope_session get_tenant_id
acquire_connection-scoped start polls c d s s' t e named h =
    elim (Bool-cases (is_uuid t.tenant_id)) [
      | inl good ↦
          let slots = ensure_registered t.tenant_id (get_tier s.store) s.slots in
          let scoped : Connection = record { app_tenant_id = t.tenant_id } in
          let taken : State = record s { slots = slots; taken = s.taken + 1 } in
          let run : after_quota scoped taken (acquire t.tenant_id start polls slots)
              ≡ (s', handed d) =
            ground arith in
          ground (
            arith,
            after_quota-handed scoped d taken s' t (acquire t.tenant_id start polls slots) e run,
          )
      | inr bad ↦ ground arith
    ]

-- A session that goes back to the pool is scoped to no tenant, whoever gives it back.
pub release_connection-unscoped :
    (alive : Bool) (c back : Connection) (s s' : State)
    → release_connection alive c s ≡ (s', some back)
    → back.app_tenant_id ≡ ""
unfolding release_connection
release_connection-unscoped alive c back s s' h = ground arith
