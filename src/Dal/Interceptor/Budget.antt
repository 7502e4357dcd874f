-- ===== src/Dal/Interceptor/Budget.antt =====
-- The budget of 50 queries over a whole request, and what a refused query leaves behind.
use crm_multi_tenant_saas_ar.Prelude.{
  ℕ, ◌+◌, ◌-◌, ◌≤◌, ◌<◌, ◌≡◌, ◌∙◌, refl, Bool, true, false, String, Option, none, some, List, [],
  ◌∷◌, ◌==◌, arith, ◌⊎◌, Bool-cases, inl, inr,
}
use crm_multi_tenant_saas_ar.Dal.Context.{
  TenantStore, get_tenant_id, get_tier, increment, query_limit, run,
}
use crm_multi_tenant_saas_ar.Dal.Uuid.{is_uuid}
use crm_multi_tenant_saas_ar.Dal.Quota.{
  Poll, Acquired, entered, unavailable, pending, acquire, acquire_loop, round, write, find_slot,
  one_more, is_registered,
}
use crm_multi_tenant_saas_ar.Dal.Interceptor.{
  Connection, State, Outcome, handed, over_query_limit, ensure_registered, scope_session,
  count_query, after_quota, acquire_connection, release_connection,
}

-- What a request does to connections, in its own order; other requests run in between, and show
-- in the polls.
pub data Use : Type 0 where
  take : ℕ → List Poll → Connection → Use
  give_back : Bool → Connection → Use

abbrev pub got : Outcome → ℕ
got (handed _) = 1
got _ = 0

-- The state after the uses, and how many connections they were handed.
pub run_uses : List Use → State → State × ℕ
run_uses [] s = (s, 0)
run_uses (take start polls c ∷ uses) s =
    let (s', outcome) = acquire_connection start polls c s in
    let (s'', n) = run_uses uses s' in (s'', got outcome + n)
run_uses (give_back alive c ∷ uses) s = run_uses uses (release_connection alive c s).0

-- The store after one use, in one statement for every outcome.
record Charged (t : TenantStore) (s' : State) (outcome : Outcome) : Type 0 where
  after : TenantStore
  stored : s'.store ≡ some after
  grows : t.query_count ≤ after.query_count
  paid :
      got outcome ≡ 0
      ⊎ ((got outcome ≡ 1)
          × (t.query_count + 1 ≤ query_limit)
          × (after.query_count ≡ t.query_count + 1))

Charged-count_query :
    (c : Connection) (s : State) (t : TenantStore)
    → s.store ≡ some t
    → Charged t (count_query c s).0 (count_query c s).1
unfolding count_query increment
Charged-count_query c s t e = record {
  after = record t { query_count = t.query_count + 1 };
  stored = ground arith;
  grows = omega arith;
  paid = ground arith;
}

Charged-after_quota :
    (c : Connection) (s : State) (t : TenantStore) (a : Acquired)
    → s.store ≡ some t
    → Charged t (after_quota c s a).0 (after_quota c s a).1
unfolding after_quota
Charged-after_quota c s t (entered slots) e = Charged-count_query c (record s { slots = slots }) t e
Charged-after_quota c s t (unavailable slots) e = record {
  after = t;
  stored = e;
  grows = omega arith;
  paid = inl refl;
}
Charged-after_quota c s t pending e = record {
  after = t;
  stored = e;
  grows = omega arith;
  paid = inl refl;
}

Charged-scope_session :
    (start : ℕ) (polls : List Poll) (id tier : Option String) (c : Connection) (s : State)
    (t : TenantStore)
    → s.store ≡ some t
    → Charged t (scope_session start polls id tier c s).0 (scope_session start polls id tier c s).1
unfolding scope_session
Charged-scope_session start polls none tier c s t e = Charged-count_query c s t e
Charged-scope_session start polls (some id) tier c s t e = elim (Bool-cases (id == "")) [
  | inl blank ↦ rw blank (Charged-count_query c s t e)
  | inr named ↦ elim (Bool-cases (is_uuid id)) [
    | inl good ↦
        let slots = ensure_registered id tier s.slots in
        rw (named, good)
          (Charged-after_quota (record { app_tenant_id = id }) (record s { slots = slots }) t
            (acquire id start polls slots) e)
    | inr bad ↦
        rw (named, bad) (record { after = t; stored = e; grows = omega arith; paid = inl refl })
  ]
]

Charged-acquire_connection :
    (start : ℕ) (polls : List Poll) (c : Connection) (s : State) (t : TenantStore)
    → s.store ≡ some t
    → Charged t (acquire_connection start polls c s).0 (acquire_connection start polls c s).1
unfolding acquire_connection
Charged-acquire_connection start polls c s t e =
    Charged-scope_session start polls (get_tenant_id s.store) (get_tier s.store) c
      (record s { taken = s.taken + 1 }) t e

release_connection-store :
    (alive : Bool) (c : Connection) (s : State) → (release_connection alive c s).0.store ≡ s.store
unfolding release_connection
release_connection-store alive c s = refl

run_uses-le :
    (uses : List Use) (s : State) (t : TenantStore)
    → s.store ≡ some t
    → (run_uses uses s).1 ≤ query_limit - t.query_count
unfolding run_uses
run_uses-le [] s t e = omega arith
run_uses-le (take start polls c ∷ uses) s t e =
    let charged : Charged t (acquire_connection start polls c s).0
        (acquire_connection start polls c s).1 =
      Charged-acquire_connection start polls c s t e in
    let ih : (run_uses uses (acquire_connection start polls c s).0).1
        ≤ query_limit - charged.after.query_count =
      run_uses-le uses (acquire_connection start polls c s).0 charged.after charged.stored in
    omega (arith, charged.paid, charged.grows, ih)
run_uses-le (give_back alive c ∷ uses) s t e =
    run_uses-le uses (release_connection alive c s).0 t (release_connection-store alive c s ∙ e)

-- Whatever a tenant's request does, it is handed at most 50 connections: the counter starts at 0
-- in `TenantContext.run`, and no connection is handed out at or past the limit.
pub run_uses-le-limit :
    (uses : List Use) (s : State) (id tier : String)
    → s.store ≡ some (run id tier)
    → (run_uses uses s).1 ≤ query_limit
unfolding run
run_uses-le-limit uses s id tier e = omega (arith, run_uses-le uses s (run id tier) e)

-- A refused query keeps what it has taken: when a request is past its budget and its tenant has a
-- free slot, `acquireConnection` throws after Knex's connection and the quota slot are taken, and
-- hands nothing to release them by. The slot stays counted and the connection stays out.
pub acquire_connection-leaks :
    (start : ℕ) (polls : List Poll) (c : Connection) (s : State) (t : TenantStore) (at : ℕ)
    → s.store ≡ some t
    → (t.tenant_id == "") ≡ false
    → is_uuid t.tenant_id ≡ true
    → find_slot t.tenant_id s.slots ≡ some at
    → (s.slots.objects at).current < (s.slots.objects at).max
    → query_limit ≤ t.query_count
    → ((acquire_connection start polls c s).1 ≡ over_query_limit)
      × ((acquire_connection start polls c s).0.slots.objects at ≡ one_more (s.slots.objects at))
      × ((acquire_connection start polls c s).0.taken ≡ s.taken + 1)
unfolding acquire_connection scope_session get_tenant_id get_tier ensure_registered is_registered
    after_quota count_query increment acquire acquire_loop round write
acquire_connection-leaks start polls c s t at e named good found room spent = ground arith
