-- ===== src/Gateway/Resolver/Gate.antt =====
-- Which tenants are served: the checks on the status, against the list of statuses.
use crm_multi_tenant_saas_ar.Prelude.{
  ◌≡◌, ◌∙◌, sym, ap, refl, Bool, true, false, String, some, ◌==◌, arith, if◌then◌else◌,
}
use crm_multi_tenant_saas_ar.Dal.Context.{
  TenantStore, run, TenantStatus, provisioning, active, migrating, grace_period, suspended,
  offboarding, offboarded, status_text,
}
use crm_multi_tenant_saas_ar.Gateway.Resolver.{
  ResolvedTenant, whole, Outcome, passed, refused, is_read, status_gate, gate,
}

-- The states in which a tenant is served: active and in its grace period in full, suspended for
-- reading only.
pub data Served (method : String) (t : ResolvedTenant) : TenantStatus → Type 0 where
  while_active : t.is_active ≡ true → Served method t active
  while_grace_period : Served method t grace_period
  while_suspended : is_read method ≡ true → Served method t suspended

-- The outcome of the checks as a table over the lifecycle states.
abbrev pub verdict : String → ResolvedTenant → TenantStatus → Outcome
verdict method t provisioning = refused 503
verdict method t migrating = refused 503
verdict method t offboarding = refused 401
verdict method t offboarded = refused 404
verdict method t grace_period = passed true t (run t.id t.tier)
verdict method t active = if t.is_active then passed false t (run t.id t.tier) else refused 403
verdict method t suspended =
    if is_read method then passed false t (run t.id t.tier) else refused 402

status_gate-verdict :
    (method : String) (t : ResolvedTenant) (status : TenantStatus)
    → status_gate method (status_text status) t ≡ verdict method t status
unfolding status_gate run
status_gate-verdict method t provisioning = refl
status_gate-verdict method t active = ground arith
status_gate-verdict method t migrating = refl
status_gate-verdict method t grace_period = ground arith
status_gate-verdict method t suspended = ground arith
status_gate-verdict method t offboarding = refl
status_gate-verdict method t offboarded = refl

-- The chain of conditions decides each of the seven lifecycle states as the table says.
pub gate-verdict :
    (method : String) (t : ResolvedTenant) (status : TenantStatus)
    → t.status ≡ status_text status
    → gate method (some (whole t)) ≡ verdict method t status
unfolding gate
gate-verdict method t status e =
    ap (λ text. status_gate method text t) e ∙ status_gate-verdict method t status

verdict→Served :
    (method : String) (t : ResolvedTenant) (status : TenantStatus) {warning : Bool}
    {store : TenantStore}
    → verdict method t status ≡ passed warning t store
    → Served method t status
      × (store ≡ run t.id t.tier)
      × (warning ≡ (status_text status == "grace_period"))
verdict→Served method t provisioning h = cc
verdict→Served method t active h = (while_active (ground arith), ground arith, ground arith)
verdict→Served method t migrating h = cc
verdict→Served method t grace_period h = (while_grace_period, ground arith, ground arith)
verdict→Served method t suspended h = (while_suspended (ground arith), ground arith, ground arith)
verdict→Served method t offboarding h = cc
verdict→Served method t offboarded h = cc

Served→verdict :
    (method : String) (t : ResolvedTenant) (status : TenantStatus)
    → Served method t status
    → verdict method t status ≡ passed (status_text status == "grace_period") t (run t.id t.tier)
Served→verdict method t _ (while_active h) = rw h refl
Served→verdict method t _ while_grace_period = refl
Served→verdict method t _ (while_suspended h) = rw h refl

-- A request enters the application exactly when its tenant is active, in its grace period, or
-- suspended and only read; then it runs in a new context of that very tenant, with no query
-- counted, and the billing warning is set exactly in the grace period.
pub gate-passed_iff :
    (method : String) (t : ResolvedTenant) (status : TenantStatus)
    → t.status ≡ status_text status
    → (Served method t status
        → gate method (some (whole t))
          ≡ passed (status_text status == "grace_period") t (run t.id t.tier))
      × ((warning : Bool) (store : TenantStore)
          → gate method (some (whole t)) ≡ passed warning t store
          → Served method t status
            × (store ≡ run t.id t.tier)
            × (warning ≡ (status_text status == "grace_period")))
gate-passed_iff method t status e = (
  λ s. gate-verdict method t status e ∙ Served→verdict method t status s,
  λ warning store h. verdict→Served method t status (sym (gate-verdict method t status e) ∙ h),
)
