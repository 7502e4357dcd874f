-- ===== src/Cores/CustomerCare.antt =====
-- backend/src/plugins/cores/customer-care/customer-care.core.ts
use crm_multi_tenant_saas_ar.Prelude.{
  ℕ, Bool, true, false, String, Option, none, some, List, [], ◌∷◌, ◌==◌, find, if◌then◌else◌,
}
use crm_multi_tenant_saas_ar.Dal.Rls.{select, first_by_id, insert, update_by_id, delete_by_id}
use crm_multi_tenant_saas_ar.Plugins.Manifest.{HookType}
use crm_multi_tenant_saas_ar.Plugins.Hooks.{register}
use crm_multi_tenant_saas_ar.Cores.Store.{
  Customer, SupportCase, Store, Call, resource_not_found, refused_by_policy, Outcome, done, failed,
  customer_keys, case_keys, or_keep, newest_first,
}
use crm_multi_tenant_saas_ar.Cores.CustomerData.{Hooks}

pub record CreateCaseInput : Type 0 where
  pub customer_id : String
  pub title : String
  pub description : Option String
  pub priority : Option String

-- `assigned_to` may be set to null.
pub record UpdateCaseInput : Type 0 where
  pub title : Option String
  pub description : Option String
  pub status : Option String
  pub priority : Option String
  pub assigned_to : Option (Option String)

-- `onModuleInit`: a hook that does nothing.
unfoldable pub on_module_init : Hooks → Hooks
unfolding register
on_module_init hooks =
    register "customer-care"
      (record { event = "customer.create"; type = HookType.after; priority = 10 })
      (λ value s. some (value, s)) hooks

-- The cases with the names of their customers: an inner join.
unfoldable pub with_names : List Customer → List SupportCase → List (SupportCase × String)
with_names customers [] = []
with_names customers (c ∷ cases) =
    let rest = with_names customers cases in
    elim (find (λ customer. customer.id == c.customer_id) customers) [
      | none ↦ rest
      | some customer ↦ (c, customer.name) ∷ rest
    ]

unfoldable pub list_cases : Call → Store → List (SupportCase × String)
unfolding with_names select newest_first
list_cases call s =
    with_names (select customer_keys call.tenant_id (λ _. true) s.customers) (
      newest_first (λ c. c.created_at)
        (select case_keys call.tenant_id (λ _. true) s.support_cases))

unfoldable pub get_case : Call → String → Store → Outcome SupportCase
unfolding first_by_id
get_case call id s = elim (first_by_id case_keys call.tenant_id id s.support_cases) [
  | none ↦ failed s (resource_not_found "SupportCase" id)
  | some c ↦ done s c
]

abbrev pub new_case : Call → CreateCaseInput → SupportCase
new_case call input = record {
  id = call.id;
  tenant_id = call.tenant_id;
  customer_id = input.customer_id;
  title = input.title;
  description = input.description;
  status = "open";
  priority = or_keep input.priority "medium";
  assigned_to = none;
  resolved_at = none;
  created_at = call.now;
  updated_at = call.now;
}

unfoldable pub create_case : Call → CreateCaseInput → Store → Outcome SupportCase
unfolding first_by_id insert
create_case call input s =
    elim (first_by_id customer_keys call.tenant_id input.customer_id s.customers) [
      | none ↦ failed s (resource_not_found "Customer" input.customer_id)
      | some _ ↦ elim (insert case_keys call.tenant_id (new_case call input) s.support_cases) [
        | none ↦ failed s refused_by_policy
        | some rows ↦ done (record s { support_cases = rows }) (new_case call input)
      ]
    ]

abbrev pub is_resolved : Option String → Bool
is_resolved none = false
is_resolved (some status) = status == "resolved"

abbrev pub patched : UpdateCaseInput → ℕ → SupportCase → SupportCase
patched input now c = record c {
  title = or_keep input.title c.title;
  description = elim input.description [ none ↦ c.description | some text ↦ some text ];
  status = or_keep input.status c.status;
  priority = or_keep input.priority c.priority;
  assigned_to = or_keep input.assigned_to c.assigned_to;
  resolved_at = if is_resolved input.status then some now else c.resolved_at;
  updated_at = now;
}

unfoldable pub update_case : Call → String → UpdateCaseInput → Store → Outcome SupportCase
unfolding first_by_id update_by_id
update_case call id input s = elim (first_by_id case_keys call.tenant_id id s.support_cases) [
  | none ↦ failed s (resource_not_found "SupportCase" id)
  | some c ↦
      done
        (record s {
          support_cases =
              update_by_id case_keys call.tenant_id id (patched input call.now) s.support_cases;
        })
        (patched input call.now c)
]

unfoldable pub delete_case : Call → String → Store → Outcome (Unit {0})
unfolding first_by_id delete_by_id
delete_case call id s = elim (first_by_id case_keys call.tenant_id id s.support_cases) [
  | none ↦ failed s (resource_not_found "SupportCase" id)
  | some _ ↦
      done (record s { support_cases = delete_by_id case_keys call.tenant_id id s.support_cases })
        tt
]
