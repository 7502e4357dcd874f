-- ===== src/Cores/Isolation.antt =====
-- The operations of the cores that write, and what they leave of the other tenants' rows.
pub mod Customers
pub mod Kept
pub mod Reads
use crm_multi_tenant_saas_ar.Prelude.{
  ℕ, ◌≡◌, refl, sym, ap, ◌∙◌, subst, Bool, true, false, String, Option, none, some, List, [], ◌∷◌,
  ◌==◌, ◌⊎◌, arith, eq_iff, filter, find, includes, if◌then◌else◌, Bool-cases, Option-cases, inl,
  inr,
}
use crm_multi_tenant_saas_ar.Prelude.Dict.{Dict, lookup, insert}
use crm_multi_tenant_saas_ar.Dal.Rls
use crm_multi_tenant_saas_ar.Dal.Rls.{
  Keys, first_by_id, update_by_id, delete_by_id, rows_of, rows_of-insert, rows_of-update,
  rows_of-delete,
}
use crm_multi_tenant_saas_ar.Events.{EventDefinition, EventRow, emit, emitted, rejected, new_event}
use crm_multi_tenant_saas_ar.Plugins.Hooks.{register, run_each, run_before, run_after, skips}
use crm_multi_tenant_saas_ar.Cores.Store.{
  Customer, SupportCase, Campaign, AutomationTrigger, Store, Call, Outcome, done, failed,
  hook_threw, customer_keys, case_keys, campaign_keys, trigger_keys,
}
use crm_multi_tenant_saas_ar.Cores.CustomerData
use crm_multi_tenant_saas_ar.Cores.CustomerData.{
  Zod, HookData, CreateCustomerInput, UpdateCustomerInput, announce, insert_customer,
  create_customer, change_customer, update_customer, delete_customer, new_customer,
}
use crm_multi_tenant_saas_ar.Cores.CustomerCare
use crm_multi_tenant_saas_ar.Cores.CustomerCare.{
  CreateCaseInput, UpdateCaseInput, create_case, update_case, delete_case,
}
use crm_multi_tenant_saas_ar.Cores.Marketing.{
  CreateCampaignInput, UpdateCampaignInput, create_campaign, update_campaign, delete_campaign,
}
use crm_multi_tenant_saas_ar.Automation.Triggers.{
  CreateTriggerInput, UpdateTriggerInput, create_trigger, update_trigger, delete_trigger,
}

pub data Operation : Type 0 where
  creates_customer : String → CreateCustomerInput → Operation
  updates_customer : String → UpdateCustomerInput → Operation
  deletes_customer : String → Operation
  creates_case : CreateCaseInput → Operation
  updates_case : String → UpdateCaseInput → Operation
  deletes_case : String → Operation
  creates_campaign : CreateCampaignInput → Operation
  updates_campaign : String → UpdateCampaignInput → Operation
  deletes_campaign : String → Operation
  creates_trigger : CreateTriggerInput → Operation
  updates_trigger : String → UpdateTriggerInput → Operation
  deletes_trigger : String → Operation

-- The state that a call leaves, thrown or not; `none` if a hook threw.
abbrev pub left : {A : Type 0} → Outcome A → Option Store
left (done s _) = some s
left (failed s _) = some s
left hook_threw = none

-- An operation in a session of the caller's tenant, with the hooks and the event that the plugins
-- register when the application starts.
abbrev pub perform : Zod → Operation → Call → Store → Option Store
perform zod (creates_customer event_id new) call s = left (
    create_customer event_id (CustomerCare.on_module_init []) (CustomerData.on_module_init zod [])
      call new s)
perform zod (updates_customer id change) call s = left (update_customer call id change s)
perform zod (deletes_customer id) call s = left (delete_customer call id s)
perform zod (creates_case new) call s = left (create_case call new s)
perform zod (updates_case id change) call s = left (update_case call id change s)
perform zod (deletes_case id) call s = left (delete_case call id s)
perform zod (creates_campaign new) call s = left (create_campaign call new s)
perform zod (updates_campaign id change) call s = left (update_campaign call id change s)
perform zod (deletes_campaign id) call s = left (delete_campaign call id s)
perform zod (creates_trigger new) call s = left (create_trigger call new s)
perform zod (updates_trigger id change) call s = left (update_trigger call id change s)
perform zod (deletes_trigger id) call s = left (delete_trigger call id s)

-- The rows of a tenant are the same in the five tables.
pub record SameRows (tenant_id : String) (s t : Store) : Type 0 where
  pub customers :
      rows_of customer_keys tenant_id t.customers ≡ rows_of customer_keys tenant_id s.customers
  pub cases :
      rows_of case_keys tenant_id t.support_cases ≡ rows_of case_keys tenant_id s.support_cases
  pub campaigns :
      rows_of campaign_keys tenant_id t.marketing_campaigns
      ≡ rows_of campaign_keys tenant_id s.marketing_campaigns
  pub triggers :
      rows_of trigger_keys tenant_id t.automation_triggers
      ≡ rows_of trigger_keys tenant_id s.automation_triggers
  pub events :
      filter (λ r. r.tenant_id == tenant_id) t.plugin_events
      ≡ filter (λ r. r.tenant_id == tenant_id) s.plugin_events

abbrev pub same : (other : String) (s : Store) → SameRows other s s
same other s = record {
  customers = refl;
  cases = refl;
  campaigns = refl;
  triggers = refl;
  events = refl;
}

-- The state that is left keeps the other tenant's rows.
abbrev pub Keeps : String → Store → Option Store → Type 0
Keeps other s none = Unit
Keeps other s (some t) = SameRows other s t
