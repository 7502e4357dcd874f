-- ===== src/Cores/Isolation/Kept.antt =====
-- No operation of a tenant changes a row of another.
use crm_multi_tenant_saas_ar.Prelude.{
  ◌≡◌, refl, sym, subst, false, String, none, some, List, ◌==◌, arith, Option-cases, inl, inr,
}
use crm_multi_tenant_saas_ar.Dal.Rls
use crm_multi_tenant_saas_ar.Dal.Rls.{
  Keys, first_by_id, update_by_id, delete_by_id, rows_of, rows_of-insert, rows_of-update,
  rows_of-delete,
}
use crm_multi_tenant_saas_ar.Cores.Store.{
  SupportCase, Campaign, AutomationTrigger, Store, Call, Outcome, customer_keys, case_keys,
  campaign_keys, trigger_keys,
}
use crm_multi_tenant_saas_ar.Cores.CustomerData
use crm_multi_tenant_saas_ar.Cores.CustomerData.{
  Zod, HookData, CreateCustomerInput, UpdateCustomerInput, announce, insert_customer,
  create_customer, change_customer, update_customer, delete_customer, new_customer,
}
use crm_multi_tenant_saas_ar.Cores.CustomerCare
use crm_multi_tenant_saas_ar.Cores.CustomerCare.{
  CreateCaseInput, UpdateCaseInput, create_case, update_case, delete_case,
}
use crm_multi_tenant_saas_ar.Cores.Marketing
use crm_multi_tenant_saas_ar.Automation.Triggers
use crm_multi_tenant_saas_ar.Cores.Marketing.{
  new_campaign, CreateCampaignInput, UpdateCampaignInput, create_campaign, update_campaign,
  delete_campaign,
}
use crm_multi_tenant_saas_ar.Automation.Triggers.{
  CreateTriggerInput, UpdateTriggerInput, create_trigger, update_trigger, delete_trigger,
}
use crm_multi_tenant_saas_ar.Cores.Isolation.{
  Operation, creates_customer, updates_customer, deletes_customer, creates_case, updates_case,
  deletes_case, creates_campaign, updates_campaign, deletes_campaign, creates_trigger,
  updates_trigger, deletes_trigger, left, perform, SameRows, same, Keeps,
}
use crm_multi_tenant_saas_ar.Cores.Isolation.Customers.{
  create_customer-Keeps, customers-Keeps, deletes_customer-Keeps,
}

module _ (call : Call) (other : String) (foreign : (call.tenant_id == other) ≡ false)
    (s : Store) where
  -- An operation on one table: `place` puts other rows in it.
  module _ {R : Type 0} (k : Keys R) (old : List R) (place : List R → Store)
      (fits : (rows : List R)
        → rows_of k other rows ≡ rows_of k other old
        → SameRows other s (place rows)) where
    found-Keeps :
        {A : Type 0} (o : Outcome A) (id : String) (rows : List R)
        → rows_of k other rows ≡ rows_of k other old
        → (first_by_id k call.tenant_id id old ≡ none → left o ≡ some s)
        → ((r : R) → first_by_id k call.tenant_id id old ≡ some r → left o ≡ some (place rows))
        → Keeps other s (left o)
    found-Keeps o id rows h missing changed =
        elim (Option-cases (first_by_id k call.tenant_id id old)) [
          | inl e ↦ subst (Keeps other s) (sym (missing e)) (same other s)
          | inr (r, e) ↦ subst (Keeps other s) (sym (changed r e)) (fits rows h)
        ]

    inserted-Keeps :
        {A : Type 0} (o : Outcome A) (r : R)
        → (Rls.insert k call.tenant_id r old ≡ none → left o ≡ some s)
        → ((rows : List R)
            → Rls.insert k call.tenant_id r old ≡ some rows
            → left o ≡ some (place rows))
        → Keeps other s (left o)
    inserted-Keeps o r refused stored = elim (Option-cases (Rls.insert k call.tenant_id r old)) [
      | inl e ↦ subst (Keeps other s) (sym (refused e)) (same other s)
      | inr (rows, e) ↦
          subst (Keeps other s) (sym (stored rows e))
            (fits rows (rows_of-insert k call.tenant_id other r old rows foreign e))
    ]

  case_rows :
      (rows : List SupportCase)
      → rows_of case_keys other rows ≡ rows_of case_keys other s.support_cases
      → SameRows other s (record s { support_cases = rows })
  case_rows rows h = record {
    customers = refl;
    cases = h;
    campaigns = refl;
    triggers = refl;
    events = refl;
  }

  campaign_rows :
      (rows : List Campaign)
      → rows_of campaign_keys other rows ≡ rows_of campaign_keys other s.marketing_campaigns
      → SameRows other s (record s { marketing_campaigns = rows })
  campaign_rows rows h = record {
    customers = refl;
    cases = refl;
    campaigns = h;
    triggers = refl;
    events = refl;
  }

  trigger_rows :
      (rows : List AutomationTrigger)
      → rows_of trigger_keys other rows ≡ rows_of trigger_keys other s.automation_triggers
      → SameRows other s (record s { automation_triggers = rows })
  trigger_rows rows h = record {
    customers = refl;
    cases = refl;
    campaigns = refl;
    triggers = h;
    events = refl;
  }

  -- Whatever a tenant's request does with its customers, cases, campaigns and triggers, and also where
  -- it fails half way, with the hooks and the event that the plugins register at the start: the rows of
  -- every other tenant in the four tables and in the outbox of events are the same afterwards.
  pub perform-Keeps : (zod : Zod) (op : Operation) → Keeps other s (perform zod op call s)
  unfolding create_case update_case delete_case create_campaign update_campaign delete_campaign
      create_trigger update_trigger delete_trigger update_customer
  perform-Keeps zod (creates_customer event_id new) =
      create_customer-Keeps call other foreign s zod event_id new
  perform-Keeps zod (updates_customer id change) =
      customers-Keeps call other foreign s id (CustomerData.patched change call.now) (λ c. refl)
  perform-Keeps zod (deletes_customer id) = deletes_customer-Keeps call other foreign s zod id
  perform-Keeps zod (creates_case new) =
      elim (Option-cases (first_by_id customer_keys call.tenant_id new.customer_id s.customers)) [
        | inl e ↦
            let result : left (create_case call new s) ≡ some s = ground arith in
            subst (Keeps other s) (sym result) (same other s)
        | inr (c, e) ↦
            inserted-Keeps case_keys s.support_cases _ case_rows (create_case call new s)
              (CustomerCare.new_case call new) (λ i. ground arith) (λ rows i. ground arith)
      ]
  perform-Keeps zod (updates_case id change) =
      found-Keeps case_keys s.support_cases _ case_rows (update_case call id change s) id _
        (rows_of-update case_keys call.tenant_id other id (CustomerCare.patched change call.now)
          s.support_cases foreign (λ c. refl))
        (λ e. ground arith) (λ r e. ground arith)
  perform-Keeps zod (deletes_case id) =
      found-Keeps case_keys s.support_cases _ case_rows (delete_case call id s) id _
        (rows_of-delete case_keys call.tenant_id other id s.support_cases foreign)
        (λ e. ground arith) (λ r e. ground arith)
  perform-Keeps zod (creates_campaign new) =
      inserted-Keeps campaign_keys s.marketing_campaigns _ campaign_rows
        (create_campaign call new s) (new_campaign call new) (λ i. ground arith)
        (λ rows i. ground arith)
  perform-Keeps zod (updates_campaign id change) =
      found-Keeps campaign_keys s.marketing_campaigns _ campaign_rows
        (update_campaign call id change s) id _
        (rows_of-update campaign_keys call.tenant_id other id (Marketing.patched change call.now)
          s.marketing_campaigns foreign (λ c. refl))
        (λ e. ground arith) (λ r e. ground arith)
  perform-Keeps zod (deletes_campaign id) =
      found-Keeps campaign_keys s.marketing_campaigns _ campaign_rows (delete_campaign call id s) id
        _ (rows_of-delete campaign_keys call.tenant_id other id s.marketing_campaigns foreign)
        (λ e. ground arith) (λ r e. ground arith)
  perform-Keeps zod (creates_trigger new) =
      inserted-Keeps trigger_keys s.automation_triggers _ trigger_rows (create_trigger call new s)
        (Triggers.new_trigger call new) (λ i. ground arith) (λ rows i. ground arith)
  perform-Keeps zod (updates_trigger id change) =
      found-Keeps trigger_keys s.automation_triggers _ trigger_rows
        (update_trigger call id change s) id _
        (rows_of-update trigger_keys call.tenant_id other id (Triggers.patched change call.now)
          s.automation_triggers foreign (λ c. refl))
        (λ e. ground arith) (λ r e. ground arith)
  perform-Keeps zod (deletes_trigger id) =
      found-Keeps trigger_keys s.automation_triggers _ trigger_rows (delete_trigger call id s) id _
        (rows_of-delete trigger_keys call.tenant_id other id s.automation_triggers foreign)
        (λ e. ground arith) (λ r e. ground arith)
