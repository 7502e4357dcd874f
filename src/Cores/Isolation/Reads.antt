-- ===== src/Cores/Isolation/Reads.antt =====
-- What a tenant reads is determined by its own rows.
use crm_multi_tenant_saas_ar.Prelude.{
  ℕ, ◌≡◌, refl, sym, ap, ◌∙◌, Bool, true, ◌&&◌, String, Option, some, List, [], ◌∷◌, ◌==◌, filter,
  find, Bool-cases, inl, inr,
}
use crm_multi_tenant_saas_ar.Dal.Rls.{Keys, rows_of, select, first_by_id, is_visible}
use crm_multi_tenant_saas_ar.Cores.Store.{
  Customer, Store, Call, customer_keys, case_keys, campaign_keys, trigger_keys,
}
use crm_multi_tenant_saas_ar.Cores.CustomerData.{
  ListCustomersFilter, list_customers, has_status, matches,
}
use crm_multi_tenant_saas_ar.Cores.CustomerCare.{list_cases}
use crm_multi_tenant_saas_ar.Cores.Marketing.{list_campaigns}
use crm_multi_tenant_saas_ar.Cores.Analytics.{summary, trends, is_recent}
use crm_multi_tenant_saas_ar.Automation.Values.{Json}
use crm_multi_tenant_saas_ar.Automation.Triggers.{list_triggers, fired_rows, listens}
use crm_multi_tenant_saas_ar.Cores.Isolation.{SameRows}

module _ {R : Type 0} (k : Keys R) (session : String) where
  select-rows_of :
      (test : R → Bool) (rows : List R)
      → select k session test rows ≡ filter test (rows_of k session rows)
  unfolding select is_visible
  select-rows_of test [] = refl
  select-rows_of test (r ∷ rows) =
      let ih = select-rows_of test rows in
      elim (Bool-cases (k.tenant_id r == session)) [
        | inl e ↦ rw (e, ih) refl
        | inr e ↦ rw (e, ih) refl
      ]

  select-same :
      (test : R → Bool) (xs ys : List R)
      → rows_of k session ys ≡ rows_of k session xs
      → select k session test ys ≡ select k session test xs
  select-same test xs ys h =
      select-rows_of test ys ∙ ap (filter test) h ∙ sym (select-rows_of test xs)

  first_by_id-rows_of :
      (id : String) (rows : List R)
      → first_by_id k session id rows ≡ find (λ r. k.id r == id) (rows_of k session rows)
  unfolding first_by_id is_visible
  first_by_id-rows_of id [] = refl
  first_by_id-rows_of id (r ∷ rows) =
      let ih = first_by_id-rows_of id rows in
      elim (Bool-cases (k.tenant_id r == session)) [
        | inl e ↦ rw (e, ih) refl
        | inr e ↦ rw (e, ih) refl
      ]

  first_by_id-same :
      (id : String) (xs ys : List R)
      → rows_of k session ys ≡ rows_of k session xs
      → first_by_id k session id ys ≡ first_by_id k session id xs
  first_by_id-same id xs ys h =
      first_by_id-rows_of id ys ∙ ap (find (λ r. k.id r == id)) h ∙ sym (first_by_id-rows_of id xs)

-- If two stores hold the same rows of a tenant, whatever they hold of the others, then its lists of
-- customers, cases, campaigns and triggers, its summary and its trends, each lookup by key, and the
-- actions that an event starts for it are the same.
pub reads-SameRows :
    (ilike : String → String → Bool) (inherited : Json → String → Option Json) (draw : ℕ → String)
    (call : Call) (chosen : ListCustomersFilter) (id event_type : String) (ctx : Json) (s t : Store)
    → SameRows call.tenant_id s t
    → (list_customers ilike call chosen t ≡ list_customers ilike call chosen s)
      × (list_cases call t ≡ list_cases call s)
      × (list_campaigns call t ≡ list_campaigns call s)
      × (list_triggers call t ≡ list_triggers call s)
      × (summary call t ≡ summary call s)
      × (trends call t ≡ trends call s)
      × (first_by_id customer_keys call.tenant_id id t.customers
          ≡ first_by_id customer_keys call.tenant_id id s.customers)
      × (first_by_id case_keys call.tenant_id id t.support_cases
          ≡ first_by_id case_keys call.tenant_id id s.support_cases)
      × (first_by_id campaign_keys call.tenant_id id t.marketing_campaigns
          ≡ first_by_id campaign_keys call.tenant_id id s.marketing_campaigns)
      × (first_by_id trigger_keys call.tenant_id id t.automation_triggers
          ≡ first_by_id trigger_keys call.tenant_id id s.automation_triggers)
      × (fired_rows inherited draw call event_type ctx t
          ≡ fired_rows inherited draw call event_type ctx s)
unfolding list_customers list_cases list_campaigns list_triggers summary trends fired_rows
reads-SameRows ilike inherited draw call chosen id event_type ctx s t h =
    let customers = λ (test : Customer → Bool).
      select-same customer_keys call.tenant_id test s.customers t.customers h.customers in
    let everyone = customers (λ _. true) in
    (
      rw
          (customers (λ c.
            has_status chosen.status c
            && matches ilike chosen.name (some c.name)
            && matches ilike chosen.company c.company
            && matches ilike chosen.phone c.phone))
          refl,
      rw
          (
            everyone,
            select-same case_keys call.tenant_id (λ _. true) s.support_cases t.support_cases
                h.cases,
          )
          refl,
      rw
          (select-same campaign_keys call.tenant_id (λ _. true) s.marketing_campaigns
            t.marketing_campaigns h.campaigns)
          refl,
      rw
          (select-same trigger_keys call.tenant_id (λ _. true) s.automation_triggers
            t.automation_triggers h.triggers)
          refl,
      rw (everyone, customers (λ c. c.is_active)) refl,
      rw (customers (λ c. is_recent call.now c)) refl,
      first_by_id-same customer_keys call.tenant_id id s.customers t.customers h.customers,
      first_by_id-same case_keys call.tenant_id id s.support_cases t.support_cases h.cases,
      first_by_id-same campaign_keys call.tenant_id id s.marketing_campaigns t.marketing_campaigns
          h.campaigns,
      first_by_id-same trigger_keys call.tenant_id id s.automation_triggers t.automation_triggers
          h.triggers,
      rw
          (select-same trigger_keys call.tenant_id (listens event_type) s.automation_triggers
            t.automation_triggers h.triggers)
          refl,
    )
