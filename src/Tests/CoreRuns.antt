-- ===== src/Tests/CoreRuns.antt =====
-- Runs of the theorems on the plugins' cores.
use crm_multi_tenant_saas_ar.Prelude.{
  ℕ, ◌≡◌, refl, Bool, true, false, not, String, Option, none, some, List, [], ◌∷◌, ◌==◌, eqb,
  filter, length,
}
use crm_multi_tenant_saas_ar.Dal.Rls.{select, first_by_id}
use crm_multi_tenant_saas_ar.Automation.Values.{Json}
use crm_multi_tenant_saas_ar.Automation.Triggers.{list_triggers, fired_rows}
use crm_multi_tenant_saas_ar.Cores.Store.{
  Customer, Store, Call, customer_keys, case_keys, campaign_keys, trigger_keys,
}
use crm_multi_tenant_saas_ar.Cores.CustomerData.{Zod, ListCustomersFilter, list_customers}
use crm_multi_tenant_saas_ar.Cores.CustomerCare.{list_cases}
use crm_multi_tenant_saas_ar.Cores.Marketing.{list_campaigns}
use crm_multi_tenant_saas_ar.Cores.Analytics.{summary, trends, date_of, is_recent}
use crm_multi_tenant_saas_ar.Cores.Analytics.Trends.{count_at, Ordered, trends_counts}
use crm_multi_tenant_saas_ar.Cores.Isolation.{Operation, creates_customer, perform, SameRows, Keeps}
use crm_multi_tenant_saas_ar.Cores.Isolation.Kept.{perform-Keeps}
use crm_multi_tenant_saas_ar.Cores.Isolation.Reads.{reads-SameRows}
use crm_multi_tenant_saas_ar.Tests.Samples.{id_a, id_b}

abbrev ann : Customer
ann = record {
  id = "c1";
  tenant_id = id_a;
  name = "Ann";
  email = some "ann@acme.test";
  phone = none;
  company = none;
  is_active = true;
  created_at = 86400000;
  updated_at = 86400000;
}

abbrev bob : Customer
bob = record ann { id = "c2"; tenant_id = id_b; name = "Bob" }

abbrev with_customers : List Customer → Store
with_customers customers = record {
  customers = customers;
  support_cases = [];
  marketing_campaigns = [];
  automation_triggers = [];
  plugin_events = [];
}

abbrev store : Store
store =
    with_customers
      (ann ∷ (bob ∷ (record ann { id = "c3"; is_active = false; created_at = 90000000 } ∷ [])))

abbrev call : Call
call = record {
  tenant_id = id_a;
  enabled_plugins = "customer-data" ∷ ("customer-care" ∷ []);
  id = "n1";
  now = 172800000;
}

-- A schema that takes an address with some character in it, and any key.
abbrev zod : Zod
zod = record { is_uuid = λ id. true; is_email = λ s. not (s == ""); stringify = λ c. c.name }

abbrev creation : Operation
creation =
    creates_customer "e1"
      (record { name = "Cem"; email = some "cem@acme.test"; phone = none; company = none })

perform-Keeps_example : Keeps id_b store (perform zod creation call store)
perform-Keeps_example = perform-Keeps call id_b refl store zod creation

abbrev ilike : String → String → Bool
ilike s pattern = s == pattern

abbrev nothing : Json → String → Option Json
nothing v key = none

abbrev draw : ℕ → String
draw n = "a1"

abbrev everyone : ListCustomersFilter
everyone = record { name = none; company = none; phone = none; status = some "all" }

-- The other tenant's customer is gone.
abbrev smaller : Store
smaller =
    with_customers (ann ∷ (record ann { id = "c3"; is_active = false; created_at = 90000000 } ∷ []))

own_rows : SameRows call.tenant_id store smaller
own_rows = record {
  customers = refl;
  cases = refl;
  campaigns = refl;
  triggers = refl;
  events = refl;
}

reads-SameRows_example :
    (list_customers ilike call everyone smaller ≡ list_customers ilike call everyone store)
    × (list_cases call smaller ≡ list_cases call store)
    × (list_campaigns call smaller ≡ list_campaigns call store)
    × (list_triggers call smaller ≡ list_triggers call store)
    × (summary call smaller ≡ summary call store)
    × (trends call smaller ≡ trends call store)
    × (first_by_id customer_keys call.tenant_id "c1" smaller.customers
        ≡ first_by_id customer_keys call.tenant_id "c1" store.customers)
    × (first_by_id case_keys call.tenant_id "c1" smaller.support_cases
        ≡ first_by_id case_keys call.tenant_id "c1" store.support_cases)
    × (first_by_id campaign_keys call.tenant_id "c1" smaller.marketing_campaigns
        ≡ first_by_id campaign_keys call.tenant_id "c1" store.marketing_campaigns)
    × (first_by_id trigger_keys call.tenant_id "c1" smaller.automation_triggers
        ≡ first_by_id trigger_keys call.tenant_id "c1" store.automation_triggers)
    × (fired_rows nothing draw call "customer.create" Json.null smaller
        ≡ fired_rows nothing draw call "customer.create" Json.null store)
reads-SameRows_example =
    reads-SameRows ilike nothing draw call everyone "c1" "customer.create" Json.null store smaller
      own_rows

trends_counts_example :
    Ordered (trends call store)
    × ((date : ℕ)
        → count_at date (trends call store)
          ≡ length (
              filter
                (λ c. eqb (date_of c) date)
                (select customer_keys call.tenant_id (λ c. is_recent call.now c) store.customers)))
trends_counts_example = trends_counts call store

two_on_a_day : count_at 1 (trends call store) ≡ 2
unfolding trends
two_on_a_day = refl
