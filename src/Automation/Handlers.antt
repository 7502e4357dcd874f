-- ===== src/Automation/Handlers.antt =====
-- backend/src/plugins/cores/automation/handlers: what the actions do, inside the context of a tenant.
pub mod Scoped
use crm_multi_tenant_saas_ar.Prelude.{
  ℕ, Bool, true, false, not, ◌||◌, String, Option, none, some, List, [], ◌∷◌, ◌⊎◌, inl, inr, ◌==◌,
  includes, if◌then◌else◌,
}
use crm_multi_tenant_saas_ar.Dal.Rls.{first_by_id, insert, update_by_id}
use crm_multi_tenant_saas_ar.Automation.Values.{Json, Fields, is_null, text_of, or_missing}
use crm_multi_tenant_saas_ar.Automation.Template.{property, resolve_template, resolve_params}
use crm_multi_tenant_saas_ar.Cores.Store.{Customer, SupportCase, Store, customer_keys, case_keys}

pub record ActionCommandContext : Type 0 where
  pub tenant_id : String
  pub event_id : String
  pub trigger_id : String
  pub trigger_context : Json

pub record CustomerUpdateFieldParams : Type 0 where
  pub field : String
  pub value : String

pub record CaseCreateParams : Type 0 where
  pub title : String
  pub priority : String
  pub description : Option String

pub data HandlerError : Type 0 where
  invalid_action_params : HandlerError
  customer_not_found : HandlerError
  refused_by_policy : HandlerError
  -- knex refuses an undefined value in a condition.
  undefined_binding : HandlerError
  webhook_failed : HandlerError

-- The state, and the error that is thrown.
abbrev pub Handled : Type 0
Handled = Store × Option HandlerError

abbrev pub allowed_fields : List String
allowed_fields = "name" ∷ "email" ∷ "phone" ∷ "company" ∷ []

-- `{ [field]: resolved, updated_at: NOW() }`
unfoldable pub set_field : String → String → ℕ → Customer → Customer
set_field name value now c =
    if name == "name"
    then record c { name = value; updated_at = now }
    else if name == "email"
    then record c { email = some value; updated_at = now }
    else if name == "phone"
    then record c { phone = some value; updated_at = now }
    else record c { company = some value; updated_at = now }

abbrev pub stored_case : Store → Option (List SupportCase) → Handled
stored_case s none = (s, some refused_by_policy)
stored_case s (some rows) = (record s { support_cases = rows }, none)

-- `session` is the tenant of the session, by which row level security goes; the context's is tested
-- once more.
module _ (inherited : Json → String → Option Json) (session : String) where
  -- `(ctx.triggerContext.customer as Record<string, unknown>)?.id`; `none` where it is undefined.
  unfoldable pub customer_id_of : Json → Option Json
  unfolding property
  customer_id_of ctx = elim (or_missing (property inherited ctx "customer")) [
    | none ↦ none
    | some customer ↦ property inherited customer "id"
  ]

  unfoldable pub found_customer : ActionCommandContext → Option Customer → HandlerError ⊎ Customer
  found_customer ctx none = inl customer_not_found
  found_customer ctx (some c) =
      if c.tenant_id == ctx.tenant_id then inr c else inl customer_not_found

  -- The customer that both handlers ask for, by the text of its key; `inl` is the error. No key is
  -- null.
  unfoldable pub load_customer : ActionCommandContext → Store → HandlerError ⊎ Customer
  unfolding customer_id_of first_by_id found_customer
  load_customer ctx s = elim (customer_id_of ctx.trigger_context) [
    | none ↦ inl undefined_binding
    | some id ↦
        if is_null id
        then inl customer_not_found
        else found_customer ctx (first_by_id customer_keys session (text_of id) s.customers)
  ]

  -- With the customer that was loaded.
  unfoldable pub update_loaded :
      ActionCommandContext
      → CustomerUpdateFieldParams
      → ℕ
      → Store
      → HandlerError ⊎ Customer
      → Handled
  unfolding update_by_id set_field
  update_loaded ctx params now s (inl e) = (s, some e)
  update_loaded ctx params now s (inr c) = (
    record s {
      customers =
          update_by_id customer_keys session c.id
            (set_field params.field (resolve_template inherited params.value ctx.trigger_context)
              now)
            s.customers;
    },
    none,
  )

  -- `CustomerUpdateFieldHandler.execute`
  unfoldable pub update_field :
      ActionCommandContext → CustomerUpdateFieldParams → ℕ → Store → Handled
  unfolding load_customer update_loaded
  update_field ctx params now s =
      if includes params.field allowed_fields
      then update_loaded ctx params now s (load_customer ctx s)
      else (s, some invalid_action_params)

  -- `params.description ? … : undefined`, and `description ?? null`.
  abbrev pub description_of : Option String → Json → Option String
  description_of none ctx = none
  description_of (some template) ctx =
      if template == "" then none else some (resolve_template inherited template ctx)

  abbrev pub opened_case :
      String → ActionCommandContext → CaseCreateParams → Customer → ℕ → SupportCase
  opened_case id ctx params c now = record {
    id = id;
    tenant_id = ctx.tenant_id;
    customer_id = c.id;
    title = resolve_template inherited params.title ctx.trigger_context;
    description = description_of params.description ctx.trigger_context;
    status = "open";
    priority = params.priority;
    assigned_to = none;
    resolved_at = none;
    created_at = now;
    updated_at = now;
  }

  unfoldable pub open_loaded :
      String
      → ActionCommandContext
      → CaseCreateParams
      → ℕ
      → Store
      → HandlerError ⊎ Customer
      → Handled
  unfolding insert
  open_loaded id ctx params now s (inl e) = (s, some e)
  open_loaded id ctx params now s (inr c) =
      stored_case s (insert case_keys session (opened_case id ctx params c now) s.support_cases)

  -- `CaseCreateHandler.execute`; the database draws the key.
  unfoldable pub open_case : String → ActionCommandContext → CaseCreateParams → ℕ → Store → Handled
  unfolding load_customer open_loaded
  open_case id ctx params now s = open_loaded id ctx params now s (load_customer ctx s)

  -- `WebhookCallHandler.execute`: the request that `fetch` is given; `ok` is its answer.
  unfoldable pub call_webhook :
      (Fields → Bool) → ActionCommandContext → Fields → Option HandlerError
  unfolding resolve_params
  call_webhook ok ctx params =
      if ok (resolve_params inherited params ctx.trigger_context) then none else some webhook_failed
