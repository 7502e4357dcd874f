-- ===== src/Automation/Handlers/Scoped.antt =====
-- Which rows the handlers may change.
use crm_multi_tenant_saas_ar.Prelude.{
  ℕ, ◌≡◌, refl, false, String, Option, none, some, List, ◌⊎◌, inl, inr, ◌==◌, arith, includes,
  Bool-cases,
}
use crm_multi_tenant_saas_ar.Dal.Rls.{insert, rows_of, rows_of-insert, rows_of-update}
use crm_multi_tenant_saas_ar.Automation.Values.{Json}
use crm_multi_tenant_saas_ar.Automation.Template.{resolve_template}
use crm_multi_tenant_saas_ar.Automation.Handlers.{
  ActionCommandContext, CustomerUpdateFieldParams, CaseCreateParams, HandlerError, allowed_fields,
  set_field, invalid_action_params, refused_by_policy, load_customer, update_loaded, update_field,
  stored_case, open_loaded, open_case, opened_case,
}
use crm_multi_tenant_saas_ar.Cores.Store.{Customer, SupportCase, Store, customer_keys, case_keys}

set_field-keeps :
    (name value : String) (now : ℕ) (c : Customer)
    → (set_field name value now c).tenant_id ≡ c.tenant_id
unfolding set_field
set_field-keeps name value now c = ground arith

-- What a handler leaves of another tenant's rows, and of the whole state where it throws.
abbrev pub LeavesOthers : String → Store → Store × Option HandlerError → Type 0
LeavesOthers other s r =
    (rows_of customer_keys other r.0.customers ≡ rows_of customer_keys other s.customers)
    × (rows_of case_keys other r.0.support_cases ≡ rows_of case_keys other s.support_cases)
    × (r.0.automation_triggers ≡ s.automation_triggers)
    × ((e : HandlerError) → r.1 ≡ some e → r.0 ≡ s)

unchanged-LeavesOthers :
    (other : String) (s : Store) (e : Option HandlerError) → LeavesOthers other s (s, e)
unchanged-LeavesOthers other s e = (refl, refl, refl, λ _ _. refl)

stored_case-LeavesOthers :
    (session other : String) (c : SupportCase) (s : Store) (rows : Option (List SupportCase))
    → (session == other) ≡ false
    → insert case_keys session c s.support_cases ≡ rows
    → LeavesOthers other s (stored_case s rows)
stored_case-LeavesOthers session other c s none ne h =
    unchanged-LeavesOthers other s (some refused_by_policy)
stored_case-LeavesOthers session other c s (some rows) ne h =
    (refl, rows_of-insert case_keys session other c s.support_cases rows ne h, refl, λ e threw. cc)

module _ (inherited : Json → String → Option Json) (session other : String) where
  update_loaded-LeavesOthers :
      (ctx : ActionCommandContext) (params : CustomerUpdateFieldParams) (now : ℕ) (s : Store)
      (loaded : HandlerError ⊎ Customer)
      → (session == other) ≡ false
      → LeavesOthers other s (update_loaded inherited session ctx params now s loaded)
  unfolding update_loaded
  update_loaded-LeavesOthers ctx params now s (inl e) ne = unchanged-LeavesOthers other s (some e)
  update_loaded-LeavesOthers ctx params now s (inr c) ne =
      let value = resolve_template inherited params.value ctx.trigger_context in
      (
        rows_of-update customer_keys session other c.id (set_field params.field value now)
            s.customers ne (set_field-keeps params.field value now),
        refl,
        refl,
        λ e threw. cc,
      )

  open_loaded-LeavesOthers :
      (id : String) (ctx : ActionCommandContext) (params : CaseCreateParams) (now : ℕ) (s : Store)
      (loaded : HandlerError ⊎ Customer)
      → (session == other) ≡ false
      → LeavesOthers other s (open_loaded inherited session id ctx params now s loaded)
  unfolding open_loaded
  open_loaded-LeavesOthers id ctx params now s (inl e) ne = unchanged-LeavesOthers other s (some e)
  open_loaded-LeavesOthers id ctx params now s (inr c) ne =
      let row = opened_case inherited session id ctx params c now in
      stored_case-LeavesOthers session other row s (insert case_keys session row s.support_cases) ne
        refl

  -- Whatever an action asks for, in a session of one tenant the two handlers that write leave every
  -- other tenant's customers and cases and all triggers as they were; a handler that throws has
  -- written nothing, and a field that is not one of the four makes it throw.
  pub handlers-LeavesOthers :
      (id : String) (ctx : ActionCommandContext) (params : CustomerUpdateFieldParams)
      (opened : CaseCreateParams) (now : ℕ) (s : Store)
      → (session == other) ≡ false
      → LeavesOthers other s (update_field inherited session ctx params now s)
        × LeavesOthers other s (open_case inherited session id ctx opened now s)
        × (includes params.field allowed_fields ≡ false
            → (update_field inherited session ctx params now s).1 ≡ some invalid_action_params)
  unfolding update_field open_case
  handlers-LeavesOthers id ctx params opened now s ne = (
    elim (Bool-cases (includes params.field allowed_fields)) [
      | inl good ↦
          rw good
            (update_loaded-LeavesOthers ctx params now s (load_customer inherited session ctx s) ne)
      | inr bad ↦ rw bad (unchanged-LeavesOthers other s (some invalid_action_params))
    ],
    open_loaded-LeavesOthers id ctx opened now s (load_customer inherited session ctx s) ne,
    λ bad. rw bad refl,
  )
