-- ===== src/Automation/Triggers/Fired.antt =====
-- Which rows an event makes.
use crm_multi_tenant_saas_ar.Prelude.{ℕ, ◌≡◌, true, ◌&&◌, String, Option, some, ◌==◌, arith, eq_iff}
use crm_multi_tenant_saas_ar.Prelude.Member.{In, get_elem?, In-filter, filter-In}
use crm_multi_tenant_saas_ar.Dal.Rls.{is_visible, select}
use crm_multi_tenant_saas_ar.Automation.Values.{Json}
use crm_multi_tenant_saas_ar.Automation.Conditions.{evaluate_conditions}
use crm_multi_tenant_saas_ar.Automation.Actions.{ActionEvent}
use crm_multi_tenant_saas_ar.Automation.Triggers.{oldest_first, listens, fired_rows}
use crm_multi_tenant_saas_ar.Cores.Store.{
  StoredAction, AutomationTrigger, Store, Call, trigger_keys,
}
use crm_multi_tenant_saas_ar.Automation.Triggers.Rows.{
  IsRowOf, oldest_first-In, In-oldest_first, In-rows_for, rows_for-In,
}

-- The trigger is one that the event starts.
abbrev pub Starts :
    (Json → String → Option Json) → Call → String → Json → Store → AutomationTrigger → Type 0
Starts inherited call event_type ctx s t =
    In t s.automation_triggers
    × (t.tenant_id ≡ call.tenant_id)
    × (t.event_type ≡ event_type)
    × (t.is_active ≡ true)
    × (evaluate_conditions inherited t.conditions ctx ≡ true)

module _ (inherited : Json → String → Option Json) (draw : ℕ → String) (call : Call)
    (event_type : String) (ctx : Json) (s : Store) where
  chosen-Starts :
      (t : AutomationTrigger)
      → In t (select trigger_keys call.tenant_id (listens event_type) s.automation_triggers)
      → In t s.automation_triggers
        × (t.tenant_id ≡ call.tenant_id)
        × (t.event_type ≡ event_type)
        × (t.is_active ≡ true)
  unfolding select is_visible
  chosen-Starts t i =
      let (here, good) =
        In-filter (λ x. (x.tenant_id == call.tenant_id) && listens event_type x) t
          s.automation_triggers i in
      (
        here,
        ground (arith, eq_iff t.tenant_id call.tenant_id),
        ground (arith, eq_iff t.event_type event_type),
        ground arith,
      )

  Starts-chosen :
      (t : AutomationTrigger)
      → Starts inherited call event_type ctx s t
      → In t (select trigger_keys call.tenant_id (listens event_type) s.automation_triggers)
  unfolding select is_visible
  Starts-chosen t (here, own, listening, active, _) =
      filter-In (λ x. (x.tenant_id == call.tenant_id) && listens event_type x) t
        s.automation_triggers here
        (ground (arith, eq_iff t.tenant_id call.tenant_id, eq_iff t.event_type event_type))

  -- The row is that of an action of a trigger that the event starts.
  abbrev pub Started : ActionEvent → Type 0
  Started e =
      (t : AutomationTrigger) × Starts inherited call event_type ctx s t
      × (i : ℕ) × (a : StoredAction) × (get_elem? t.actions i ≡ some a)
      × IsRowOf call.tenant_id t ctx i a e

  fired_rows-Started :
      (e : ActionEvent) → In e (fired_rows inherited draw call event_type ctx s) → Started e
  unfolding fired_rows
  fired_rows-Started e i =
      let unsorted =
        select trigger_keys call.tenant_id (listens event_type) s.automation_triggers in
      let (t, here, on, n, a, found, row) =
        In-rows_for draw call.now call.tenant_id ctx inherited e 0 (oldest_first unsorted) i in
      let (stored, own, listening, active) = chosen-Starts t (In-oldest_first t unsorted here) in
      (t, (stored, own, listening, active, on), n, a, found, row)

  -- The two have one content: tenant, trigger, index, type, parameters, data and status.
  abbrev pub SameEvent : ActionEvent → ActionEvent → Type 0
  SameEvent e e' =
      (e.tenant_id ≡ e'.tenant_id)
      × (e.trigger_id ≡ e'.trigger_id)
      × (e.action_index ≡ e'.action_index)
      × (e.action_type ≡ e'.action_type)
      × (e.action_params ≡ e'.action_params)
      × (e.trigger_context ≡ e'.trigger_context)
      × (e.status ≡ e'.status)

  IsRowOf-SameEvent :
      (t : AutomationTrigger) (i : ℕ) (a : StoredAction) (e e' : ActionEvent)
      → IsRowOf call.tenant_id t ctx i a e
      → IsRowOf call.tenant_id t ctx i a e'
      → SameEvent e e'
  IsRowOf-SameEvent t i a e e' row row' = (cc, cc, cc, cc, cc, cc, cc)

  SameEvent-IsRowOf :
      (t : AutomationTrigger) (i : ℕ) (a : StoredAction) (e e' : ActionEvent)
      → SameEvent e e'
      → IsRowOf call.tenant_id t ctx i a e
      → IsRowOf call.tenant_id t ctx i a e'
  SameEvent-IsRowOf t i a e e' same row = (cc, cc, cc, cc, cc, cc, cc)

  Started-fired_rows :
      (e : ActionEvent)
      → Started e
      → (e' : ActionEvent) × In e' (fired_rows inherited draw call event_type ctx s)
        × SameEvent e' e
  unfolding fired_rows
  Started-fired_rows e (t, starts, i, a, found, row) =
      let unsorted =
        select trigger_keys call.tenant_id (listens event_type) s.automation_triggers in
      let (e', here, row') =
        rows_for-In draw call.now call.tenant_id ctx inherited t i 0 a (oldest_first unsorted)
          (oldest_first-In t unsorted (Starts-chosen t starts)) starts.4 found in
      (e', here, IsRowOf-SameEvent t i a e' e row' row)

  -- Of any event, whether it starts something or not: a row is made exactly if it is, in its tenant,
  -- trigger, index, type, parameters, data and status, the pending row, with the event's data, of an
  -- action, at its index and with its type and parameters, of an active trigger of the tenant for that
  -- event whose conditions hold.
  pub fired_rows-Starts :
      (e : ActionEvent)
      → (((e' : ActionEvent) × In e' (fired_rows inherited draw call event_type ctx s)
            × SameEvent e' e)
          → Started e)
        × (Started e
            → (e' : ActionEvent) × In e' (fired_rows inherited draw call event_type ctx s)
              × SameEvent e' e)
  fired_rows-Starts e = (
    λ (e', here, same).
        let (t, starts, i, a, found, row) = fired_rows-Started e' here in
        (t, starts, i, a, found, SameEvent-IsRowOf t i a e' e same row),
    Started-fired_rows e,
  )
