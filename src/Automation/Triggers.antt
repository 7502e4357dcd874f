-- ===== src/Automation/Triggers.antt =====
-- backend/src/plugins/cores/automation/automation.core.ts: triggers, and what they start.
pub mod Rows
pub mod Fired
use crm_multi_tenant_saas_ar.Prelude.{
  ℕ, suc, ◌+◌, Bool, true, ◌&&◌, String, Option, none, some, List, [], ◌∷◌, ◌++◌, ◌==◌, leb, length,
  if◌then◌else◌,
}
use crm_multi_tenant_saas_ar.Dal.Rls.{select, first_by_id, insert, update_by_id, delete_by_id}
use crm_multi_tenant_saas_ar.Automation.Values.{Json}
use crm_multi_tenant_saas_ar.Automation.Conditions.{ConditionRule, evaluate_conditions}
use crm_multi_tenant_saas_ar.Automation.Actions.{ActionEvent, pending}
use crm_multi_tenant_saas_ar.Cores.Store.{
  StoredAction, AutomationTrigger, Store, Call, resource_not_found, refused_by_policy, Outcome,
  done, failed, trigger_keys, or_keep, newest_first,
}

pub record CreateTriggerInput : Type 0 where
  pub name : String
  pub event_type : String
  pub conditions : Option (List ConditionRule)
  pub actions : Option (List StoredAction)
  pub is_active : Option Bool

pub record UpdateTriggerInput : Type 0 where
  pub name : Option String
  pub event_type : Option String
  pub conditions : Option (List ConditionRule)
  pub actions : Option (List StoredAction)
  pub is_active : Option Bool

unfoldable pub list_triggers : Call → Store → List AutomationTrigger
unfolding select newest_first
list_triggers call s =
    newest_first (λ t. t.created_at)
      (select trigger_keys call.tenant_id (λ _. true) s.automation_triggers)

unfoldable pub get_trigger : Call → String → Store → Outcome AutomationTrigger
unfolding first_by_id
get_trigger call id s = elim (first_by_id trigger_keys call.tenant_id id s.automation_triggers) [
  | none ↦ failed s (resource_not_found "AutomationTrigger" id)
  | some t ↦ done s t
]

abbrev pub new_trigger : Call → CreateTriggerInput → AutomationTrigger
new_trigger call input = record {
  id = call.id;
  tenant_id = call.tenant_id;
  name = input.name;
  event_type = input.event_type;
  conditions = input.conditions;
  actions = or_keep input.actions [];
  is_active = or_keep input.is_active true;
  created_at = call.now;
  updated_at = call.now;
}

unfoldable pub create_trigger : Call → CreateTriggerInput → Store → Outcome AutomationTrigger
unfolding insert
create_trigger call input s =
    elim (insert trigger_keys call.tenant_id (new_trigger call input) s.automation_triggers) [
      | none ↦ failed s refused_by_policy
      | some rows ↦ done (record s { automation_triggers = rows }) (new_trigger call input)
    ]

abbrev pub patched : UpdateTriggerInput → ℕ → AutomationTrigger → AutomationTrigger
patched input now t = record t {
  name = or_keep input.name t.name;
  event_type = or_keep input.event_type t.event_type;
  conditions = elim input.conditions [ none ↦ t.conditions | some rules ↦ some rules ];
  actions = or_keep input.actions t.actions;
  is_active = or_keep input.is_active t.is_active;
  updated_at = now;
}

unfoldable pub update_trigger :
    Call → String → UpdateTriggerInput → Store → Outcome AutomationTrigger
unfolding first_by_id update_by_id
update_trigger call id input s =
    elim (first_by_id trigger_keys call.tenant_id id s.automation_triggers) [
      | none ↦ failed s (resource_not_found "AutomationTrigger" id)
      | some t ↦
          done
            (record s {
              automation_triggers =
                  update_by_id trigger_keys call.tenant_id id (patched input call.now)
                    s.automation_triggers;
            })
            (patched input call.now t)
    ]

unfoldable pub delete_trigger : Call → String → Store → Outcome (Unit {0})
unfolding first_by_id delete_by_id
delete_trigger call id s = elim (first_by_id trigger_keys call.tenant_id id s.automation_triggers) [
  | none ↦ failed s (resource_not_found "AutomationTrigger" id)
  | some _ ↦
      done
        (record s {
          automation_triggers = delete_by_id trigger_keys call.tenant_id id s.automation_triggers;
        })
        tt
]

-- `ORDER BY created_at ASC`
unfoldable pub put_oldest : AutomationTrigger → List AutomationTrigger → List AutomationTrigger
put_oldest t [] = t ∷ []
put_oldest t (x ∷ xs) =
    let rest = put_oldest t xs in if leb t.created_at x.created_at then t ∷ x ∷ xs else x ∷ rest

unfoldable pub oldest_first : List AutomationTrigger → List AutomationTrigger
unfolding put_oldest
oldest_first [] = []
oldest_first (t ∷ triggers) = put_oldest t (oldest_first triggers)

-- `.where({ event_type, is_active: true })`
abbrev pub listens : String → AutomationTrigger → Bool
listens event_type t = t.event_type == event_type && t.is_active

-- The row of one action; `draw` gives the keys that the database draws, in their order.
abbrev pub action_row :
    (ℕ → String) → ℕ → String → AutomationTrigger → Json → ℕ → ℕ → StoredAction → ActionEvent
action_row draw now tenant_id trigger ctx key index action = record {
  id = draw key;
  tenant_id = tenant_id;
  trigger_id = trigger.id;
  action_index = index;
  action_type = action.type;
  action_params = action.params;
  trigger_context = ctx;
  status = pending;
  attempts = 0;
  last_error = none;
  scheduled_at = now;
  queued_at = none;
  completed_at = none;
}

-- The inner loop: from an index on, with the number of rows before.
unfoldable pub action_rows :
    (ℕ → String)
    → ℕ
    → String
    → AutomationTrigger
    → Json
    → ℕ
    → ℕ
    → List StoredAction
    → List ActionEvent
action_rows draw now tenant_id trigger ctx key index [] = []
action_rows draw now tenant_id trigger ctx key index (a ∷ actions) =
    action_row draw now tenant_id trigger ctx key index a
    ∷ action_rows draw now tenant_id trigger ctx (key + 1) (index + 1) actions

module _ (inherited : Json → String → Option Json) where
  -- The loop over the triggers. A trigger without actions adds no row either way.
  unfoldable pub rows_for :
      (ℕ → String) → ℕ → String → Json → ℕ → List AutomationTrigger → List ActionEvent
  unfolding action_rows
  rows_for draw now tenant_id ctx key [] = []
  rows_for draw now tenant_id ctx key (t ∷ triggers) =
      let skipped = rows_for draw now tenant_id ctx key triggers in
      let taken =
        action_rows draw now tenant_id t ctx key 0 t.actions
        ++ rows_for draw now tenant_id ctx (key + length t.actions) triggers in
      if evaluate_conditions inherited t.conditions ctx then taken else skipped

  -- The rows that `fireTriggerEvents` inserts.
  unfoldable pub fired_rows : (ℕ → String) → Call → String → Json → Store → List ActionEvent
  unfolding rows_for select oldest_first
  fired_rows draw call event_type ctx s =
      rows_for draw call.now call.tenant_id ctx 0 (
        oldest_first
          (select trigger_keys call.tenant_id (listens event_type) s.automation_triggers))

  unfoldable pub fire_trigger_events :
      (ℕ → String) → Call → String → Json → Store → List ActionEvent → List ActionEvent
  unfolding fired_rows
  fire_trigger_events draw call event_type ctx s events =
      events ++ fired_rows draw call event_type ctx s
