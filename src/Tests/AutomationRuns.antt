-- ===== src/Tests/AutomationRuns.antt =====
-- Runs of the theorems on the automation.
use crm_multi_tenant_saas_ar.Prelude.{
  ℕ, ◌≡◌, ◌↔◌, refl, Bool, true, false, String, Option, none, some, List, [], ◌∷◌, arith, includes,
  map, inl,
}
use crm_multi_tenant_saas_ar.Prelude.Chars.{chars, text}
use crm_multi_tenant_saas_ar.Prelude.Member.{In, get_elem?}
use crm_multi_tenant_saas_ar.Automation.Values.{Json, str, obj, end, field, own_field, text_of}
use crm_multi_tenant_saas_ar.Automation.Template.{resolve_template}
use crm_multi_tenant_saas_ar.Automation.Template.Printed.{
  Part, literal, variable, printed, rendered, resolve_template-printed,
}
use crm_multi_tenant_saas_ar.Automation.Conditions.{ConditionRule, evaluate_conditions, customer_of}
use crm_multi_tenant_saas_ar.Automation.Conditions.Meaning.{MeetsAll, evaluate_conditions-MeetsAll}
use crm_multi_tenant_saas_ar.Automation.Triggers.{fired_rows}
use crm_multi_tenant_saas_ar.Automation.Triggers.Fired.{
  SameEvent, Started, Starts, fired_rows-Starts,
}
use crm_multi_tenant_saas_ar.Automation.Actions.{
  ActionEvent, pending, Actions, poll, claimed, process, succeeds, job_of,
}
use crm_multi_tenant_saas_ar.Automation.Actions.Executed.{
  Run, begins, goes_on, inserts, polls, attempts, Executed, Run-Executed,
}
use crm_multi_tenant_saas_ar.Automation.Actions.Lost.{IsLost, Run-IsLost}
use crm_multi_tenant_saas_ar.Cores.Store.{AutomationTrigger, StoredAction, Store, Call}
use crm_multi_tenant_saas_ar.Tests.Samples.{id_a, id_b}

-- Nothing is inherited.
abbrev nothing : Json → String → Option Json
nothing v key = none

abbrev ctx : Json
ctx = obj (
    field "customer"
      (obj (field "name" (str "Ann {{x}}") (field "email" (str "ann@acme.test") end))) end)

abbrev greeting : List Part
greeting =
    literal (chars "Dear ") ∷ (variable (chars " customer.name ") ∷ (literal (chars "!") ∷ []))

resolve_template-printed_example :
    resolve_template nothing (text (printed greeting)) ctx ≡ text (rendered nothing greeting ctx)
resolve_template-printed_example =
    resolve_template-printed nothing greeting ctx
      (omega arith, (((λ e. cc), omega arith), (omega arith, tt)))

abbrev rules : List ConditionRule
rules =
    record { field = "name"; op = "starts_with"; value = some "Ann" }
    ∷ (record { field = "phone"; op = "is_empty"; value = none } ∷ [])

rules_hold : evaluate_conditions nothing (some rules) ctx ≡ true
unfolding evaluate_conditions own_field text_of
rules_hold = refl

evaluate_conditions-MeetsAll_example :
    (evaluate_conditions nothing (some rules) ctx ≡ true)
    ↔ MeetsAll nothing rules (customer_of nothing ctx)
evaluate_conditions-MeetsAll_example = evaluate_conditions-MeetsAll nothing rules ctx

abbrev welcome : StoredAction
welcome = record { type = "case.create"; params = obj (field "title" (str "Welcome") end) }

abbrev trigger : AutomationTrigger
trigger = record {
  id = "t1";
  tenant_id = id_a;
  name = "welcome";
  event_type = "customer.create";
  conditions = some rules;
  actions = welcome ∷ [];
  is_active = true;
  created_at = 1;
  updated_at = 1;
}

-- A trigger of the tenant, one of another tenant, and one that is switched off.
abbrev store : Store
store = record {
  customers = [];
  support_cases = [];
  marketing_campaigns = [];
  automation_triggers =
      trigger
      ∷ (record trigger { id = "t2"; tenant_id = id_b }
          ∷ (record trigger { id = "t3"; is_active = false } ∷ []));
  plugin_events = [];
}

abbrev call : Call
call = record { tenant_id = id_a; enabled_plugins = "automation" ∷ []; id = "n1"; now = 7 }

abbrev draw : ℕ → String
draw n = "a1"

first_action : get_elem? trigger.actions 0 ≡ some welcome
first_action = refl

starts : Starts nothing call "customer.create" ctx store trigger
starts = (inl refl, refl, refl, refl, rules_hold)

abbrev action : ActionEvent
action = record {
  id = "a1";
  tenant_id = id_a;
  trigger_id = "t1";
  action_index = 0;
  action_type = "case.create";
  action_params = obj (field "title" (str "Welcome") end);
  trigger_context = ctx;
  status = pending;
  attempts = 0;
  last_error = none;
  scheduled_at = 7;
  queued_at = none;
  completed_at = none;
}

-- The action makes the row, and every row of its content is the row of an action.
fired_rows-Starts_example :
    (((e : ActionEvent) × In e (fired_rows nothing draw call "customer.create" ctx store)
        × SameEvent nothing draw call "customer.create" ctx store e action)
      → Started nothing draw call "customer.create" ctx store action)
    × (Started nothing draw call "customer.create" ctx store action
        → (e : ActionEvent) × In e (fired_rows nothing draw call "customer.create" ctx store)
          × SameEvent nothing draw call "customer.create" ctx store e action)
fired_rows-Starts_example = fired_rows-Starts nothing draw call "customer.create" ctx store action

-- So the event makes a row.
welcomed :
    (e : ActionEvent) × In e (fired_rows nothing draw call "customer.create" ctx store)
    × SameEvent nothing draw call "customer.create" ctx store e action
welcomed =
    (fired_rows-Starts nothing draw call "customer.create" ctx store action).1
      (trigger, starts, 0, welcome, first_action, (refl, refl, refl, refl, refl, refl, refl))

one_row : fired_rows nothing draw call "customer.create" ctx store ≡ action ∷ []
unfolding fired_rows evaluate_conditions own_field text_of
one_row = refl

abbrev unlocked : String → Bool
unlocked id = false

abbrev empty : Actions
empty = record { rows = []; jobs = []; executed = [] }

abbrev waiting : Actions
waiting = record { rows = action ∷ []; jobs = []; executed = [] }

abbrev finished : Actions
finished = process succeeds "a1" 9 (poll unlocked 1 8 waiting)

given : In (job_of action) (poll unlocked 1 8 waiting).jobs
unfolding poll
given = inl refl

life : Run empty finished
life =
    goes_on (goes_on (goes_on begins (inserts action refl refl)) (polls unlocked 1 8))
      (attempts succeeds (job_of action) 9 given)

Run-Executed_example : Executed finished.executed finished.rows
Run-Executed_example = Run-Executed life

-- BullMQ takes nothing.
chosen : includes "a1" (map (λ (r : ActionEvent). r.id) (claimed unlocked waiting.rows)) ≡ true
unfolding claimed
chosen = refl

Run-IsLost_example : IsLost "a1" (poll unlocked 0 9 (poll unlocked 0 8 waiting))
Run-IsLost_example =
    Run-IsLost waiting "a1" unlocked 0 8 chosen tt tt refl (goes_on begins (polls unlocked 0 9))
