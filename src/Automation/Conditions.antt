-- ===== src/Automation/Conditions.antt =====
-- `evaluateConditions` of backend/src/plugins/cores/automation/automation.core.ts.
pub mod Meaning
use crm_multi_tenant_saas_ar.Prelude.{
  Bool, true, false, not, String, Option, none, some, List, [], ◌∷◌, ◌==◌, if◌then◌else◌,
}
use crm_multi_tenant_saas_ar.Prelude.Chars.{chars, text, trim, contains, starts_with}
use crm_multi_tenant_saas_ar.Automation.Values.{Json, null, obj, end, text_of, or_missing}
use crm_multi_tenant_saas_ar.Automation.Template.{property}

pub record ConditionRule : Type 0 where
  pub field : String
  pub op : String
  pub value : Option String

abbrev pub text_or_empty : Option String → String
text_or_empty none = ""
text_or_empty (some s) = s

-- The test of one rule that returns false.
unfoldable pub violates : String → String → String → Bool
unfolding contains starts_with trim
violates op field_value rule_value =
    if op == "equals"
    then not (field_value == rule_value)
    else if op == "not_equals"
    then field_value == rule_value
    else if op == "contains"
    then not (contains (chars rule_value) (chars field_value))
    else if op == "starts_with"
    then not (starts_with (chars rule_value) (chars field_value))
    else if op == "is_empty"
    then not (text (trim (chars field_value)) == "")
    else if op == "is_not_empty"
    then text (trim (chars field_value)) == ""
    else false

module _ (inherited : Json → String → Option Json) where
  -- `String(customer[rule.field] ?? '')`
  unfoldable pub field_text : String → Json → String
  unfolding property
  field_text field customer = elim (or_missing (property inherited customer field)) [
    | none ↦ ""
    | some v ↦ text_of v
  ]

  -- The loop over the rules.
  unfoldable pub holds_all : List ConditionRule → Json → Bool
  unfolding violates field_text
  holds_all [] customer = true
  holds_all (r ∷ rules) customer =
      let rest = holds_all rules customer in
      if violates r.op (field_text r.field customer) (text_or_empty r.value) then false else rest

  -- `triggerContext.customer ?? {}`
  abbrev pub customer_of : Json → Json
  customer_of ctx = elim (or_missing (property inherited ctx "customer")) [
    | none ↦ obj end
    | some v ↦ v
  ]

  -- The rules are `conditions?.and`, which may be missing.
  unfoldable pub evaluate_conditions : Option (List ConditionRule) → Json → Bool
  unfolding holds_all
  evaluate_conditions none ctx = true
  evaluate_conditions (some rules) ctx = holds_all rules (customer_of ctx)
