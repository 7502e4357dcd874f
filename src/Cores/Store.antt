-- ===== src/Cores/Store.antt =====
-- The tables of the plugins, as backend/src/db/migrations/20260303000004_plugin_tables.ts has them.
-- Times are in milliseconds; a status, a priority and a type are texts, since nothing checks them.
use crm_multi_tenant_saas_ar.Prelude.{
  ℕ, Bool, String, Option, none, some, List, [], ◌∷◌, leb, if◌then◌else◌,
}
use crm_multi_tenant_saas_ar.Dal.Rls.{Keys}
use crm_multi_tenant_saas_ar.Events.{EventRow}
use crm_multi_tenant_saas_ar.Automation.Values.{Json}
use crm_multi_tenant_saas_ar.Automation.Conditions.{ConditionRule}

pub record Customer : Type 0 where
  pub id : String
  pub tenant_id : String
  pub name : String
  pub email : Option String
  pub phone : Option String
  pub company : Option String
  pub is_active : Bool
  pub created_at : ℕ
  pub updated_at : ℕ

pub record SupportCase : Type 0 where
  pub id : String
  pub tenant_id : String
  pub customer_id : String
  pub title : String
  pub description : Option String
  pub status : String
  pub priority : String
  pub assigned_to : Option String
  pub resolved_at : Option ℕ
  pub created_at : ℕ
  pub updated_at : ℕ

pub record Campaign : Type 0 where
  pub id : String
  pub tenant_id : String
  pub name : String
  pub status : String
  pub campaign_type : String
  pub target_count : ℕ
  pub sent_count : ℕ
  pub scheduled_at : Option String
  pub created_at : ℕ
  pub updated_at : ℕ

pub record StoredAction : Type 0 where
  pub type : String
  pub params : Json

-- Of the conditions, their list `and`.
pub record AutomationTrigger : Type 0 where
  pub id : String
  pub tenant_id : String
  pub name : String
  pub event_type : String
  pub conditions : Option (List ConditionRule)
  pub actions : List StoredAction
  pub is_active : Bool
  pub created_at : ℕ
  pub updated_at : ℕ

pub record Store : Type 0 where
  pub customers : List Customer
  pub support_cases : List SupportCase
  pub marketing_campaigns : List Campaign
  pub automation_triggers : List AutomationTrigger
  pub plugin_events : List EventRow

-- `ORDER BY created_at DESC`, where equal times keep their order.
module _ {R : Type 0} (created_at : R → ℕ) where
  unfoldable pub put_newest : R → List R → List R
  put_newest r [] = r ∷ []
  put_newest r (x ∷ xs) =
      let rest = put_newest r xs in
      if leb (created_at x) (created_at r) then r ∷ x ∷ xs else x ∷ rest

  unfoldable pub newest_first : List R → List R
  unfolding put_newest
  newest_first [] = []
  newest_first (r ∷ rows) = put_newest r (newest_first rows)

-- `{ ...input }` in an update: what is undefined is left alone.
abbrev pub or_keep : {A : Type 0} → Option A → A → A
or_keep none old = old
or_keep (some new) old = new

-- The keys that row level security and the queries go by.
abbrev pub customer_keys : Keys Customer
customer_keys = record { tenant_id = λ r. r.tenant_id; id = λ r. r.id }

abbrev pub case_keys : Keys SupportCase
case_keys = record { tenant_id = λ r. r.tenant_id; id = λ r. r.id }

abbrev pub campaign_keys : Keys Campaign
campaign_keys = record { tenant_id = λ r. r.tenant_id; id = λ r. r.id }

abbrev pub trigger_keys : Keys AutomationTrigger
trigger_keys = record { tenant_id = λ r. r.tenant_id; id = λ r. r.id }

-- What the requests of a tenant read of their context, the keys that the database draws, and its
-- clock.
pub record Call : Type 0 where
  pub tenant_id : String
  pub enabled_plugins : List String
  pub id : String
  pub now : ℕ

pub data CoreError : Type 0 where
  resource_not_found : String → String → CoreError
  -- The policy of row level security refuses a row.
  refused_by_policy : CoreError
  unknown_event : CoreError
  invalid_payload : CoreError

-- What a call leaves, also where it throws. Where a hook throws, that is up to the hooks.
pub data Outcome (A : Type 0) : Type 0 where
  done : Store → A → Outcome A
  failed : Store → CoreError → Outcome A
  hook_threw : Outcome A
