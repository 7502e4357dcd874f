-- ===== src/Automation/Catalogue.antt =====
-- backend/src/plugins/cores/automation/action-catalog.ts and action-registry.ts: which actions a
-- tenant may choose.
use crm_multi_tenant_saas_ar.Prelude.{
  Bool, true, false, String, Option, none, some, List, [], ◌∷◌, all, filter, includes,
}
use crm_multi_tenant_saas_ar.Prelude.Dict.{Dict, lookup, insert, has}

pub record ActionParamSchema : Type 0 where
  pub name : String
  pub label : String
  pub type : String
  pub required : Bool
  -- Value and label.
  pub options : List (String × String)
  pub hint : Option String

pub record ActionDefinition : Type 0 where
  pub type : String
  pub label : String
  pub description : String
  pub required_plugins : List String
  pub params : List ActionParamSchema

abbrev pub webhook_call : ActionDefinition
webhook_call = record {
  type = "webhook.call";
  label = "Call Webhook";
  description = "Send an HTTP request to an external URL.";
  required_plugins = [];
  params =
      record {
        name = "url";
        label = "URL";
        type = "url";
        required = true;
        options = [];
        hint = some "https://example.com/webhook";
      }
      ∷ record {
        name = "method";
        label = "Method";
        type = "enum";
        required = true;
        options = ("POST", "POST") ∷ ("GET", "GET") ∷ ("PUT", "PUT") ∷ [];
        hint = none;
      }
      ∷ record {
        name = "body";
        label = "Body";
        type = "template-string";
        required = false;
        options = [];
        hint = some "{\"customer\": \"{{customer.name}}\"}";
      }
      ∷ [];
}

abbrev pub customer_update_field : ActionDefinition
customer_update_field = record {
  type = "customer.update_field";
  label = "Update Customer Field";
  description = "Update a field on the customer that triggered this event.";
  required_plugins = "customer-data" ∷ [];
  params =
      record {
        name = "field";
        label = "Field";
        type = "enum";
        required = true;
        options =
            ("name", "Name")
            ∷ ("email", "Email")
            ∷ ("phone", "Phone")
            ∷ ("company", "Company")
            ∷ [];
        hint = none;
      }
      ∷ record {
        name = "value";
        label = "Value";
        type = "template-string";
        required = true;
        options = [];
        hint = some "{{customer.name}}";
      }
      ∷ [];
}

abbrev pub case_create : ActionDefinition
case_create = record {
  type = "case.create";
  label = "Create Support Case";
  description = "Open a support case linked to the triggering customer.";
  required_plugins = "customer-care" ∷ [];
  params =
      record {
        name = "title";
        label = "Title";
        type = "template-string";
        required = true;
        options = [];
        hint = some "Welcome — {{customer.name}}";
      }
      ∷ record {
        name = "priority";
        label = "Priority";
        type = "enum";
        required = true;
        options = ("low", "Low") ∷ ("medium", "Medium") ∷ ("high", "High") ∷ [];
        hint = none;
      }
      ∷ record {
        name = "description";
        label = "Description";
        type = "template-string";
        required = false;
        options = [];
        hint = some "Customer email: {{customer.email}}";
      }
      ∷ [];
}

abbrev pub action_catalog : List ActionDefinition
action_catalog = webhook_call ∷ customer_update_field ∷ case_create ∷ []

unfoldable pub get_available_actions : List String → List ActionDefinition
get_available_actions enabled =
    filter (λ def. all (λ p. includes p enabled) def.required_plugins) action_catalog

-- The handlers `H` by their action type.
module _ {H : Type 0} where
  unfoldable pub register : String → H → Dict H → Dict H
  register action_type handler handlers = insert action_type handler handlers

  -- `none` where the source throws UNKNOWN_ACTION_TYPE.
  unfoldable pub get_handler : String → Dict H → Option H
  get_handler type handlers = lookup type handlers

  unfoldable pub get_available_for : List String → Dict H → List ActionDefinition
  unfolding get_available_actions
  get_available_for enabled handlers =
      filter (λ def. has def.type handlers) (get_available_actions enabled)
