-- ===== src/Cores/CustomerData.antt =====
-- backend/src/plugins/cores/customer-data/customer-data.core.ts
use crm_multi_tenant_saas_ar.Prelude.{
  ℕ, Bool, true, false, ◌&&◌, String, Option, none, some, List, ◌==◌, ◌<>◌, take, if◌then◌else◌,
}
use crm_multi_tenant_saas_ar.Prelude.Dict.{Dict}
use crm_multi_tenant_saas_ar.Dal.Rls.{select, first_by_id, insert, update_by_id}
use crm_multi_tenant_saas_ar.Events.{
  EventDefinition, EmitError, unknown_event, invalid_payload, emitted, rejected, emit, register,
}
use crm_multi_tenant_saas_ar.Plugins.Hooks.{HookEntry, run_before, run_after}
use crm_multi_tenant_saas_ar.Cores.Store.{
  Customer, Store, Call, CoreError, resource_not_found, refused_by_policy, Outcome, done, failed,
  hook_threw, customer_keys, or_keep, newest_first,
}

pub record CreateCustomerInput : Type 0 where
  pub name : String
  pub email : Option String
  pub phone : Option String
  pub company : Option String

pub record UpdateCustomerInput : Type 0 where
  pub name : Option String
  pub email : Option String
  pub phone : Option String
  pub company : Option String
  pub is_active : Option Bool

pub record ListCustomersFilter : Type 0 where
  pub name : Option String
  pub company : Option String
  pub phone : Option String
  pub status : Option String

-- What a hook of `customer.create` is given: the input before, the row after.
pub data HookData : Type 0 where
  before_insert : CreateCustomerInput → HookData
  after_insert : Customer → HookData

abbrev pub Hooks : Type 0
Hooks = Dict (List (HookEntry Store HookData))

-- What the code takes of zod, and the JSON text of a parsed payload.
pub record Zod : Type 0 where
  pub is_uuid : String → Bool
  pub is_email : String → Bool
  pub stringify : Customer → String

unfoldable pub has_email : (String → Bool) → Option String → Bool
has_email is_email none = true
has_email is_email (some email) = is_email email

-- The event that `onModuleInit` registers.
unfoldable pub customer_create : Zod → EventDefinition Customer
unfolding has_email
customer_create zod = record {
  name = "customer.create";
  plugin = "customer-data";
  parse = λ c.
      if zod.is_uuid c.id && has_email zod.is_email c.email then some (zod.stringify c) else none;
}

unfoldable pub on_module_init :
    Zod → Dict (EventDefinition Customer) → Dict (EventDefinition Customer)
unfolding customer_create register
on_module_init zod definitions = register (customer_create zod) definitions

-- The conditions on `is_active`.
unfoldable pub has_status : Option String → Customer → Bool
has_status none c = c.is_active
has_status (some status) c =
    if status == ""
    then c.is_active
    else if status == "active"
    then c.is_active
    else if status == "inactive"
    then (if c.is_active then false else true)
    else true

-- `ilike` is PostgreSQL's, of a text and a pattern.
module _ (ilike : String → String → Bool) where
  -- `column ILIKE '%value%'`, where a value is given that is not empty; a NULL matches nothing.
  unfoldable pub matches : Option String → Option String → Bool
  matches none column = true
  matches (some value) none = value == ""
  matches (some value) (some column) =
      if value == "" then true else ilike column ("%" <> value <> "%")

  unfoldable pub list_customers : Call → ListCustomersFilter → Store → List Customer
  unfolding has_status matches select newest_first
  list_customers call filter s = take 100 (
      newest_first (λ c. c.created_at)
        (select customer_keys call.tenant_id
          (λ c.
            has_status filter.status c
            && matches filter.name (some c.name)
            && matches filter.company c.company
            && matches filter.phone c.phone)
          s.customers))

unfoldable pub get_customer : Call → String → Store → Outcome Customer
unfolding first_by_id
get_customer call id s = elim (first_by_id customer_keys call.tenant_id id s.customers) [
  | none ↦ failed s (resource_not_found "Customer" id)
  | some c ↦ done s c
]

-- The row that the INSERT makes.
abbrev pub new_customer : Call → CreateCustomerInput → Customer
new_customer call input = record {
  id = call.id;
  tenant_id = call.tenant_id;
  name = input.name;
  email = input.email;
  phone = input.phone;
  company = input.company;
  is_active = true;
  created_at = call.now;
  updated_at = call.now;
}

abbrev pub core_error : EmitError → CoreError
core_error unknown_event = CoreError.unknown_event
core_error invalid_payload = CoreError.invalid_payload

-- The last step: the event. `event_id` is the key that the database draws for it.
unfoldable pub announce :
    String → Dict (EventDefinition Customer) → Call → Customer → Store → Outcome Customer
unfolding emit
announce event_id definitions call customer s =
    elim (emit event_id call.now definitions "customer.create" call.tenant_id customer
      s.plugin_events) [
        | emitted rows ↦ done (record s { plugin_events = rows }) customer
        | rejected e ↦ failed s (core_error e)
      ]

-- From the INSERT on.
unfoldable pub insert_customer :
    String
    → Hooks
    → Dict (EventDefinition Customer)
    → Call
    → CreateCustomerInput
    → Store
    → Outcome Customer
unfolding insert run_after announce
insert_customer event_id hooks definitions call input s =
    let customer = new_customer call input in
    elim (insert customer_keys call.tenant_id customer s.customers) [
      | none ↦ failed s refused_by_policy
      | some rows ↦
          elim (run_after "customer.create" (some call.enabled_plugins) (after_insert customer)
            hooks (record s { customers = rows })) [
              | none ↦ hook_threw
              | some after ↦ announce event_id definitions call customer after
            ]
    ]

unfoldable pub create_customer :
    String
    → Hooks
    → Dict (EventDefinition Customer)
    → Call
    → CreateCustomerInput
    → Store
    → Outcome Customer
unfolding run_before insert_customer
create_customer event_id hooks definitions call input s =
    elim (run_before "customer.create" (some call.enabled_plugins) (before_insert input) hooks s) [
      | none ↦ hook_threw
      | some before ↦ insert_customer event_id hooks definitions call input before
    ]

abbrev pub patched : UpdateCustomerInput → ℕ → Customer → Customer
patched input now c = record c {
  name = or_keep input.name c.name;
  email = elim input.email [ none ↦ c.email | some email ↦ some email ];
  phone = elim input.phone [ none ↦ c.phone | some phone ↦ some phone ];
  company = elim input.company [ none ↦ c.company | some company ↦ some company ];
  is_active = or_keep input.is_active c.is_active;
  updated_at = now;
}

-- An UPDATE that has found no row throws.
unfoldable pub change_customer : Call → String → (Customer → Customer) → Store → Outcome Customer
unfolding first_by_id update_by_id
change_customer call id f s = elim (first_by_id customer_keys call.tenant_id id s.customers) [
  | none ↦ failed s (resource_not_found "Customer" id)
  | some c ↦
      done (record s { customers = update_by_id customer_keys call.tenant_id id f s.customers })
        (f c)
]

unfoldable pub update_customer : Call → String → UpdateCustomerInput → Store → Outcome Customer
unfolding change_customer
update_customer call id input s = change_customer call id (patched input call.now) s

-- A call that answers with nothing.
abbrev pub forget : Outcome Customer → Outcome (Unit {0})
forget (done s _) = done s tt
forget (failed s e) = failed s e
forget hook_threw = hook_threw

-- `deleteCustomer` keeps the row.
unfoldable pub delete_customer : Call → String → Store → Outcome (Unit {0})
unfolding change_customer
delete_customer call id s =
    forget (change_customer call id (λ c. record c { is_active = false; updated_at = call.now }) s)
