-- ===== src/Cores/Isolation/Customers.antt =====
-- Customers are written through hooks and with an event.
use crm_multi_tenant_saas_ar.Prelude.{
  ◌≡◌, refl, sym, subst, false, String, some, List, [], ◌∷◌, ◌==◌, arith, includes, Bool-cases,
  Option-cases, inl, inr,
}
use crm_multi_tenant_saas_ar.Prelude.Dict.{Dict, lookup, insert}
use crm_multi_tenant_saas_ar.Dal.Rls
use crm_multi_tenant_saas_ar.Dal.Rls.{
  Keys, first_by_id, update_by_id, delete_by_id, rows_of, rows_of-insert, rows_of-update,
  rows_of-delete,
}
use crm_multi_tenant_saas_ar.Events.{EventDefinition, emit, new_event}
use crm_multi_tenant_saas_ar.Plugins.Hooks.{run_before, run_after}
use crm_multi_tenant_saas_ar.Cores.Store.{
  Customer, Store, Call, done, failed, hook_threw, customer_keys,
}
use crm_multi_tenant_saas_ar.Cores.CustomerData
use crm_multi_tenant_saas_ar.Cores.CustomerData.{
  Zod, HookData, CreateCustomerInput, UpdateCustomerInput, announce, insert_customer,
  create_customer, change_customer, update_customer, delete_customer, new_customer,
}
use crm_multi_tenant_saas_ar.Cores.CustomerCare
use crm_multi_tenant_saas_ar.Cores.CustomerCare.{
  CreateCaseInput, UpdateCaseInput, create_case, update_case, delete_case,
}
use crm_multi_tenant_saas_ar.Cores.Isolation.{
  creates_customer, deletes_customer, left, perform, SameRows, same, Keeps,
}

-- The one hook that is registered does nothing.
pub quiet_hooks :
    (enabled : List String) (value : HookData) (s : Store)
    → (run_before "customer.create" (some enabled) value (CustomerCare.on_module_init []) s
        ≡ some s)
      × (run_after "customer.create" (some enabled) value (CustomerCare.on_module_init []) s
          ≡ some s)
unfolding run_before run_after CustomerCare.on_module_init lookup insert
quiet_hooks enabled value s = elim (Bool-cases (includes "customer-care" enabled)) [
  | inl e ↦ (refl, rw e refl)
  | inr e ↦ (refl, rw e refl)
]

module _ (call : Call) (other : String) (foreign : (call.tenant_id == other) ≡ false)
    (s : Store) where
  announce-Keeps :
      (event_id : String) (definitions : Dict (EventDefinition Customer)) (c : Customer) (t : Store)
      → SameRows other s t
      → Keeps other s (left (announce event_id definitions call c t))
  unfolding announce emit
  announce-Keeps event_id definitions c t h =
      elim (Option-cases (lookup "customer.create" definitions)) [
        | inl e ↦
            let result : left (announce event_id definitions call c t) ≡ some t = ground arith in
            subst (Keeps other s) (sym result) h
        | inr (def, e) ↦ elim (Option-cases (def.parse c)) [
          | inl p ↦
              let result : left (announce event_id definitions call c t) ≡ some t = ground arith in
              subst (Keeps other s) (sym result) h
          | inr (payload, p) ↦
              let after : Store = record t {
                plugin_events =
                    new_event event_id call.now call.tenant_id def "customer.create" payload
                    ∷ t.plugin_events;
              } in
              let result : left (announce event_id definitions call c t) ≡ some after =
                ground arith in
              subst (Keeps other s) (sym result) (record {
                customers = h.customers;
                cases = h.cases;
                campaigns = h.campaigns;
                triggers = h.triggers;
                events = rw foreign h.events;
              })
        ]
      ]

  pub create_customer-Keeps :
      (zod : Zod) (event_id : String) (new : CreateCustomerInput)
      → Keeps other s (perform zod (creates_customer event_id new) call s)
  unfolding create_customer insert_customer
  create_customer-Keeps zod event_id new =
      let definitions = CustomerData.on_module_init zod [] in
      let before = (quiet_hooks call.enabled_plugins (HookData.before_insert new) s).0 in
      elim (Option-cases
        (Rls.insert customer_keys call.tenant_id (new_customer call new) s.customers)) [
          | inl e ↦
              let result : perform zod (creates_customer event_id new) call s ≡ some s =
                ground arith in
              subst (Keeps other s) (sym result) (same other s)
          | inr (rows, e) ↦
              let t : Store = record s { customers = rows } in
              let after =
                (quiet_hooks call.enabled_plugins (HookData.after_insert (new_customer call new))
                  t).1 in
              let result : perform zod (creates_customer event_id new) call s
                  ≡ left (announce event_id definitions call (new_customer call new) t) =
                ground arith in
              subst (Keeps other s) (sym result) (
                announce-Keeps event_id definitions (new_customer call new) t (record {
                  customers =
                      rows_of-insert customer_keys call.tenant_id other (new_customer call new)
                        s.customers rows foreign e;
                  cases = refl;
                  campaigns = refl;
                  triggers = refl;
                  events = refl;
                }))
        ]

  pub customers-Keeps :
      (id : String) (f : Customer → Customer)
      → ((c : Customer) → (f c).tenant_id ≡ c.tenant_id)
      → Keeps other s (left (change_customer call id f s))
  unfolding change_customer
  customers-Keeps id f keeps =
      elim (Option-cases (first_by_id customer_keys call.tenant_id id s.customers)) [
        | inl e ↦
            let result : left (change_customer call id f s) ≡ some s = ground arith in
            subst (Keeps other s) (sym result) (same other s)
        | inr (c, e) ↦
            let after : Store = record s {
              customers = update_by_id customer_keys call.tenant_id id f s.customers;
            } in
            let result : left (change_customer call id f s) ≡ some after = ground arith in
            subst (Keeps other s) (sym result) (record {
              customers =
                  rows_of-update customer_keys call.tenant_id other id f s.customers foreign keeps;
              cases = refl;
              campaigns = refl;
              triggers = refl;
              events = refl;
            })
      ]

  pub deletes_customer-Keeps :
      (zod : Zod) (id : String) → Keeps other s (perform zod (deletes_customer id) call s)
  unfolding delete_customer
  deletes_customer-Keeps zod id =
      let change : Customer → Customer =
        λ c. record c { is_active = false; updated_at = call.now } in
      let result : perform zod (deletes_customer id) call s
          ≡ left (change_customer call id change s) =
        elim (change_customer call id change s) as (λ o. left (CustomerData.forget o) ≡ left o) [
          | done t c ↦ refl
          | failed t e ↦ refl
          | hook_threw ↦ refl
        ] in
      subst (Keeps other s) (sym result) (customers-Keeps id change (λ c. refl))
