-- ===== src/Cores/Invalid.antt =====
-- What a creation of a customer leaves where its event is refused.
use crm_multi_tenant_saas_ar.Prelude.{◌≡◌, false, ◌&&◌, String, [], ◌∷◌, arith, eq_refl}
use crm_multi_tenant_saas_ar.Prelude.Dict.{lookup, insert}
use crm_multi_tenant_saas_ar.Dal.Rls
use crm_multi_tenant_saas_ar.Dal.Rls.{is_visible}
use crm_multi_tenant_saas_ar.Events.{emit}
use crm_multi_tenant_saas_ar.Cores.Store.{Store, Call, failed, CoreError}
use crm_multi_tenant_saas_ar.Cores.CustomerCare
use crm_multi_tenant_saas_ar.Cores.CustomerData
use crm_multi_tenant_saas_ar.Cores.CustomerData.{
  Zod, CreateCustomerInput, HookData, create_customer, insert_customer, announce, new_customer,
  customer_create, has_email,
}
use crm_multi_tenant_saas_ar.Cores.Isolation.Customers.{quiet_hooks}

-- Where the schema of the event does not take the given email, or the key, the creation fails as an
-- invalid payload, and the customer has been stored all the same: a retry stores another.
pub create_customer-refused :
    (zod : Zod) (event_id : String) (call : Call) (new : CreateCustomerInput) (s : Store)
    → (zod.is_uuid call.id && has_email zod.is_email new.email) ≡ false
    → create_customer event_id
        (CustomerCare.on_module_init [])
        (CustomerData.on_module_init zod [])
        call
        new
        s
      ≡ failed
          (record s { customers = new_customer call new ∷ s.customers })
          CoreError.invalid_payload
unfolding create_customer insert_customer announce emit CustomerData.on_module_init lookup insert
    Rls.insert is_visible
create_customer-refused zod event_id call new s bad =
    let t : Store = record s { customers = new_customer call new ∷ s.customers } in
    let before = (quiet_hooks call.enabled_plugins (HookData.before_insert new) s).0 in
    let after =
      (quiet_hooks call.enabled_plugins (HookData.after_insert (new_customer call new)) t).1 in
    ground (arith, eq_refl call.tenant_id)
