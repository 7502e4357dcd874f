-- ===== src/Admin/Tenants/Close.antt =====
-- `offboard` of
-- backend/src/api/v1/admin/tenants/admin-tenants.service.ts.
use crm_multi_tenant_saas_ar.Prelude.{
  Bool, false, String, Option, none, some, List, ◌==◌, find, if◌then◌else◌,
}
use crm_multi_tenant_saas_ar.Dal.Quota.{deregister}
use crm_multi_tenant_saas_ar.Dal.Pool.{deregister_vip_pool}
use crm_multi_tenant_saas_ar.Dal.Cache.{Redis, flush_tenant, invalidate_tenant_lookup}
use crm_multi_tenant_saas_ar.Gateway.Resolver.{Cached}
use crm_multi_tenant_saas_ar.Admin.Tables.{
  TenantRow, Database, find_tenant, update_tenant, disable_all,
}
use crm_multi_tenant_saas_ar.Admin.World.{
  World, Message, data_export, audit, not_found, unfinished, ok, failed, Call, send, and_then,
}

-- The transaction of `offboard`.
unfoldable pub offboard_db : String → Database → Database
unfolding update_tenant disable_all
offboard_db id db =
    let locked =
      update_tenant id (λ t. record t { status = "offboarding"; is_active = false }) db in
    update_tenant id (λ t. record t { status = "offboarded"; subdomain = none })
      (record locked { plugins = disable_all id locked.plugins })

abbrev pub admin_email_of : String → Database → Option String
admin_email_of id db = elim (find (λ a. a.tenant_id == id) db.admins) [
  | none ↦ none
  | some a ↦ some a.email
]

module _ (redis : Redis Cached) (accepts : Message → Bool) where
  open redis use {Store}

  abbrev pub end_vip_pool : String → String → World Store → World Store
  end_vip_pool id tier w =
      if tier == "vip" then record w { pools = (deregister_vip_pool id w.pools).0 } else w

  -- The last steps of `offboard`, after the cache is flushed.
  unfoldable pub finish_offboard : String → TenantRow → Option String → Call Store Unit
  unfolding send and_then
  finish_offboard id row email w =
      and_then (send accepts (audit id "tenant.offboarded" id) w) (λ _ w'.
        and_then (send accepts (data_export id row.name row.tier email) w')
          (λ _ w''. (end_vip_pool id row.tier w'', ok tt)))

  -- After the flush, with the cache that it leaves.
  unfoldable pub release_flushed :
      String → TenantRow → Option String → Option Store → Call Store Unit
  unfolding finish_offboard
  release_flushed id row email none w = (w, failed unfinished)
  release_flushed id row email (some cache) w =
      finish_offboard id row email
        (record w { cache = invalidate_tenant_lookup redis id row.subdomain cache })

  -- The steps after COMMIT, given the replies to the two SCANs.
  unfoldable pub release_all :
      String
      → TenantRow
      → Option String
      → List (String × List String)
      → List (String × List String)
      → Call Store Unit
  unfolding release_flushed
  release_all id row email application rate w =
      release_flushed id row email (flush_tenant redis id application rate w.cache)
        (record w { slots = deregister id w.slots })

  unfoldable pub offboard_row :
      String
      → Option TenantRow
      → List (String × List String)
      → List (String × List String)
      → Call Store Unit
  unfolding offboard_db release_all
  offboard_row id none application rate w = (w, failed not_found)
  offboard_row id (some row) application rate w =
      release_all id row (admin_email_of id w.db) application rate
        (record w { db = offboard_db id w.db })

  -- `offboard`
  unfoldable pub offboard :
      String → List (String × List String) → List (String × List String) → Call Store Unit
  unfolding offboard_row
  offboard id application rate w = offboard_row id (find_tenant id w.db) application rate w
