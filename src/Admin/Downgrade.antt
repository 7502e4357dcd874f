-- ===== src/Admin/Downgrade.antt =====
-- `previewDowngrade` and `confirmDowngrade` of
-- backend/src/api/v1/admin/tenants/admin-tenants.service.ts. The names that JavaScript's `in` finds in
-- the prototype of `TIER_ORDER` are left aside.
pub mod Promise
use crm_multi_tenant_saas_ar.Prelude.{
  ℕ, ◌≡◌, Bool, true, false, not, ◌&&◌, ◌||◌, String, Option, none, some, List, [], ◌∷◌, ◌==◌, ◌<>◌,
  leb, if◌then◌else◌,
}
use crm_multi_tenant_saas_ar.Dal.Cache.{Redis}
use crm_multi_tenant_saas_ar.Gateway.Resolver.{Cached}
use crm_multi_tenant_saas_ar.Admin.Tables.{Database, tier_default_plugins, tier_order}
use crm_multi_tenant_saas_ar.Admin.World.{
  World, Message, AdminError, bad_request, not_found, Answer, ok, failed, Call,
}
use crm_multi_tenant_saas_ar.Admin.Tenants.{TenantView, UpdateInput, find_one, update, without}

pub record DowngradePreview : Type 0 where
  pub current_plan : String
  pub new_plan : String
  pub plugins_to_disable : List String
  pub data_note : String
  pub connection_cap_change : String
  pub rate_limit : String

-- `TIER_CONN_CAPS` and `TIER_RATE_LIMITS`.
abbrev pub tier_conn_cap : String → String
tier_conn_cap tier =
    if tier == "basic"
    then "10"
    else if tier == "premium"
    then "20"
    else if tier == "enterprise"
    then "30"
    else if tier == "vip"
    then "unlimited"
    else "undefined"

abbrev pub tier_rate_text : String → String
tier_rate_text tier =
    if tier == "basic"
    then "100 rpm"
    else if tier == "premium"
    then "500 rpm"
    else if tier == "enterprise"
    then "2000 rpm"
    else if tier == "vip"
    then "unlimited"
    else "undefined"

-- `(TIER_ORDER[newPlan] ?? -1) >= (TIER_ORDER[currentPlan] ?? 0)`
unfoldable pub not_below : String → String → Bool
not_below new_plan current_plan = elim (tier_order new_plan) [
  | none ↦ false
  | some new ↦ elim (tier_order current_plan) [ none ↦ true | some current ↦ leb current new ]
]

abbrev pub is_some_rank : Option ℕ → Bool
is_some_rank none = false
is_some_rank (some _) = true

-- The three checks that both calls begin with: the tenant's plan, or the exception.
unfoldable pub check_downgrade : String → String → Database → Answer String
unfolding not_below
check_downgrade id new_plan db =
    if new_plan == "vip" || not (is_some_rank (tier_order new_plan))
    then failed bad_request
    else elim (find_one id db) [
      | none ↦ failed not_found
      | some tenant ↦
          if tenant.plan == "vip"
          then failed bad_request
          else if not_below new_plan tenant.plan
          then failed bad_request
          else ok tenant.plan
    ]

abbrev pub preview_of : String → String → DowngradePreview
preview_of current_plan new_plan =
    let gone = without (tier_default_plugins current_plan) (tier_default_plugins new_plan) in
    record {
      current_plan = current_plan;
      new_plan = new_plan;
      plugins_to_disable = gone;
      data_note = elim gone [
        | [] ↦ "No plugin changes required."
        | _ ∷ _ ↦
            "Plugin data remains in the database but will not be accessible until the plan is upgraded again."
      ];
      connection_cap_change =
          tier_conn_cap current_plan <> " → " <> tier_conn_cap new_plan <> " connections";
      rate_limit = tier_rate_text current_plan <> " → " <> tier_rate_text new_plan;
    }

-- The rest of `previewDowngrade` after the checks.
unfoldable pub with_preview : String → Answer String → Answer DowngradePreview
with_preview new_plan (failed e) = failed e
with_preview new_plan (ok current_plan) = ok (preview_of current_plan new_plan)

unfoldable pub preview_downgrade : String → String → Database → Answer DowngradePreview
unfolding with_preview
preview_downgrade id new_plan db = with_preview new_plan (check_downgrade id new_plan db)

module _ (redis : Redis Cached) (accepts : Message → Bool) where
  open redis use {Store}

  unfoldable pub confirm_checked : String → String → Answer String → Call Store TenantView
  confirm_checked id new_plan (failed e) w = (w, failed e)
  confirm_checked id new_plan (ok _) w =
      update redis accepts id (record { name = none; status = none; plan = some new_plan }) w

  unfoldable pub confirm_downgrade : String → String → Call Store TenantView
  unfolding confirm_checked
  confirm_downgrade id new_plan w = confirm_checked id new_plan (check_downgrade id new_plan w.db) w
