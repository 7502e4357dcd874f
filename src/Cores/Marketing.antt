-- ===== src/Cores/Marketing.antt =====
-- backend/src/plugins/cores/marketing/marketing.core.ts
use crm_multi_tenant_saas_ar.Prelude.{ℕ, true, String, Option, none, some, List}
use crm_multi_tenant_saas_ar.Dal.Rls.{select, first_by_id, insert, update_by_id, delete_by_id}
use crm_multi_tenant_saas_ar.Cores.Store.{
  Campaign, Store, Call, resource_not_found, refused_by_policy, Outcome, done, failed,
  campaign_keys, or_keep, newest_first,
}

pub record CreateCampaignInput : Type 0 where
  pub name : String
  pub campaign_type : Option String
  pub scheduled_at : Option String

-- `scheduled_at` may be set to null.
pub record UpdateCampaignInput : Type 0 where
  pub name : Option String
  pub status : Option String
  pub target_count : Option ℕ
  pub scheduled_at : Option (Option String)

unfoldable pub list_campaigns : Call → Store → List Campaign
unfolding select newest_first
list_campaigns call s =
    newest_first (λ c. c.created_at)
      (select campaign_keys call.tenant_id (λ _. true) s.marketing_campaigns)

unfoldable pub get_campaign : Call → String → Store → Outcome Campaign
unfolding first_by_id
get_campaign call id s = elim (first_by_id campaign_keys call.tenant_id id s.marketing_campaigns) [
  | none ↦ failed s (resource_not_found "Campaign" id)
  | some c ↦ done s c
]

abbrev pub new_campaign : Call → CreateCampaignInput → Campaign
new_campaign call input = record {
  id = call.id;
  tenant_id = call.tenant_id;
  name = input.name;
  status = "draft";
  campaign_type = or_keep input.campaign_type "email";
  target_count = 0;
  sent_count = 0;
  scheduled_at = input.scheduled_at;
  created_at = call.now;
  updated_at = call.now;
}

unfoldable pub create_campaign : Call → CreateCampaignInput → Store → Outcome Campaign
unfolding insert
create_campaign call input s =
    elim (insert campaign_keys call.tenant_id (new_campaign call input) s.marketing_campaigns) [
      | none ↦ failed s refused_by_policy
      | some rows ↦ done (record s { marketing_campaigns = rows }) (new_campaign call input)
    ]

abbrev pub patched : UpdateCampaignInput → ℕ → Campaign → Campaign
patched input now c = record c {
  name = or_keep input.name c.name;
  status = or_keep input.status c.status;
  target_count = or_keep input.target_count c.target_count;
  scheduled_at = or_keep input.scheduled_at c.scheduled_at;
  updated_at = now;
}

unfoldable pub update_campaign : Call → String → UpdateCampaignInput → Store → Outcome Campaign
unfolding first_by_id update_by_id
update_campaign call id input s =
    elim (first_by_id campaign_keys call.tenant_id id s.marketing_campaigns) [
      | none ↦ failed s (resource_not_found "Campaign" id)
      | some c ↦
          done
            (record s {
              marketing_campaigns =
                  update_by_id campaign_keys call.tenant_id id (patched input call.now)
                    s.marketing_campaigns;
            })
            (patched input call.now c)
    ]

unfoldable pub delete_campaign : Call → String → Store → Outcome (Unit {0})
unfolding first_by_id delete_by_id
delete_campaign call id s =
    elim (first_by_id campaign_keys call.tenant_id id s.marketing_campaigns) [
      | none ↦ failed s (resource_not_found "Campaign" id)
      | some _ ↦
          done
            (record s {
              marketing_campaigns =
                  delete_by_id campaign_keys call.tenant_id id s.marketing_campaigns;
            })
            tt
    ]
