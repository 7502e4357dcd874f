-- ===== src/Dal/Reload.antt =====
-- backend/src/dal/pubsub/tenant-config-reload.service.ts: what an instance does with the messages that
-- the others publish.
use crm_multi_tenant_saas_ar.Prelude.{String, Option, none, some, ◌==◌, if◌then◌else◌}
use crm_multi_tenant_saas_ar.Automation.Values.{Json, str, obj, own_field}
use crm_multi_tenant_saas_ar.Dal.Quota.{Slots, update_cap}

abbrev pub config_reload_channel : String
config_reload_channel = "crm:config:reload"

-- A field of the parsed message that is a text; publishers send no other, and an empty one is as
-- missing.
abbrev pub text_field : String → Json → Option String
text_field key (obj fields) = elim (own_field key fields) [
  | some (str s) ↦ if s == "" then none else some s
  | _ ↦ none
]
text_field key _ = none

abbrev pub reload : Option String → Option String → Slots → Slots
reload (some tenant_id) (some new_tier) slots = update_cap tenant_id new_tier slots
reload _ _ slots = slots

-- `handleMessage`, given what `JSON.parse` makes of the message, `none` where it throws. The other
-- channel is only logged.
unfoldable pub handle_message : String → Option Json → Slots → Slots
unfolding update_cap
handle_message channel none slots = slots
handle_message channel (some value) slots =
    if channel == config_reload_channel
    then reload (text_field "tenantId" value) (text_field "newTier" value) slots
    else slots
