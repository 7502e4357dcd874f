-- ===== src/Admin/World.antt =====
-- What an administrator's call changes beside the tables: the quota slots and the dedicated pools of
-- this instance, the cache, and the messages that it hands to Redis, BullMQ and RabbitMQ.
use crm_multi_tenant_saas_ar.Prelude.{Bool, String, Option, List, [], ◌∷◌, ◌++◌, if◌then◌else◌}
use crm_multi_tenant_saas_ar.Dal.Quota.{Slots}
use crm_multi_tenant_saas_ar.Dal.Pool.{Registry}
use crm_multi_tenant_saas_ar.Admin.Tables.{Database}

pub data Message : Type 0 where
  -- On the two Redis channels: the tenant and its new tier; the tenant.
  config_reload : String → String → Message
  cache_invalidate : String → Message
  -- Jobs: the tenant, its slug, and its old or its new tier.
  vip_migration : String → String → String → Message
  vip_decommission : String → String → String → Message
  -- The tenant, its name, its tier, and where to write to.
  data_export : String → String → String → Option String → Message
  plugin_init : String → String → Message
  -- The tenant, the action, and the resource.
  audit : String → String → String → Message
  -- The welcome email: the tenant, and the address.
  welcome : String → String → Message

pub record World (Store : Type 0) : Type 0 where
  pub db : Database
  pub slots : Slots
  pub pools : Registry
  pub cache : Store
  pub sent : List Message

-- The exceptions of the service. `unreachable` is what a broker's client throws.
pub data AdminError : Type 0 where
  bad_request not_found conflict unreachable : AdminError
  plugin_dependency : List String → List String → AdminError
  -- A SCAN of the cache that has not ended with the replies given.
  unfinished : AdminError

pub data Answer (A : Type 0) : Type 0 where
  ok : A → Answer A
  failed : AdminError → Answer A

-- A call: the world after it, and what it answers or throws.
abbrev pub Call : Type 0 → Type 0 → Type 0
Call Store A = World Store → World Store × Answer A

module _ {Store : Type 0} where
  -- `accepts` tells which messages the brokers take.
  unfoldable pub send : (Message → Bool) → Message → Call Store Unit
  send accepts m w =
      if accepts m then (record w { sent = w.sent ++ m ∷ [] }, ok tt) else (w, failed unreachable)

  -- The statement after an `await`: skipped where the call threw.
  unfoldable pub and_then :
      {A B : Type 0} → World Store × Answer A → (A → Call Store B) → World Store × Answer B
  and_then (w, ok a) k = k a w
  and_then (w, failed e) k = (w, failed e)

  -- A `try` that only logs what it catches.
  unfoldable pub send_quietly : (Message → Bool) → Message → World Store → World Store
  send_quietly accepts m w = if accepts m then record w { sent = w.sent ++ m ∷ [] } else w
