-- ===== src/Events.antt =====
-- The outbox of plugin events: backend/src/plugins/events/event-registry.service.ts,
-- backend/src/plugins/events/event-poller.service.ts, the processor in
-- backend/src/plugins/cores/automation/automation-event.processor.ts, and the two jobs on the table
-- in backend/src/workers/scheduler/cron.service.ts. Times are in milliseconds.
pub mod Delivery
pub mod Recovery
use crm_multi_tenant_saas_ar.Prelude.{
  ℕ, ◌+◌, ◌-◌, ◌*◌, Bool, true, false, not, ◌&&◌, String, Option, none, some, List, [], ◌∷◌, ◌++◌,
  ◌==◌, ltb, map, filter, take, includes, if◌then◌else◌,
}
use crm_multi_tenant_saas_ar.Prelude.Dict.{Dict, lookup, insert}

pub data EventStatus : Type 0 where
  pending queued processed : EventStatus

-- A row of `plugin_events`.
pub record EventRow : Type 0 where
  pub id : String
  pub tenant_id : String
  pub event_name : String
  pub plugin : String
  pub payload : String
  pub status : EventStatus
  pub queued_at : Option ℕ
  pub expires_at : ℕ

-- `parse` is the schema's, followed by `JSON.stringify`; `none` where it throws.
pub record EventDefinition (D : Type 0) : Type 0 where
  pub name : String
  pub plugin : String
  pub parse : D → Option String

pub record EventJob : Type 0 where
  pub event_id : String
  pub event_name : String
  pub tenant_id : String
  pub tenant_tier : String
  pub payload : String

-- The table, the jobs that BullMQ has been given, and the events whose triggers have fired.
pub record Outbox : Type 0 where
  pub rows : List EventRow
  pub jobs : List EventJob
  pub fired : List String

pub data EmitError : Type 0 where
  unknown_event invalid_payload : EmitError

pub data Emitted : Type 0 where
  emitted : List EventRow → Emitted
  rejected : EmitError → Emitted

abbrev pub ttl_ms : ℕ
ttl_ms = 7 * 24 * 60 * 60 * 1000

abbrev pub batch_size : ℕ
batch_size = 50

abbrev pub stuck_after_ms : ℕ
stuck_after_ms = 15 * 60 * 1000

module _ {D : Type 0} where
  unfoldable pub register : EventDefinition D → Dict (EventDefinition D) → Dict (EventDefinition D)
  register def definitions = insert def.name def definitions

  -- The row that `emit` inserts, under the key that the database draws.
  abbrev pub new_event : String → ℕ → String → EventDefinition D → String → String → EventRow
  new_event id now tenant_id def event_name payload = record {
    id = id;
    tenant_id = tenant_id;
    event_name = event_name;
    plugin = def.plugin;
    payload = payload;
    status = pending;
    queued_at = none;
    expires_at = now + ttl_ms;
  }

  unfoldable pub emit :
      String → ℕ → Dict (EventDefinition D) → String → String → D → List EventRow → Emitted
  emit id now definitions event_name tenant_id value rows = elim (lookup event_name definitions) [
    | none ↦ rejected unknown_event
    | some def ↦ elim (def.parse value) [
      | none ↦ rejected invalid_payload
      | some payload ↦ emitted (new_event id now tenant_id def event_name payload ∷ rows)
    ]
  ]

abbrev pub is_pending : EventStatus → Bool
is_pending pending = true
is_pending _ = false

abbrev pub is_queued : EventStatus → Bool
is_queued queued = true
is_queued _ = false

abbrev pub job_of : EventRow → String → EventJob
job_of r tier = record {
  event_id = r.id;
  event_name = r.event_name;
  tenant_id = r.tenant_id;
  tenant_tier = tier;
  payload = r.payload;
}

-- The rows that the poller's query selects before its limit, joined with their tenants; another
-- poller may have locked some.
unfoldable pub ready_jobs :
    (String → Option String) → (String → Bool) → ℕ → List EventRow → List EventJob
ready_jobs tier_of locked now [] = []
ready_jobs tier_of locked now (r ∷ rows) =
    let rest = ready_jobs tier_of locked now rows in
    if is_pending r.status && ltb now r.expires_at && not (locked r.id)
    then elim (tier_of r.tenant_id) [ none ↦ rest | some tier ↦ job_of r tier ∷ rest ]
    else rest

unfoldable pub mark_queued : List String → ℕ → List EventRow → List EventRow
mark_queued ids now [] = []
mark_queued ids now (r ∷ rows) =
    (if includes r.id ids then record r { status = queued; queued_at = some now } else r)
    ∷ mark_queued ids now rows

-- `poll`: the transaction first, then the jobs, each of which BullMQ takes or not.
unfoldable pub poll :
    (String → Option String) → (String → Bool) → (EventJob → Bool) → ℕ → Outbox → Outbox
unfolding ready_jobs mark_queued
poll tier_of locked accepts now o =
    let batch = take batch_size (ready_jobs tier_of locked now o.rows) in
    record o {
      rows = mark_queued (map (λ j. j.event_id) batch) now o.rows;
      jobs = o.jobs ++ filter accepts batch;
    }

unfoldable pub mark_processed : String → List EventRow → List EventRow
mark_processed id [] = []
mark_processed id (r ∷ rows) =
    (if r.id == id then record r { status = processed } else r) ∷ mark_processed id rows

-- How far a run of the processor comes before it throws or the process dies.
pub data Progress : Type 0 where
  nothing fired_only finished : Progress

-- `process` of `AutomationEventProcessor`.
unfoldable pub process : Progress → String → Outbox → Outbox
unfolding mark_processed
process nothing id o = o
process fired_only id o = record o { fired = id ∷ o.fired }
process finished id o = record o { fired = id ∷ o.fired; rows = mark_processed id o.rows }

-- `queued_at < NOW() - INTERVAL '15 minutes'`
abbrev pub is_stuck : ℕ → EventRow → Bool
is_stuck now r =
    is_queued r.status
    && elim r.queued_at [ none ↦ false | some at ↦ ltb (at + stuck_after_ms) now ]

-- `resetStuckPluginEvents`
unfoldable pub reset_stuck : ℕ → List EventRow → List EventRow
reset_stuck now [] = []
reset_stuck now (r ∷ rows) =
    (if is_stuck now r then record r { status = pending; queued_at = none } else r)
    ∷ reset_stuck now rows

-- `purgeExpiredPluginEvents`
unfoldable pub purge_expired : ℕ → List EventRow → List EventRow
purge_expired now rows = filter (λ r. not (ltb r.expires_at now)) rows
