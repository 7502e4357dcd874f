-- ===== src/Automation/Actions.antt =====
-- The table `automation_action_events`, of
-- backend/src/db/migrations/20260312000009_automation_action_events.ts, which has no row level
-- security; and in backend/src/plugins/cores/automation its poller, automation-action.poller.ts, and
-- its processor, automation-action.processor.ts.
pub mod Executed
pub mod Claims
pub mod Lost
use crm_multi_tenant_saas_ar.Prelude.{
  ℕ, suc, ◌+◌, Bool, true, false, not, ◌&&◌, String, Option, none, some, List, [], ◌∷◌, ◌++◌, ◌==◌,
  ◌<>◌, leb, map, filter, take, includes, if◌then◌else◌,
}
use crm_multi_tenant_saas_ar.Automation.Values.{Json}

pub data ActionStatus : Type 0 where
  pending queued processing completed failed : ActionStatus

pub record ActionEvent : Type 0 where
  pub id : String
  pub tenant_id : String
  pub trigger_id : String
  pub action_index : ℕ
  pub action_type : String
  pub action_params : Json
  pub trigger_context : Json
  pub status : ActionStatus
  pub attempts : ℕ
  pub last_error : Option String
  pub scheduled_at : ℕ
  pub queued_at : Option ℕ
  pub completed_at : Option ℕ

-- `AutomationActionJobData`
pub record ActionJob : Type 0 where
  pub event_id : String
  pub tenant_id : String
  pub trigger_id : String
  pub action_index : ℕ
  pub action_type : String
  pub action_params : Json
  pub trigger_context : Json

-- The table, the jobs that BullMQ has been given, and the events whose handler has run to its end.
pub record Actions : Type 0 where
  pub rows : List ActionEvent
  pub jobs : List ActionJob
  pub executed : List String

abbrev pub batch_size : ℕ
batch_size = 50

abbrev pub is_pending : ActionStatus → Bool
is_pending pending = true
is_pending _ = false

abbrev pub job_of : ActionEvent → ActionJob
job_of r = record {
  event_id = r.id;
  tenant_id = r.tenant_id;
  trigger_id = r.trigger_id;
  action_index = r.action_index;
  action_type = r.action_type;
  action_params = r.action_params;
  trigger_context = r.trigger_context;
}

-- `ORDER BY scheduled_at ASC`
unfoldable pub put_scheduled : ActionEvent → List ActionEvent → List ActionEvent
put_scheduled r [] = r ∷ []
put_scheduled r (x ∷ xs) =
    let rest = put_scheduled r xs in
    if leb r.scheduled_at x.scheduled_at then r ∷ x ∷ xs else x ∷ rest

unfoldable pub by_schedule : List ActionEvent → List ActionEvent
unfolding put_scheduled
by_schedule [] = []
by_schedule (r ∷ rows) = put_scheduled r (by_schedule rows)

-- The rows that the poller's query selects; another poller may have locked some.
unfoldable pub claimed : (String → Bool) → List ActionEvent → List ActionEvent
unfolding by_schedule
claimed locked rows =
    take batch_size (by_schedule (filter (λ r. is_pending r.status && not (locked r.id)) rows))

unfoldable pub mark_queued : List String → ℕ → List ActionEvent → List ActionEvent
mark_queued ids now [] = []
mark_queued ids now (r ∷ rows) =
    (if includes r.id ids then record r { status = queued; queued_at = some now } else r)
    ∷ mark_queued ids now rows

-- `poll`: the transaction, then one job after the other; `taken` is how many BullMQ takes before a
-- call throws.
unfoldable pub poll : (String → Bool) → ℕ → ℕ → Actions → Actions
unfolding claimed mark_queued
poll locked taken now q =
    let batch = claimed locked q.rows in
    record q {
      rows = mark_queued (map (λ r. r.id) batch) now q.rows;
      jobs = q.jobs ++ map job_of (take taken batch);
    }

-- How an attempt at a job goes. Its tenant may be gone; its handler may be unknown, or throw; the
-- process may die before the first UPDATE, in the handler, or after it.
pub data Attempt : Type 0 where
  dies_before tenant_gone handler_throws dies_after succeeds : Attempt

unfoldable pub on_row : String → (ActionEvent → ActionEvent) → List ActionEvent → List ActionEvent
on_row id f [] = []
on_row id f (r ∷ rows) = (if r.id == id then f r else r) ∷ on_row id f rows

abbrev pub start_row : ActionEvent → ActionEvent
start_row r = record r { status = processing; attempts = r.attempts + 1 }

-- `markFailed`, with the text for a tenant that is gone; the job's tenant is the row's.
abbrev pub fail_row : ActionEvent → ActionEvent
fail_row r = record r {
  status = failed;
  last_error = some ("Tenant " <> r.tenant_id <> " not found");
}

abbrev pub complete_row : ℕ → ActionEvent → ActionEvent
complete_row now r = record r { status = completed; completed_at = some now }

-- `process`. The handler of `failed` jobs, `onFailed`, has no decorator and is never called, so that
-- nothing is written where a handler throws.
unfoldable pub process : Attempt → String → ℕ → Actions → Actions
unfolding on_row
process dies_before id now q = q
process tenant_gone id now q = record q { rows = on_row id fail_row (on_row id start_row q.rows) }
process handler_throws id now q = record q { rows = on_row id start_row q.rows }
process dies_after id now q = record q {
  rows = on_row id start_row q.rows;
  executed = id ∷ q.executed;
}
process succeeds id now q = record q {
  rows = on_row id (complete_row now) (on_row id start_row q.rows);
  executed = id ∷ q.executed;
}
