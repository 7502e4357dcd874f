-- ===== src/Automation/Actions/Executed.antt =====
-- Runs of the outbox of actions: what has been executed where a row says that it is completed.
use crm_multi_tenant_saas_ar.Prelude.{
  ℕ, ◌≡◌, Bool, true, false, String, List, [], ◌∷◌, ◌==◌, arith, eq_iff, any, includes, All,
  Bool-cases, inl, inr,
}
use crm_multi_tenant_saas_ar.Prelude.Member.{In}
use crm_multi_tenant_saas_ar.Automation.Actions.{
  pending, completed, ActionEvent, ActionJob, Actions, mark_queued, poll, Attempt, dies_before,
  tenant_gone, handler_throws, dies_after, succeeds, on_row, start_row, fail_row, complete_row,
  process,
}

abbrev pub has_id : String → List ActionEvent → Bool
has_id id rows = any (λ r. r.id == id) rows

-- One step: a new row under a key that no row has, as `fireTriggerEvents` inserts it; a poll; an
-- attempt at a job that BullMQ has been given.
pub data Step : Actions → Actions → Type 0 where
  inserts :
      {q : Actions} (r : ActionEvent)
      → r.status ≡ pending
      → has_id r.id q.rows ≡ false
      → Step q (record q { rows = r ∷ q.rows })
  polls : {q : Actions} (locked : String → Bool) (taken now : ℕ) → Step q (poll locked taken now q)
  attempts :
      {q : Actions} (a : Attempt) (job : ActionJob) (now : ℕ)
      → In job q.jobs
      → Step q (process a job.event_id now q)

pub data Run (q : Actions) : Actions → Type 0 where
  begins : Run q q
  goes_on : {p t : Actions} → Run q p → Step p t → Run q t

-- A row is completed only after its handler has run to its end.
abbrev pub Executed : List String → List ActionEvent → Type 0
Executed executed rows = All (λ r. r.status ≡ completed → includes r.id executed ≡ true) rows

mark_queued-Executed :
    (ids : List String) (now : ℕ) (executed : List String) (rows : List ActionEvent)
    → Executed executed rows
    → Executed executed (mark_queued ids now rows)
unfolding mark_queued
mark_queued-Executed ids now executed [] h = tt
mark_queued-Executed ids now executed (r ∷ rows) h = elim (Bool-cases (includes r.id ids)) [
  | inl e ↦ rw e ((λ c. absurd (ground arith)), mark_queued-Executed ids now executed rows h.1)
  | inr e ↦ rw e (h.0, mark_queued-Executed ids now executed rows h.1)
]

more-Executed :
    (id : String) (executed : List String) (rows : List ActionEvent)
    → Executed executed rows
    → Executed (id ∷ executed) rows
more-Executed id executed [] h = tt
more-Executed id executed (r ∷ rows) h =
    ((λ c. ground (arith, h.0 c)), more-Executed id executed rows h.1)

-- A change of the rows of one event keeps the invariant if it does not complete them, or if the event
-- has been executed.
on_row-Executed :
    (id : String) (f : ActionEvent → ActionEvent) (executed : List String) (rows : List ActionEvent)
    → ((r : ActionEvent) → r.id ≡ id → (f r).status ≡ completed → includes (f r).id executed ≡ true)
    → Executed executed rows
    → Executed executed (on_row id f rows)
unfolding on_row
on_row-Executed id f executed [] keeps h = tt
on_row-Executed id f executed (r ∷ rows) keeps h = elim (Bool-cases (r.id == id)) [
  | inl e ↦ rw e (keeps r ((eq_iff r.id id).0 e), on_row-Executed id f executed rows keeps h.1)
  | inr e ↦ rw e (h.0, on_row-Executed id f executed rows keeps h.1)
]

started-Executed :
    (id : String) (executed : List String) (rows : List ActionEvent)
    → Executed executed rows
    → Executed executed (on_row id start_row rows)
started-Executed id executed rows h =
    on_row-Executed id start_row executed rows (λ r own c. absurd (ground arith)) h

Step-Executed : {q t : Actions} → Step q t → Executed q.executed q.rows → Executed t.executed t.rows
unfolding poll process
Step-Executed (inserts r fresh new) h = ((λ c. absurd (ground arith)), h)
Step-Executed (polls {q} locked taken now) h = mark_queued-Executed _ now q.executed q.rows h
Step-Executed (attempts dies_before job now given) h = h
Step-Executed (attempts {q} tenant_gone job now given) h =
    on_row-Executed job.event_id fail_row q.executed (on_row job.event_id start_row q.rows)
      (λ r own c. absurd (ground arith)) (started-Executed job.event_id q.executed q.rows h)
Step-Executed (attempts {q} handler_throws job now given) h =
    started-Executed job.event_id q.executed q.rows h
Step-Executed (attempts {q} dies_after job now given) h =
    more-Executed job.event_id q.executed (on_row job.event_id start_row q.rows)
      (started-Executed job.event_id q.executed q.rows h)
Step-Executed (attempts {q} succeeds job now given) h =
    on_row-Executed job.event_id (complete_row now) (job.event_id ∷ q.executed)
      (on_row job.event_id start_row q.rows)
      (λ r own c. ground (arith, own, eq_iff job.event_id r.id))
      (more-Executed job.event_id q.executed (on_row job.event_id start_row q.rows)
        (started-Executed job.event_id q.executed q.rows h))

-- In every run from an empty outbox, whatever dies or throws and however often BullMQ runs a job, a
-- row is marked as completed only if the handler of its action has run to its end.
pub Run-Executed :
    {q : Actions}
    → Run (record { rows = []; jobs = []; executed = [] }) q
    → Executed q.executed q.rows
Run-Executed begins = tt
Run-Executed (goes_on run step) = Step-Executed step (Run-Executed run)
