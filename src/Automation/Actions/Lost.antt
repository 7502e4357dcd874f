-- ===== src/Automation/Actions/Lost.antt =====
-- Events that are claimed and never handed on.
use crm_multi_tenant_saas_ar.Prelude.{
  ℕ, ◌≡◌, refl, ap, sym, ◌∙◌, Bool, true, false, String, List, [], ◌∷◌, ◌==◌, arith, eq_iff, map,
  take, includes, All, All-append, Bool-cases, inl, inr,
}
use crm_multi_tenant_saas_ar.Prelude.Member.{In}
use crm_multi_tenant_saas_ar.Automation.Actions.{
  queued, ActionEvent, ActionJob, Actions, claimed, poll, Attempt, dies_before, tenant_gone,
  handler_throws, dies_after, succeeds, on_row, start_row, fail_row, complete_row, process,
}
use crm_multi_tenant_saas_ar.Automation.Actions.Executed.{
  has_id, Step, inserts, polls, attempts, Run, begins, goes_on,
}
use crm_multi_tenant_saas_ar.Automation.Actions.Claims.{
  Misses, All-take, claimed-Misses, has_id-of_claimed, has_id-mark_queued, mark_queued-claimed,
  mark_queued-marked, no_job-handed,
}

-- The event is marked as queued, no job stands for it, and it has not been executed.
pub record IsLost (id : String) (q : Actions) : Type 0 where
  pub there : has_id id q.rows ≡ true
  pub marked : All (λ r. r.id ≡ id → r.status ≡ queued) q.rows
  pub no_job : All (λ j. (j.event_id == id) ≡ false) q.jobs
  pub not_executed : includes id q.executed ≡ false

other_job :
    (id : String) (job : ActionJob) (jobs : List ActionJob)
    → All (λ j. (j.event_id == id) ≡ false) jobs
    → In job jobs
    → (job.event_id == id) ≡ false
other_job id job [] h i = absurd i
other_job id job (j ∷ jobs) h (inl e) = ap (λ (x : ActionJob). x.event_id == id) (sym e) ∙ h.0
other_job id job (j ∷ jobs) h (inr i) = other_job id job jobs h.1 i

-- A change of the rows of another event.
module _ (id other : String) (f : ActionEvent → ActionEvent) (ne : (other == id) ≡ false)
    (keeps : (r : ActionEvent) → (f r).id ≡ r.id) where
  has_id-on_row : (rows : List ActionEvent) → has_id id (on_row other f rows) ≡ has_id id rows
  unfolding on_row
  has_id-on_row [] = refl
  has_id-on_row (r ∷ rows) = elim (Bool-cases (r.id == other)) [
    | inl e ↦ rw (e, has_id-on_row rows, keeps r) refl
    | inr e ↦ rw (e, has_id-on_row rows) refl
  ]

  marked-on_row :
      (rows : List ActionEvent)
      → All (λ r. r.id ≡ id → r.status ≡ queued) rows
      → All (λ r. r.id ≡ id → r.status ≡ queued) (on_row other f rows)
  unfolding on_row
  marked-on_row [] h = tt
  marked-on_row (r ∷ rows) h = elim (Bool-cases (r.id == other)) [
    | inl e ↦ rw e (
      (λ own. absurd (
          let same : other ≡ id = sym ((eq_iff r.id other).0 e) ∙ sym (keeps r) ∙ own in
          ground (arith, eq_iff other id))),
      marked-on_row rows h.1,
    )
    | inr e ↦ rw e (h.0, marked-on_row rows h.1)
  ]

-- An attempt at a job of another event.
process-IsLost :
    (id : String) (a : Attempt) (other : String) (now : ℕ) (q : Actions)
    → (other == id) ≡ false
    → IsLost id q
    → IsLost id (process a other now q)
unfolding process
process-IsLost id dies_before other now q ne h = h
process-IsLost id tenant_gone other now q ne h = record {
  there =
      has_id-on_row id other fail_row ne (λ r. refl) (on_row other start_row q.rows)
      ∙ has_id-on_row id other start_row ne (λ r. refl) q.rows
      ∙ h.there;
  marked =
      marked-on_row id other fail_row ne (λ r. refl) (on_row other start_row q.rows)
        (marked-on_row id other start_row ne (λ r. refl) q.rows h.marked);
  no_job = h.no_job;
  not_executed = h.not_executed;
}
process-IsLost id handler_throws other now q ne h = record {
  there = has_id-on_row id other start_row ne (λ r. refl) q.rows ∙ h.there;
  marked = marked-on_row id other start_row ne (λ r. refl) q.rows h.marked;
  no_job = h.no_job;
  not_executed = h.not_executed;
}
process-IsLost id dies_after other now q ne h = record {
  there = has_id-on_row id other start_row ne (λ r. refl) q.rows ∙ h.there;
  marked = marked-on_row id other start_row ne (λ r. refl) q.rows h.marked;
  no_job = h.no_job;
  not_executed = rw ne h.not_executed;
}
process-IsLost id succeeds other now q ne h = record {
  there =
      has_id-on_row id other (complete_row now) ne (λ r. refl) (on_row other start_row q.rows)
      ∙ has_id-on_row id other start_row ne (λ r. refl) q.rows
      ∙ h.there;
  marked =
      marked-on_row id other (complete_row now) ne (λ r. refl) (on_row other start_row q.rows)
        (marked-on_row id other start_row ne (λ r. refl) q.rows h.marked);
  no_job = h.no_job;
  not_executed = rw ne h.not_executed;
}

Step-IsLost : (id : String) {q t : Actions} → Step q t → IsLost id q → IsLost id t
unfolding poll
Step-IsLost id (inserts {q} r fresh new) h =
    let ne : (r.id == id) ≡ false = elim (Bool-cases (r.id == id)) [
      | inl e ↦ absurd (
          let same = ap (λ i. has_id i q.rows) ((eq_iff r.id id).0 e) in
          let there = h.there in ground arith)
      | inr e ↦ e
    ] in
    record {
      there = rw ne h.there;
      marked = ((λ own. absurd (ground (arith, eq_iff r.id id))), h.marked);
      no_job = h.no_job;
      not_executed = h.not_executed;
    }
Step-IsLost id (polls {q} locked taken now) h = record {
  there = has_id-mark_queued id _ now q.rows ∙ h.there;
  marked = mark_queued-marked id _ now q.rows h.marked;
  no_job =
      All-append _ q.jobs _ h.no_job
        (no_job-handed id _ (All-take _ taken _ (claimed-Misses id locked q.rows h.marked)));
  not_executed = h.not_executed;
}
Step-IsLost id (attempts {q} a job now given) h =
    process-IsLost id a job.event_id now q (other_job id job q.jobs h.no_job given) h

-- The poller commits its UPDATE before it calls BullMQ. If BullMQ throws at a claimed event that has no
-- job yet and has not been executed, or before it, then the event stays marked as queued in every run
-- that follows, with no job, and its action is never executed.
pub Run-IsLost :
    (q : Actions) (id : String) (locked : String → Bool) (taken now : ℕ) {t : Actions}
    → includes id (map (λ r. r.id) (claimed locked q.rows)) ≡ true
    → Misses id (take taken (claimed locked q.rows))
    → All (λ j. (j.event_id == id) ≡ false) q.jobs
    → includes id q.executed ≡ false
    → Run (poll locked taken now q) t
    → IsLost id t
unfolding poll
Run-IsLost q id locked taken now chosen cut no_job not_executed begins = record {
  there = has_id-mark_queued id _ now q.rows ∙ has_id-of_claimed id locked q.rows chosen;
  marked = mark_queued-claimed id _ now q.rows chosen;
  no_job = All-append _ q.jobs _ no_job (no_job-handed id _ cut);
  not_executed = not_executed;
}
Run-IsLost q id locked taken now chosen cut no_job not_executed (goes_on run step) =
    Step-IsLost id step (Run-IsLost q id locked taken now chosen cut no_job not_executed run)
