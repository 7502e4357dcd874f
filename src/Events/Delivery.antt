-- ===== src/Events/Delivery.antt =====
-- Runs of the outbox: what stays in the table, and what has been done.
use crm_multi_tenant_saas_ar.Prelude.{
  ℕ, ◌+◌, ◌≡◌, ◌≤◌, refl, Bool, true, false, not, ◌&&◌, String, Option, some, List, [], ◌∷◌, ◌==◌,
  arith, eq_iff, eq_refl, ltb, any, ◌∙◌, includes, All, if◌then◌else◌, Bool-cases, inl, inr,
}
use crm_multi_tenant_saas_ar.Prelude.Dict.{Dict, lookup}
use crm_multi_tenant_saas_ar.Events.{
  EventDefinition, emit, emitted, new_event, pending, processed, EventRow, EventJob, Outbox,
  mark_queued, poll, mark_processed, Progress, nothing, fired_only, finished, process, is_stuck,
  reset_stuck, purge_expired, ttl_ms,
}

-- One step at a time. A row is inserted as `emit` leaves it; a worker may run a job at any time, and
-- again.
pub data Step (now : ℕ) : Outbox → Outbox → Type 0 where
  inserts :
      {o : Outbox} (r : EventRow) → r.status ≡ pending → Step now o (record o { rows = r ∷ o.rows })
  polls :
      {o : Outbox} (tier_of : String → Option String) (locked : String → Bool)
      (accepts : EventJob → Bool)
      → Step now o (poll tier_of locked accepts now o)
  runs : {o : Outbox} (p : Progress) (job : EventJob) → Step now o (process p job.event_id o)
  resets : {o : Outbox} → Step now o (record o { rows = reset_stuck now o.rows })
  purges : {o : Outbox} → Step now o (record o { rows = purge_expired now o.rows })

-- Runs whose steps are taken no later than a time.
pub data Reach (until : ℕ) (o : Outbox) : Outbox → Type 0 where
  start : Reach until o o
  then_step :
      {p q : Outbox} (now : ℕ) → now ≤ until → Reach until o p → Step now p q → Reach until o q

-- An event is done only after its triggers have fired.
abbrev pub Delivered : List String → List EventRow → Type 0
Delivered fired rows = All (λ r. r.status ≡ processed → includes r.id fired ≡ true) rows

Delivered-mark_queued :
    (ids : List String) (now : ℕ) (fired : List String) (rows : List EventRow)
    → Delivered fired rows
    → Delivered fired (mark_queued ids now rows)
unfolding mark_queued
Delivered-mark_queued ids now fired [] h = tt
Delivered-mark_queued ids now fired (r ∷ rows) h = elim (Bool-cases (includes r.id ids)) [
  | inl e ↦ rw e ((λ q. absurd (ground arith)), Delivered-mark_queued ids now fired rows h.1)
  | inr e ↦ rw e (h.0, Delivered-mark_queued ids now fired rows h.1)
]

Delivered-more :
    (id : String) (fired : List String) (rows : List EventRow)
    → Delivered fired rows
    → Delivered (id ∷ fired) rows
Delivered-more id fired [] h = tt
Delivered-more id fired (r ∷ rows) h =
    ((λ q. ground (arith, h.0 q)), Delivered-more id fired rows h.1)

done_row :
    (b : Bool) (id : String) (fired : List String) (r : EventRow)
    → (r.id == id) ≡ b
    → (r.status ≡ processed → includes r.id fired ≡ true)
    → (if b then record r { status = processed } else r).status ≡ processed
    → includes (if b then record r { status = processed } else r).id (id ∷ fired) ≡ true
done_row true id fired r e h q = ground (arith, eq_iff r.id id, eq_iff id r.id)
done_row false id fired r e h q = ground (arith, h q)

Delivered-mark_processed :
    (id : String) (fired : List String) (rows : List EventRow)
    → Delivered fired rows
    → Delivered (id ∷ fired) (mark_processed id rows)
unfolding mark_processed
Delivered-mark_processed id fired [] h = tt
Delivered-mark_processed id fired (r ∷ rows) h =
    (done_row (r.id == id) id fired r refl h.0, Delivered-mark_processed id fired rows h.1)

Delivered-reset_stuck :
    (now : ℕ) (fired : List String) (rows : List EventRow)
    → Delivered fired rows
    → Delivered fired (reset_stuck now rows)
unfolding reset_stuck
Delivered-reset_stuck now fired [] h = tt
Delivered-reset_stuck now fired (r ∷ rows) h = elim (Bool-cases (is_stuck now r)) [
  | inl e ↦ rw e ((λ q. absurd (ground arith)), Delivered-reset_stuck now fired rows h.1)
  | inr e ↦ rw e (h.0, Delivered-reset_stuck now fired rows h.1)
]

Delivered-purge_expired :
    (now : ℕ) (fired : List String) (rows : List EventRow)
    → Delivered fired rows
    → Delivered fired (purge_expired now rows)
unfolding purge_expired
Delivered-purge_expired now fired [] h = tt
Delivered-purge_expired now fired (r ∷ rows) h = elim (Bool-cases (ltb r.expires_at now)) [
  | inl e ↦ rw e (Delivered-purge_expired now fired rows h.1)
  | inr e ↦ rw e (h.0, Delivered-purge_expired now fired rows h.1)
]

Step-Delivered :
    {now : ℕ} {o q : Outbox} → Step now o q → Delivered o.fired o.rows → Delivered q.fired q.rows
unfolding poll process
Step-Delivered (inserts r fresh) h = ((λ q. absurd (ground arith)), h)
Step-Delivered (polls {o} tier_of locked accepts) h = Delivered-mark_queued _ _ o.fired o.rows h
Step-Delivered (runs nothing job) h = h
Step-Delivered (runs {o} fired_only job) h = Delivered-more job.event_id o.fired o.rows h
Step-Delivered (runs {o} finished job) h = Delivered-mark_processed job.event_id o.fired o.rows h
Step-Delivered (resets {o}) h = Delivered-reset_stuck _ o.fired o.rows h
Step-Delivered (purges {o}) h = Delivered-purge_expired _ o.fired o.rows h

-- In every run from an empty outbox, whatever brokers and jobs fail and however often BullMQ runs a
-- job, a row is marked as processed only if the triggers of its event have fired.
pub Reach-Delivered :
    {until : ℕ} {o : Outbox}
    → Reach until (record { rows = []; jobs = []; fired = [] }) o
    → Delivered o.fired o.rows
Reach-Delivered start = tt
Reach-Delivered (then_step now le r st) = Step-Delivered st (Reach-Delivered r)

-- A row with this key and this payload is in the table.
abbrev pub holds : String → String → ℕ → List EventRow → Bool
holds id payload until rows =
    any (λ r. r.id == id && r.payload == payload && not (ltb r.expires_at until)) rows

holds-mark_queued :
    (id payload : String) (until : ℕ) (ids : List String) (now : ℕ) (rows : List EventRow)
    → holds id payload until (mark_queued ids now rows) ≡ holds id payload until rows
unfolding mark_queued
holds-mark_queued id payload until ids now [] = refl
holds-mark_queued id payload until ids now (r ∷ rows) =
    let ih = holds-mark_queued id payload until ids now rows in
    elim (Bool-cases (includes r.id ids)) [ inl e ↦ rw (e, ih) refl | inr e ↦ rw (e, ih) refl ]

holds-mark_processed :
    (id payload : String) (until : ℕ) (key : String) (rows : List EventRow)
    → holds id payload until (mark_processed key rows) ≡ holds id payload until rows
unfolding mark_processed
holds-mark_processed id payload until key [] = refl
holds-mark_processed id payload until key (r ∷ rows) =
    let ih = holds-mark_processed id payload until key rows in
    elim (Bool-cases (r.id == key)) [ inl e ↦ ground (arith, ih) | inr e ↦ ground (arith, ih) ]

holds-reset_stuck :
    (id payload : String) (until now : ℕ) (rows : List EventRow)
    → holds id payload until (reset_stuck now rows) ≡ holds id payload until rows
unfolding reset_stuck
holds-reset_stuck id payload until now [] = refl
holds-reset_stuck id payload until now (r ∷ rows) =
    let ih = holds-reset_stuck id payload until now rows in
    elim (Bool-cases (is_stuck now r)) [ inl e ↦ rw (e, ih) refl | inr e ↦ rw (e, ih) refl ]

holds-purge_expired :
    (id payload : String) (until now : ℕ) (rows : List EventRow)
    → now ≤ until
    → holds id payload until rows ≡ true
    → holds id payload until (purge_expired now rows) ≡ true
unfolding purge_expired
holds-purge_expired id payload until now [] le h = cc
holds-purge_expired id payload until now (r ∷ rows) le h =
    let ih = holds-purge_expired id payload until now rows le in ground (arith, ih)

Step-holds :
    {now : ℕ} {o q : Outbox} (id payload : String) (until : ℕ)
    → now ≤ until
    → Step now o q
    → holds id payload until o.rows ≡ true
    → holds id payload until q.rows ≡ true
unfolding poll process
Step-holds id payload until le (inserts r fresh) h = ground arith
Step-holds id payload until le (polls {o} tier_of locked accepts) h =
    holds-mark_queued id payload until _ _ o.rows ∙ h
Step-holds id payload until le (runs nothing job) h = h
Step-holds id payload until le (runs fired_only job) h = h
Step-holds id payload until le (runs {o} finished job) h =
    holds-mark_processed id payload until job.event_id o.rows ∙ h
Step-holds id payload until le (resets {o}) h = holds-reset_stuck id payload until _ o.rows ∙ h
Step-holds id payload until le (purges {o}) h = holds-purge_expired id payload until _ o.rows le h

Reach-holds :
    {until : ℕ} {o q : Outbox} (id payload : String)
    → Reach until o q
    → holds id payload until o.rows ≡ true
    → holds id payload until q.rows ≡ true
Reach-holds id payload start h = h
Reach-holds {until} id payload (then_step now le r st) h =
    Step-holds id payload until le st (Reach-holds id payload r h)

-- Emitting a registered event whose data its schema accepts succeeds, and the event is still in the
-- table, under its key and with its payload, after every run of up to seven days from then on.
pub emit-kept :
    {D : Type 0} {until : ℕ} {q : Outbox} (id : String) (now : ℕ)
    (definitions : Dict (EventDefinition D)) (event_name tenant_id : String) (value : D)
    (def : EventDefinition D) (payload : String) (o : Outbox)
    → lookup event_name definitions ≡ some def
    → def.parse value ≡ some payload
    → until ≤ now + ttl_ms
    → Reach until (record o { rows = new_event id now tenant_id def event_name payload ∷ o.rows }) q
    → (emit id now definitions event_name tenant_id value o.rows
        ≡ emitted (new_event id now tenant_id def event_name payload ∷ o.rows))
      × (holds id payload until q.rows ≡ true)
unfolding emit
emit-kept {until} id now definitions event_name tenant_id value def payload o known parsed early
      run =
    let late : ltb (now + ttl_ms) until ≡ false = ground arith in
    (
      rw (emit, known, parsed) refl,
      Reach-holds id payload run (rw (eq_refl id, eq_refl payload, late) refl),
    )
