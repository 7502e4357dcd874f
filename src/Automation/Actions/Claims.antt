-- ===== src/Automation/Actions/Claims.antt =====
-- What a poll of the outbox of actions claims, and what it leaves in the table.
use crm_multi_tenant_saas_ar.Prelude.{
  ℕ, zero, suc, ◌≡◌, refl, ap, Bool, true, false, not, ◌&&◌, String, List, [], ◌∷◌, ◌==◌, arith,
  eq_iff, map, filter, take, leb, includes, All, Bool-cases, inl, inr,
}
use crm_multi_tenant_saas_ar.Automation.Actions.{
  queued, ActionEvent, is_pending, job_of, by_schedule, put_scheduled, claimed, mark_queued,
  batch_size,
}
use crm_multi_tenant_saas_ar.Automation.Actions.Executed.{has_id}

-- No row of the list is the event's.
abbrev pub Misses : String → List ActionEvent → Type 0
Misses id rows = All (λ r. (r.id == id) ≡ false) rows

-- What holds of all rows holds of all that a poll claims.
module _ (P : ActionEvent → Type 0) where
  All-filter :
      (test : ActionEvent → Bool) (rows : List ActionEvent) → All P rows → All P (filter test rows)
  All-filter test [] h = tt
  All-filter test (r ∷ rows) h = elim (Bool-cases (test r)) [
    | inl e ↦ rw e (h.0, All-filter test rows h.1)
    | inr e ↦ rw e (All-filter test rows h.1)
  ]

  All-put :
      (r : ActionEvent) (rows : List ActionEvent) → P r → All P rows → All P (put_scheduled r rows)
  unfolding put_scheduled
  All-put r [] p h = (p, tt)
  All-put r (x ∷ xs) p h = elim (Bool-cases (leb r.scheduled_at x.scheduled_at)) [
    | inl e ↦ rw e (p, h)
    | inr e ↦ rw e (h.0, All-put r xs p h.1)
  ]

  All-by_schedule : (rows : List ActionEvent) → All P rows → All P (by_schedule rows)
  unfolding by_schedule
  All-by_schedule [] h = tt
  All-by_schedule (r ∷ rows) h = All-put r (by_schedule rows) h.0 (All-by_schedule rows h.1)

  pub All-take : (n : ℕ) (rows : List ActionEvent) → All P rows → All P (take n rows)
  All-take zero rows h = tt
  All-take (suc n) [] h = tt
  All-take (suc n) (r ∷ rows) h = (h.0, All-take n rows h.1)

filter-Pending :
    (locked : String → Bool) (rows : List ActionEvent)
    → All
        (λ r. is_pending r.status ≡ true)
        (filter (λ r. is_pending r.status && not (locked r.id)) rows)
filter-Pending locked [] = tt
filter-Pending locked (r ∷ rows) = elim (Bool-cases (is_pending r.status)) [
  | inl e ↦ elim (Bool-cases (locked r.id)) [
    | inl l ↦ rw (e, l) (filter-Pending locked rows)
    | inr l ↦ rw (e, l) (e, filter-Pending locked rows)
  ]
  | inr e ↦ rw e (filter-Pending locked rows)
]

-- An event all of whose rows are queued is not claimed.
Misses-of :
    (id : String) (rows : List ActionEvent)
    → All (λ r. is_pending r.status ≡ true) rows
    → All (λ r. r.id ≡ id → r.status ≡ queued) rows
    → Misses id rows
Misses-of id [] pendings h = tt
Misses-of id (r ∷ rows) pendings h = elim (Bool-cases (r.id == id)) [
  | inl e ↦ let done = ap is_pending (h.0 ((eq_iff r.id id).0 e)) in absurd (ground arith)
  | inr e ↦ (e, Misses-of id rows pendings.1 h.1)
]

pub claimed-Misses :
    (id : String) (locked : String → Bool) (rows : List ActionEvent)
    → All (λ r. r.id ≡ id → r.status ≡ queued) rows
    → Misses id (claimed locked rows)
unfolding claimed
claimed-Misses id locked rows h =
    let test : ActionEvent → Bool = λ r. is_pending r.status && not (locked r.id) in
    let chosen = filter test rows in
    Misses-of id (take batch_size (by_schedule chosen))
      (All-take _ batch_size (by_schedule chosen)
        (All-by_schedule _ chosen (filter-Pending locked rows)))
      (All-take _ batch_size (by_schedule chosen)
        (All-by_schedule _ chosen (All-filter _ test rows h)))

-- What a poll claims is in the table: else nothing there has the key.
Misses-of_has_id : (id : String) (rows : List ActionEvent) → has_id id rows ≡ false → Misses id rows
Misses-of_has_id id [] h = tt
Misses-of_has_id id (r ∷ rows) h = elim (Bool-cases (r.id == id)) [
  | inl e ↦ absurd (ground arith)
  | inr e ↦ (e, Misses-of_has_id id rows (ground arith))
]

includes-Misses :
    (id : String) (rows : List ActionEvent)
    → Misses id rows
    → includes id (map (λ r. r.id) rows) ≡ false
includes-Misses id [] h = refl
includes-Misses id (r ∷ rows) h = rw (h.0) (includes-Misses id rows h.1)

pub has_id-of_claimed :
    (id : String) (locked : String → Bool) (rows : List ActionEvent)
    → includes id (map (λ r. r.id) (claimed locked rows)) ≡ true
    → has_id id rows ≡ true
unfolding claimed
has_id-of_claimed id locked rows h = elim (Bool-cases (has_id id rows)) [
  | inl e ↦ e
  | inr e ↦
      let test : ActionEvent → Bool = λ r. is_pending r.status && not (locked r.id) in
      let chosen = filter test rows in
      let missed = includes-Misses id (take batch_size (by_schedule chosen)) (
        All-take _ batch_size (by_schedule chosen)
          (All-by_schedule _ chosen (All-filter _ test rows (Misses-of_has_id id rows e)))) in
      absurd (ground arith)
]

-- The table after a poll.
pub has_id-mark_queued :
    (id : String) (ids : List String) (now : ℕ) (rows : List ActionEvent)
    → has_id id (mark_queued ids now rows) ≡ has_id id rows
unfolding mark_queued
has_id-mark_queued id ids now [] = refl
has_id-mark_queued id ids now (r ∷ rows) = elim (Bool-cases (includes r.id ids)) [
  | inl e ↦ rw (e, has_id-mark_queued id ids now rows) refl
  | inr e ↦ rw (e, has_id-mark_queued id ids now rows) refl
]

pub mark_queued-claimed :
    (id : String) (ids : List String) (now : ℕ) (rows : List ActionEvent)
    → includes id ids ≡ true
    → All (λ r. r.id ≡ id → r.status ≡ queued) (mark_queued ids now rows)
unfolding mark_queued
mark_queued-claimed id ids now [] h = tt
mark_queued-claimed id ids now (r ∷ rows) h = elim (Bool-cases (includes r.id ids)) [
  | inl e ↦ rw e ((λ own. refl), mark_queued-claimed id ids now rows h)
  | inr e ↦ rw e (
    (λ own. absurd (let there = ap (λ t. includes t ids) own in ground arith)),
    mark_queued-claimed id ids now rows h,
  )
]

pub mark_queued-marked :
    (id : String) (ids : List String) (now : ℕ) (rows : List ActionEvent)
    → All (λ r. r.id ≡ id → r.status ≡ queued) rows
    → All (λ r. r.id ≡ id → r.status ≡ queued) (mark_queued ids now rows)
unfolding mark_queued
mark_queued-marked id ids now [] h = tt
mark_queued-marked id ids now (r ∷ rows) h = elim (Bool-cases (includes r.id ids)) [
  | inl e ↦ rw e ((λ own. refl), mark_queued-marked id ids now rows h.1)
  | inr e ↦ rw e (h.0, mark_queued-marked id ids now rows h.1)
]

pub no_job-handed :
    (id : String) (rows : List ActionEvent)
    → Misses id rows
    → All (λ j. (j.event_id == id) ≡ false) (map job_of rows)
no_job-handed id [] h = tt
no_job-handed id (r ∷ rows) h = (h.0, no_job-handed id rows h.1)
