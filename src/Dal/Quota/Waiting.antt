-- ===== src/Dal/Quota/Waiting.antt =====
-- The polling loop of `acquire`: it ends, it keeps the cap, and it refuses only at the deadline.
use crm_multi_tenant_saas_ar.Prelude.{
  ℕ, ◌+◌, ◌*◌, ◌≤◌, ◌<◌, ◌≡◌, ◌≢◌, String, some, List, [], ◌∷◌, arith, length, All, Option-cases,
  inl, inr,
}
use crm_multi_tenant_saas_ar.Dal.Quota.{
  Slots, Poll, find_slot, write, round, entered, unavailable, pending, acquire_loop, acquire,
  acquire_timeout_ms, poll_interval_ms,
}

-- `setTimeout` fires no earlier than it was asked to.
abbrev pub Timely : ℕ → List Poll → Type 0
Timely t [] = Unit
Timely t (p ∷ polls) = (t + poll_interval_ms ≤ p.now) × Timely p.now polls

acquire_loop-ne-pending :
    (at deadline t : ℕ) (polls : List Poll)
    → Timely t polls
    → 0 < length polls
    → deadline ≤ t + poll_interval_ms * length polls
    → acquire_loop at deadline polls ≢ pending
unfolding acquire_loop round
acquire_loop-ne-pending at deadline t [] timely some_left enough = absurd (omega arith)
acquire_loop-ne-pending at deadline t (p ∷ []) timely some_left enough = ground arith
acquire_loop-ne-pending at deadline t (p ∷ q ∷ polls) timely some_left enough =
    let ih : acquire_loop at deadline (q ∷ polls) ≢ pending =
      acquire_loop-ne-pending at deadline p.now (q ∷ polls) timely.1 (omega arith) (omega arith) in
    ground (arith, ih)

-- A waiting call ends after at most 101 rounds: if each `setTimeout` takes its 50 ms at least,
-- and 100 rounds follow the first, then `acquire` has entered or has been refused.
pub acquire-ne-pending :
    (id : String) (start : ℕ) (polls : List Poll) (slots : Slots)
    → Timely start polls
    → 100 ≤ length polls
    → acquire id start polls slots ≢ pending
unfolding acquire acquire_loop round
acquire-ne-pending id start polls slots timely enough = elim (Option-cases (find_slot id slots)) [
  | inl e ↦ ground arith
  | inr (at, e) ↦
      let ends : acquire_loop at (start + acquire_timeout_ms) polls ≢ pending =
        acquire_loop-ne-pending at (start + acquire_timeout_ms) start polls timely (omega arith)
          (omega arith) in
      ground (arith, ends)
]

acquire_loop-within :
    (at deadline : ℕ) (polls : List Poll) (slots' : Slots)
    → acquire_loop at deadline polls ≡ entered slots'
    → (0 < (slots'.objects at).current) × ((slots'.objects at).current ≤ (slots'.objects at).max)
unfolding acquire_loop round write
acquire_loop-within at deadline [] slots' h = cc
acquire_loop-within at deadline (p ∷ polls) slots' h =
    ground (arith, acquire_loop-within at deadline polls slots')

-- However the other requests change the slots while a call waits, also where the tenant's entry goes
-- or becomes another, a tenant that is registered at the call and enters has taken a slot within the
-- cap of the object that the call has captured.
pub acquire-within :
    (id : String) (start at : ℕ) (polls : List Poll) (slots slots' : Slots)
    → find_slot id slots ≡ some at
    → acquire id start polls slots ≡ entered slots'
    → (0 < (slots'.objects at).current) × ((slots'.objects at).current ≤ (slots'.objects at).max)
unfolding acquire
acquire-within id start at polls slots slots' found h =
    acquire_loop-within at (start + acquire_timeout_ms)
      (record { now = start; slots = slots } ∷ polls) slots' (rw (found, acquire) at h)

acquire_loop-ne-unavailable :
    (at deadline : ℕ) (polls : List Poll) (slots' : Slots)
    → All (λ p. p.now < deadline) polls
    → acquire_loop at deadline polls ≢ unavailable slots'
unfolding acquire_loop round
acquire_loop-ne-unavailable at deadline [] slots' early = cc
acquire_loop-ne-unavailable at deadline (p ∷ polls) slots' early =
    ground (arith, acquire_loop-ne-unavailable at deadline polls slots' early.1)

-- A call is never refused before its five seconds are over.
acquire-ne-unavailable :
    (id : String) (start : ℕ) (polls : List Poll) (slots slots' : Slots)
    → All (λ p. p.now < start + acquire_timeout_ms) polls
    → acquire id start polls slots ≢ unavailable slots'
unfolding acquire
acquire-ne-unavailable id start polls slots slots' early =
    elim (Option-cases (find_slot id slots)) [
      | inl e ↦ ground arith
      | inr (at, e) ↦ λ h.
          acquire_loop-ne-unavailable at (start + acquire_timeout_ms)
            (record { now = start; slots = slots } ∷ polls) slots' (omega arith, early)
            (rw (e, acquire) at h)
    ]
