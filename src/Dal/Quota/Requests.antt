-- ===== src/Dal/Quota/Requests.antt =====
-- The requests of one instance: calls of `acquire` that wait in its polling loop while the others run.
use crm_multi_tenant_saas_ar.Prelude.{
  ℕ, ◌+◌, ◌-◌, ◌<◌, ◌≡◌, String, none, some, List, [], ◌∷◌, ◌++◌, ◌==◌, if◌then◌else◌,
}
use crm_multi_tenant_saas_ar.Dal.Quota.{
  Slots, no_slots, find_slot, register, Round, took, expired, asleep, round, acquire_timeout_ms,
  release, update_cap, deregister,
}

-- A call of `acquire` that sleeps between two rounds.
pub record Waiter : Type 0 where
  pub tenant_id : String
  pub object : ℕ
  pub deadline : ℕ

-- `held id` is the number of connections that the requests of a tenant have taken and not given
-- back.
pub record System : Type 0 where
  pub slots : Slots
  pub waiting : List Waiter
  pub held : String → ℕ

abbrev pub adjust : (ℕ → ℕ) → String → (String → ℕ) → String → ℕ
adjust f id held j = if id == j then f (held j) else held j

abbrev pub grow : String → (String → ℕ) → String → ℕ
grow id held = adjust (λ n. n + 1) id held

-- What a round does to the system: the call returns, throws, or sleeps.
unfoldable pub after_round : Waiter → System → Round → System
after_round w s (took slots) = record s { slots = slots; held = grow w.tenant_id s.held }
after_round w s expired = s
after_round w s asleep = record s { waiting = w ∷ s.waiting }

-- One round of a call, at the time `now`.
unfoldable pub attempt : ℕ → Waiter → System → System
unfolding after_round round
attempt now w s =
    after_round w s (round w.object w.deadline (record { now = now; slots = s.slots }))

-- The start of a call up to its first sleep.
unfoldable pub call : ℕ → String → System → System
unfolding attempt
call now id s = elim (find_slot id s.slots) [
  | none ↦ record s { held = grow id s.held }
  | some found ↦
      attempt now (record { tenant_id = id; object = found; deadline = now + acquire_timeout_ms }) s
]

-- A request calls `acquire`, wakes up in it, or gives a connection back; an administrator changes
-- the tier; the tenant is seen for the first time or registered again, or leaves.
pub data Step : System → System → Type 0 where
  request : {s : System} (now : ℕ) (id : String) → Step s (call now id s)
  wake :
      {s : System} (now : ℕ) (w : Waiter) (before after : List Waiter)
      → s.waiting ≡ before ++ w ∷ after
      → Step s (attempt now w (record s { waiting = before ++ after }))
  leave :
      {s : System} (id : String)
      → 0 < s.held id
      → Step s (record s { slots = release id s.slots; held = adjust (λ n. n - 1) id s.held })
  arrive : {s : System} (id tier : String) → Step s (record s { slots = register id tier s.slots })
  change :
      {s : System} (id tier : String) → Step s (record s { slots = update_cap id tier s.slots })
  depart : {s : System} (id : String) → Step s (record s { slots = deregister id s.slots })

pub data Reach (s : System) : System → Type 0 where
  here : Reach s s
  next : {t u : System} → Reach s t → Step t u → Reach s u

abbrev pub idle : System
idle = record { slots = no_slots; waiting = []; held = λ _. 0 }
