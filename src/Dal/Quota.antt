-- ===== src/Dal/Quota.antt =====
-- backend/src/dal/pool/TenantQuotaEnforcer.ts: the connection caps of one application instance.
pub mod Laws
pub mod Waiting
pub mod Requests
pub mod Owned
pub mod Runs
use crm_multi_tenant_saas_ar.Prelude.{
  ℕ, suc, ◌+◌, ◌-◌, Bool, true, false, String, Option, none, some, List, [], ◌∷◌, ltb, leb, eqb,
  ◌==◌, if◌then◌else◌,
}
use crm_multi_tenant_saas_ar.Prelude.Dict.{Dict, lookup, insert, remove, has}

-- A cap, where the source writes a number or `Infinity`.
pub data Limit : Type 0 where
  finite : ℕ → Limit
  infinity : Limit

-- `TIER_CAPS[tier] ?? 10`
unfoldable pub tier_cap : String → Limit
tier_cap tier =
    if tier == "basic"
    then finite 10
    else if tier == "standard"
    then finite 10
    else if tier == "premium"
    then finite 20
    else if tier == "enterprise"
    then finite 30
    else if tier == "vip"
    then infinity
    else finite 10

pub record Slot : Type 0 where
  pub current : ℕ
  pub max : ℕ

-- The static map `slots`, and the objects that it has held: an entry is the place of an object, so
-- that a waiting request still has the object that it looked up when the entry is gone or is another.
pub record Slots : Type 0 where
  pub entries : Dict ℕ
  pub objects : ℕ → Slot
  pub next_object : ℕ

abbrev pub fresh : ℕ → Slot
fresh max = record { current = 0; max = max }

abbrev pub no_slots : Slots
no_slots = record { entries = []; objects = λ _. fresh 0; next_object = 0 }

abbrev pub find_slot : String → Slots → Option ℕ
find_slot tenant_id slots = lookup tenant_id slots.entries

-- A change to a field of an object.
unfoldable pub write : ℕ → Slot → Slots → Slots
write at slot slots = record slots {
  objects = λ other. if eqb at other then slot else slots.objects other;
}

-- `this.slots.set(tenantId, { … })`
unfoldable pub place : String → Slot → Slots → Slots
unfolding write
place tenant_id slot slots = record (write slots.next_object slot slots) {
  entries = insert tenant_id slots.next_object slots.entries;
  next_object = slots.next_object + 1;
}

unfoldable pub register : String → String → Slots → Slots
unfolding place
register tenant_id tier slots = elim (tier_cap tier) [
  | infinity ↦ slots
  | finite max ↦ place tenant_id (fresh max) slots
]

abbrev pub one_more : Slot → Slot
one_more slot = record slot { current = slot.current + 1 }

-- `none` where the source throws `ServiceUnavailableException`.
unfoldable pub acquire_sync : String → Slots → Option Slots
unfolding write
acquire_sync tenant_id slots = elim (find_slot tenant_id slots) [
  | none ↦ some slots
  | some at ↦
      if leb (slots.objects at).max (slots.objects at).current
      then none
      else some (write at (one_more (slots.objects at)) slots)
]

-- `ACQUIRE_TIMEOUT_MS`, `POLL_INTERVAL_MS`
abbrev pub acquire_timeout_ms : ℕ
acquire_timeout_ms = 5000

abbrev pub poll_interval_ms : ℕ
poll_interval_ms = 50

-- What one round of the polling loop reads: the clock, and the slots as the other requests have
-- left them.
pub record Poll : Type 0 where
  pub now : ℕ
  pub slots : Slots

pub data Round : Type 0 where
  took : Slots → Round
  expired : Round
  asleep : Round

-- One round of the `while` loop of `acquire` on the captured object, with `slot.current++` where
-- the loop ends.
unfoldable pub round : ℕ → ℕ → Poll → Round
unfolding write
round at deadline p =
    let slot = p.slots.objects at in
    if leb slot.max slot.current
    then (if leb deadline p.now then expired else asleep)
    else took (write at (one_more slot) p.slots)

pub data Acquired : Type 0 where
  entered : Slots → Acquired
  unavailable : Slots → Acquired
  pending : Acquired

-- The loop over what its rounds read; `pending` where the rounds end before the loop does.
unfoldable pub acquire_loop : ℕ → ℕ → List Poll → Acquired
unfolding round
acquire_loop at deadline [] = pending
acquire_loop at deadline (p ∷ polls) =
    let rest = acquire_loop at deadline polls in
    elim (round at deadline p) [
      | took slots ↦ entered slots
      | expired ↦ unavailable p.slots
      | asleep ↦ rest
    ]

-- `acquire`, called at the time `start`; `polls` are the rounds after the first.
unfoldable pub acquire : String → ℕ → List Poll → Slots → Acquired
unfolding acquire_loop
acquire tenant_id start polls slots = elim (find_slot tenant_id slots) [
  | none ↦ entered slots
  | some at ↦
      acquire_loop at (start + acquire_timeout_ms) (record { now = start; slots = slots } ∷ polls)
]

unfoldable pub release : String → Slots → Slots
unfolding write
release tenant_id slots = elim (find_slot tenant_id slots) [
  | none ↦ slots
  | some at ↦
      if ltb 0 (slots.objects at).current
      then write at (record (slots.objects at) { current = (slots.objects at).current - 1 }) slots
      else slots
]

unfoldable pub deregister : String → Slots → Slots
deregister tenant_id slots = record slots { entries = remove tenant_id slots.entries }

unfoldable pub update_cap : String → String → Slots → Slots
unfolding write place deregister
update_cap tenant_id tier slots = elim (tier_cap tier) [
  | infinity ↦ deregister tenant_id slots
  | finite max ↦ elim (find_slot tenant_id slots) [
    | some at ↦ write at (record (slots.objects at) { max = max }) slots
    | none ↦ place tenant_id (fresh max) slots
  ]
]

unfoldable pub is_registered : String → Slots → Bool
is_registered tenant_id slots = has tenant_id slots.entries

unfoldable pub reset : Slots → Slots
reset slots = record slots { entries = [] }
