-- ===== src/Dal/Quota/Laws.antt =====
-- `acquireSync`: it keeps the cap, is refused only at the cap, and is undone by a release.
use crm_multi_tenant_saas_ar.Prelude.{
  ℕ, ◌+◌, ◌≤◌, ◌≡◌, String, none, some, arith, Option-cases, inl, inr,
}
use crm_multi_tenant_saas_ar.Dal.Quota.{Slots, find_slot, write, one_more, acquire_sync, release}

-- A slot taken by `acquireSync` is within the cap, and grows the count by one.
acquire_sync-within :
    (id : String) (slots slots' : Slots) (at : ℕ)
    → find_slot id slots ≡ some at
    → acquire_sync id slots ≡ some slots'
    → (slots'.objects at ≡ one_more (slots.objects at))
      × ((slots.objects at).current + 1 ≤ (slots.objects at).max)
unfolding acquire_sync write
acquire_sync-within id slots slots' at found h = ground arith

-- It is refused exactly when the tenant is registered and its cap is used up.
acquire_sync-eq-none_iff :
    (id : String) (slots : Slots) (at : ℕ)
    → find_slot id slots ≡ some at
    → (acquire_sync id slots ≡ none → (slots.objects at).max ≤ (slots.objects at).current)
      × ((slots.objects at).max ≤ (slots.objects at).current → acquire_sync id slots ≡ none)
unfolding acquire_sync
acquire_sync-eq-none_iff id slots at found = ground arith

-- A slot that `acquireSync` has taken and `release` has given back leaves the count of every object
-- as it was.
release-acquire_sync :
    (id : String) (other : ℕ) (slots slots' : Slots)
    → acquire_sync id slots ≡ some slots'
    → ((release id slots').objects other).current ≡ (slots.objects other).current
unfolding acquire_sync release write
release-acquire_sync id other slots slots' h = elim (Option-cases (find_slot id slots)) [
  | inl e ↦ ground arith
  | inr (at, e) ↦ ground arith
]
