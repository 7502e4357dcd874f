-- ===== src/Dal/Quota/Runs.antt =====
-- Any interleaving of the requests of one instance, which wait in the polling loop of `acquire`: the
-- count of a slot against the connections that are really held.
use crm_multi_tenant_saas_ar.Prelude.{
  ℕ, ◌≤◌, ◌<◌, ◌≡◌, String, some, eq_iff, arith, Option-cases, inl, inr,
}
use crm_multi_tenant_saas_ar.Prelude.Dict.{lookup}
use crm_multi_tenant_saas_ar.Dal.Quota.{find_slot, round}
use crm_multi_tenant_saas_ar.Dal.Quota.Requests.{
  System, after_round, attempt, call, Step, request, wake, leave, arrive, change, depart, Reach,
  here, next, idle,
}
use crm_multi_tenant_saas_ar.Dal.Quota.Owned.{
  Good, call-Owned, wake-Owned, leave-Owned, deregister-Owned, register-Good, update_cap-Good,
}

-- No slot in the map counts a connection that nobody holds, and every cap admits one.
abbrev pub Fair : System → Type 0
Fair s =
    (j : String) (found : ℕ)
    → find_slot j s.slots ≡ some found
    → ((s.slots.objects found).current ≤ s.held j) × (0 < (s.slots.objects found).max)

Step-Good : {s t : System} → Step s t → Good s → Good t
Step-Good (request {s} now id) (owner, good) = (owner, call-Owned owner now id s good)
Step-Good (wake {s} now w before after e) (owner, good) =
    (owner, wake-Owned owner now w before after s e good)
Step-Good (leave {s} id h) (owner, good) = (owner, leave-Owned owner id s good)
Step-Good (arrive {s} id tier) good = register-Good id tier s good
Step-Good (change {s} id tier) good = update_cap-Good id tier s good
Step-Good (depart {s} id) (owner, good) = (owner, deregister-Owned owner id s good)

Reach-Good : {s : System} → Reach idle s → Good s
unfolding lookup
Reach-Good here = (λ _. "", record { entries = λ j found h. cc; waiters = tt })
Reach-Good (next r st) = Step-Good st (Reach-Good r)

-- In every interleaving that starts with an empty map, of requests that wait in the polling loop of
-- `acquire` on the slot that they have captured, no slot in the map counts more connections than its
-- tenant holds, and every cap admits one, whatever tiers are changed and whatever slots are removed,
-- replaced and made anew on the way.
pub Reach-Fair : {s : System} → Reach idle s → Fair s
Reach-Fair r j found h =
    let (_, good) = Reach-Good r in
    let (_, _, counted, admits) = good.entries j found h in (counted, admits)

-- So a request of a tenant that holds no connection enters in the first round.
Reach-call :
    {s : System} (now : ℕ) (id : String)
    → Reach idle s
    → s.held id ≡ 0
    → (call now id s).held id ≡ 1
unfolding call attempt after_round round
Reach-call {s} now id r none_held = elim (Option-cases (find_slot id s.slots)) [
  | inl e ↦ ground (arith, eq_iff id id)
  | inr (found, e) ↦ ground (arith, eq_iff id id, Reach-Fair r id found e)
]
