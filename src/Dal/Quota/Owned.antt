-- ===== src/Dal/Quota/Owned.antt =====
-- Whose slot an object is: what keeps the counts of different tenants apart.
use crm_multi_tenant_saas_ar.Prelude.{
  All, ℕ, ◌+◌, ◌-◌, ◌≤◌, ◌<◌, ◌≡◌, refl, String, some, List, [], ◌∷◌, ◌++◌, eqb, leb, ltb, eq_iff,
  arith, Option-cases, if◌then◌else◌, Bool-cases, inl, inr, ◌⊎◌,
}
use crm_multi_tenant_saas_ar.Prelude.Dict.{lookup-insert, lookup-remove}
use crm_multi_tenant_saas_ar.Dal.Quota.{
  Limit, finite, infinity, find_slot, write, place, tier_cap, fresh, register, round,
  acquire_timeout_ms, release, update_cap, deregister,
}
use crm_multi_tenant_saas_ar.Dal.Quota.Requests.{Waiter, System, adjust, after_round, attempt, call}

-- Every object was made for one tenant: an entry or a sleeping call of another never has it.
pub record Owned (owner : ℕ → String) (s : System) : Type 0 where
  pub entries :
      (j : String) (found : ℕ)
      → find_slot j s.slots ≡ some found
      → (owner found ≡ j)
        × (found < s.slots.next_object)
        × ((s.slots.objects found).current ≤ s.held j)
        × (0 < (s.slots.objects found).max)
  pub waiters :
      All (λ w. (owner w.object ≡ w.tenant_id) × (w.object < s.slots.next_object)) s.waiting

Limit-cases : (l : Limit) → (l ≡ infinity) ⊎ ((n : ℕ) × (l ≡ finite n))
Limit-cases infinity = inl refl
Limit-cases (finite n) = inr (n, refl)

tier_cap-pos : (tier : String) (n : ℕ) → tier_cap tier ≡ finite n → 0 < n
unfolding tier_cap
tier_cap-pos tier n h = ground arith

abbrev Waits : (ℕ → String) → ℕ → List Waiter → Type 0
Waits owner n ws = All (λ w. (owner w.object ≡ w.tenant_id) × (w.object < n)) ws

Waits-pick :
    (owner : ℕ → String) (n : ℕ) (w : Waiter) (before after : List Waiter)
    → Waits owner n (before ++ w ∷ after)
    → (owner w.object ≡ w.tenant_id) × (w.object < n) × Waits owner n (before ++ after)
Waits-pick owner n w [] after h = (h.0.0, h.0.1, h.1)
Waits-pick owner n w (x ∷ before) after h =
    let (own, below, rest) = Waits-pick owner n w before after h.1 in (own, below, (h.0, rest))

-- The owners with one for a new object.
abbrev name_new : ℕ → String → (ℕ → String) → ℕ → String
name_new n id owner k = if eqb n k then id else owner k

Waits-name_new :
    (owner : ℕ → String) (n : ℕ) (id : String) (ws : List Waiter)
    → Waits owner n ws
    → Waits (name_new n id owner) (n + 1) ws
Waits-name_new owner n id [] h = tt
Waits-name_new owner n id (w ∷ ws) h =
    ((ground arith, omega (arith, h.0.1)), Waits-name_new owner n id ws h.1)

attempt-Owned :
    (owner : ℕ → String) (now : ℕ) (w : Waiter) (s : System)
    → Owned owner s
    → owner w.object ≡ w.tenant_id
    → w.object < s.slots.next_object
    → Owned owner (attempt now w s)
unfolding attempt after_round round write
attempt-Owned owner now w s good own below =
    elim (Bool-cases (leb (s.slots.objects w.object).max (s.slots.objects w.object).current)) [
      | inl full ↦ elim (Bool-cases (leb w.deadline now)) [
        | inl over ↦ rw (full, over) good
        | inr early ↦
            rw (full, early)
              (record { entries = good.entries; waiters = ((own, below), good.waiters) })
      ]
      | inr room ↦ rw room (record {
        entries = λ j found h. ground (arith, good.entries j found h, eq_iff w.tenant_id j);
        waiters = good.waiters;
      })
    ]

pub call-Owned :
    (owner : ℕ → String) (now : ℕ) (id : String) (s : System)
    → Owned owner s
    → Owned owner (call now id s)
unfolding call
call-Owned owner now id s good = elim (Option-cases (find_slot id s.slots)) [
  | inl e ↦
      rw (call, e)
        (record {
          entries = λ j found h. ground (arith, good.entries j found h, eq_iff id j);
          waiters = good.waiters;
        })
  | inr (found, e) ↦
      let mine = good.entries id found e in
      rw (call, e)
        (attempt-Owned owner now
          (record { tenant_id = id; object = found; deadline = now + acquire_timeout_ms }) s good
          mine.0 mine.1)
]

pub wake-Owned :
    (owner : ℕ → String) (now : ℕ) (w : Waiter) (before after : List Waiter) (s : System)
    → s.waiting ≡ before ++ w ∷ after
    → Owned owner s
    → Owned owner (attempt now w (record s { waiting = before ++ after }))
wake-Owned owner now w before after s e good =
    let (own, below, rest) =
      Waits-pick owner s.slots.next_object w before after (rw e at good.waiters) in
    attempt-Owned owner now w (record s { waiting = before ++ after })
      (record { entries = good.entries; waiters = rest }) own below

pub leave-Owned :
    (owner : ℕ → String) (id : String) (s : System)
    → Owned owner s
    → Owned owner (record s { slots = release id s.slots; held = adjust (λ n. n - 1) id s.held })
unfolding release write
leave-Owned owner id s good = elim (Option-cases (find_slot id s.slots)) [
  | inl e ↦
      rw (release, e)
        (record {
          entries = λ j found h. ground (arith, good.entries j found h, eq_iff id j);
          waiters = good.waiters;
        })
  | inr (mine, e) ↦ elim (Bool-cases (ltb 0 (s.slots.objects mine).current)) [
    | inl some_left ↦
        rw (release, e, some_left)
          (record {
            entries = λ j found h.
                ground (arith, good.entries j found h, good.entries id mine e, eq_iff id j);
            waiters = good.waiters;
          })
    | inr none_left ↦
        rw (release, e, none_left)
          (record {
            entries = λ j found h.
                ground (arith, good.entries j found h, good.entries id mine e, eq_iff id j);
            waiters = good.waiters;
          })
  ]
]

-- A new object for a tenant, with a cap that admits one.
place-Owned :
    (owner : ℕ → String) (id : String) (max : ℕ) (s : System)
    → 0 < max
    → Owned owner s
    → Owned
        (name_new s.slots.next_object id owner)
        (record s { slots = place id (fresh max) s.slots })
unfolding place write
place-Owned owner id max s admits good = record {
  entries = λ j found h. ground (
    arith,
    good.entries j found,
    eq_iff id j,
    lookup-insert id j s.slots.next_object s.slots.entries,
  );
  waiters = Waits-name_new owner s.slots.next_object id s.waiting good.waiters;
}

pub deregister-Owned :
    (owner : ℕ → String) (id : String) (s : System)
    → Owned owner s
    → Owned owner (record s { slots = deregister id s.slots })
unfolding deregister
deregister-Owned owner id s good = record {
  entries = λ j found h. ground (arith, good.entries j found, lookup-remove id j s.slots.entries);
  waiters = good.waiters;
}

abbrev pub Good : System → Type 0
Good s = (owner : ℕ → String) × Owned owner s

pub register-Good :
    (id tier : String) (s : System) → Good s → Good (record s { slots = register id tier s.slots })
unfolding register
register-Good id tier s (owner, good) = elim (Limit-cases (tier_cap tier)) [
  | inl e ↦ rw (register, e) (owner, good)
  | inr (max, e) ↦
      rw (register, e)
        (
          name_new s.slots.next_object id owner,
          place-Owned owner id max s (tier_cap-pos tier max e) good,
        )
]

pub update_cap-Good :
    (id tier : String) (s : System)
    → Good s
    → Good (record s { slots = update_cap id tier s.slots })
unfolding update_cap write
update_cap-Good id tier s (owner, good) = elim (Limit-cases (tier_cap tier)) [
  | inl e ↦ rw (update_cap, e) (owner, deregister-Owned owner id s good)
  | inr (max, e) ↦ elim (Option-cases (find_slot id s.slots)) [
    | inl m ↦
        rw (update_cap, e, m)
          (
            name_new s.slots.next_object id owner,
            place-Owned owner id max s (tier_cap-pos tier max e) good,
          )
    | inr (mine, m) ↦
        rw (update_cap, e, m)
          (
            owner,
            record {
              entries =
                  λ j found h. ground (arith, good.entries j found h, tier_cap-pos tier max e);
              waiters = good.waiters;
            },
          )
  ]
]
