-- ===== src/Automation/Triggers/Rows.antt =====
-- The rows of triggers in their order, one for each action.
use crm_multi_tenant_saas_ar.Prelude.{
  ℕ, zero, suc, ◌+◌, ◌≡◌, refl, ap, subst, ◌∙◌, Bool, true, false, String, Option, some, List, [],
  ◌∷◌, arith, leb, length, if◌then◌else◌, Bool-cases, inl, inr,
}
use crm_multi_tenant_saas_ar.Prelude.Member.{
  In, get_elem?, In-append, In-append_left, In-append_right,
}
use crm_multi_tenant_saas_ar.Automation.Values.{Json}
use crm_multi_tenant_saas_ar.Automation.Conditions.{evaluate_conditions}
use crm_multi_tenant_saas_ar.Automation.Actions.{ActionEvent, pending}
use crm_multi_tenant_saas_ar.Automation.Triggers.{
  put_oldest, oldest_first, action_row, action_rows, rows_for,
}
use crm_multi_tenant_saas_ar.Cores.Store.{StoredAction, AutomationTrigger}

-- Sorting keeps the members.
put_oldest-In :
    (t a : AutomationTrigger) (xs : List AutomationTrigger) → In t (a ∷ xs) → In t (put_oldest a xs)
unfolding put_oldest
put_oldest-In t a [] i = i
put_oldest-In t a (x ∷ xs) i = elim (Bool-cases (leb a.created_at x.created_at)) [
  | inl e ↦ rw e i
  | inr e ↦ rw e (elim i [
    | inl here ↦ inr (put_oldest-In t a xs (inl here))
    | inr (inl first) ↦ inl first
    | inr (inr later) ↦ inr (put_oldest-In t a xs (inr later))
  ])
]

either_place :
    (t a x : AutomationTrigger) (xs put : List AutomationTrigger) (b : Bool)
    → (In t put → In t (a ∷ xs))
    → In t (if b then a ∷ x ∷ xs else x ∷ put)
    → In t (a ∷ x ∷ xs)
either_place t a x xs put true ih i = i
either_place t a x xs put false ih (inl e) = inr (inl e)
either_place t a x xs put false ih (inr i) = elim (ih i) [ inl e ↦ inl e | inr j ↦ inr (inr j) ]

In-put_oldest :
    (t a : AutomationTrigger) (xs : List AutomationTrigger) → In t (put_oldest a xs) → In t (a ∷ xs)
unfolding put_oldest
In-put_oldest t a [] i = i
In-put_oldest t a (x ∷ xs) i =
    let ih = In-put_oldest t a xs in
    either_place t a x xs (put_oldest a xs) (leb a.created_at x.created_at) ih i

pub oldest_first-In :
    (t : AutomationTrigger) (xs : List AutomationTrigger) → In t xs → In t (oldest_first xs)
unfolding oldest_first
oldest_first-In t [] i = i
oldest_first-In t (x ∷ xs) (inl e) = put_oldest-In t x (oldest_first xs) (inl e)
oldest_first-In t (x ∷ xs) (inr i) =
    put_oldest-In t x (oldest_first xs) (inr (oldest_first-In t xs i))

pub In-oldest_first :
    (t : AutomationTrigger) (xs : List AutomationTrigger) → In t (oldest_first xs) → In t xs
unfolding oldest_first
In-oldest_first t [] i = i
In-oldest_first t (x ∷ xs) i = elim (In-put_oldest t x (oldest_first xs) i) [
  | inl e ↦ inl e
  | inr j ↦ inr (In-oldest_first t xs j)
]

-- The row is that of an action of the trigger, at its index.
abbrev pub IsRowOf : String → AutomationTrigger → Json → ℕ → StoredAction → ActionEvent → Type 0
IsRowOf tenant_id t ctx index a e =
    (e.tenant_id ≡ tenant_id)
    × (e.trigger_id ≡ t.id)
    × (e.action_index ≡ index)
    × (e.action_type ≡ a.type)
    × (e.action_params ≡ a.params)
    × (e.trigger_context ≡ ctx)
    × (e.status ≡ pending)

module _ (draw : ℕ → String) (now : ℕ) (tenant_id : String) (ctx : Json) where
  In-action_rows :
      (t : AutomationTrigger) (e : ActionEvent) (key index : ℕ) (actions : List StoredAction)
      → In e (action_rows draw now tenant_id t ctx key index actions)
      → (i : ℕ) × (a : StoredAction) × (get_elem? actions i ≡ some a)
        × IsRowOf tenant_id t ctx (index + i) a e
  unfolding action_rows
  In-action_rows t e key index [] i = absurd i
  In-action_rows t e key index (a ∷ actions) (inl same) = (
    0,
    a,
    refl,
    subst (IsRowOf tenant_id t ctx (index + 0) a) same
        (refl, refl, omega arith, refl, refl, refl, refl),
  )
  In-action_rows t e key index (a ∷ actions) (inr later) =
      let (i, b, found, row) = In-action_rows t e (key + 1) (index + 1) actions later in
      let next : index + 1 + i ≡ index + suc i = omega arith in
      (suc i, b, found, subst (λ n. IsRowOf tenant_id t ctx n b e) next row)

  action_rows-In :
      (t : AutomationTrigger) (key index i : ℕ) (a : StoredAction) (actions : List StoredAction)
      → get_elem? actions i ≡ some a
      → (e : ActionEvent) × In e (action_rows draw now tenant_id t ctx key index actions)
        × IsRowOf tenant_id t ctx (index + i) a e
  unfolding action_rows
  action_rows-In t key index i a [] found = cc
  action_rows-In t key index zero a (b ∷ actions) found =
      let same : b ≡ a = ground arith in
      let row = action_row draw now tenant_id t ctx key index b in
      (
        row,
        inl refl,
        subst (λ x. IsRowOf tenant_id t ctx (index + 0) x row) same
            (refl, refl, omega arith, refl, refl, refl, refl),
      )
  action_rows-In t key index (suc i) a (b ∷ actions) found =
      let (e, here, row) = action_rows-In t (key + 1) (index + 1) i a actions found in
      let next : index + 1 + i ≡ index + suc i = omega arith in
      (e, inr here, subst (λ n. IsRowOf tenant_id t ctx n a e) next row)

  -- The row stands for an action of a trigger in the list whose conditions hold.
  abbrev pub Comes : (Json → String → Option Json) → List AutomationTrigger → ActionEvent → Type 0
  Comes inherited triggers e =
      (t : AutomationTrigger) × In t triggers
      × (evaluate_conditions inherited t.conditions ctx ≡ true)
      × (i : ℕ) × (a : StoredAction) × (get_elem? t.actions i ≡ some a)
      × IsRowOf tenant_id t ctx i a e

  module _ (inherited : Json → String → Option Json) where
    later_trigger :
        (x : AutomationTrigger) (triggers : List AutomationTrigger) (e : ActionEvent)
        → Comes inherited triggers e
        → Comes inherited (x ∷ triggers) e
    later_trigger x triggers e (t, here, holds, i, a, found, row) =
        (t, inr here, holds, i, a, found, row)

    pub In-rows_for :
        (e : ActionEvent) (key : ℕ) (triggers : List AutomationTrigger)
        → In e (rows_for inherited draw now tenant_id ctx key triggers)
        → Comes inherited triggers e
    unfolding rows_for
    In-rows_for e key [] i = absurd i
    In-rows_for e key (t ∷ triggers) i =
        elim (Bool-cases (evaluate_conditions inherited t.conditions ctx)) [
          | inr off ↦ later_trigger t triggers e (In-rows_for e key triggers (rw off at i))
          | inl on ↦
              elim (In-append e (action_rows draw now tenant_id t ctx key 0 t.actions)
                (rows_for inherited draw now tenant_id ctx (key + length t.actions) triggers)
                (rw on at i)) [
                  | inl own ↦
                      let (n, a, found, row) = In-action_rows t e key 0 t.actions own in
                      let same : 0 + n ≡ n = omega arith in
                      (
                        t,
                        inl refl,
                        on,
                        n,
                        a,
                        found,
                        subst (λ m. IsRowOf tenant_id t ctx m a e) same row,
                      )
                  | inr rest ↦
                      later_trigger t triggers e
                        (In-rows_for e (key + length t.actions) triggers rest)
                ]
        ]

    pub rows_for-In :
        (t : AutomationTrigger) (i key : ℕ) (a : StoredAction) (triggers : List AutomationTrigger)
        → In t triggers
        → evaluate_conditions inherited t.conditions ctx ≡ true
        → get_elem? t.actions i ≡ some a
        → (e : ActionEvent) × In e (rows_for inherited draw now tenant_id ctx key triggers)
          × IsRowOf tenant_id t ctx i a e
    unfolding rows_for
    rows_for-In t i key a [] here on found = absurd here
    rows_for-In t i key a (x ∷ triggers) (inl same) on found =
        let on_x : evaluate_conditions inherited x.conditions ctx ≡ true =
          ap (λ y. evaluate_conditions inherited y.conditions ctx) same ∙ on in
        let found_x : get_elem? x.actions i ≡ some a =
          ap (λ y. get_elem? y.actions i) same ∙ found in
        let (e, own, row) = action_rows-In x key 0 i a x.actions found_x in
        let index : 0 + i ≡ i = omega arith in
        let there =
          In-append_left e (action_rows draw now tenant_id x ctx key 0 x.actions)
            (rows_for inherited draw now tenant_id ctx (key + length x.actions) triggers) own in
        (
          e,
          rw on_x there,
          subst (λ y. IsRowOf tenant_id y ctx i a e) same
              (subst (λ m. IsRowOf tenant_id x ctx m a e) index row),
        )
    rows_for-In t i key a (x ∷ triggers) (inr later) on found =
        elim (Bool-cases (evaluate_conditions inherited x.conditions ctx)) [
          | inr off ↦
              let (e, there, row) = rows_for-In t i key a triggers later on found in
              (e, rw off there, row)
          | inl on_x ↦
              let (e, there, row) =
                rows_for-In t i (key + length x.actions) a triggers later on found in
              let further =
                In-append_right e (action_rows draw now tenant_id x ctx key 0 x.actions)
                  (rows_for inherited draw now tenant_id ctx (key + length x.actions) triggers)
                  there in
              (e, rw on_x further, row)
        ]
