-- ===== src/Plugins/Hooks/Order.antt =====
-- The order in which the hooks of an event run, and which of them run.
use crm_multi_tenant_saas_ar.Prelude.{
  ℕ, ◌≡◌, ◌≤◌, refl, ◌∙◌, not, String, Option, none, some, List, [], ◌∷◌, ◌++◌, ◌<>◌, arith, leb,
  eqb, All, Bool-cases, Option-cases, inl, inr,
}
use crm_multi_tenant_saas_ar.Prelude.{filter as keep}
use crm_multi_tenant_saas_ar.Prelude.Dict.{Dict, lookup, lookup-insert_self}
use crm_multi_tenant_saas_ar.Plugins.Manifest.{PluginHookDef}
use crm_multi_tenant_saas_ar.Plugins.Hooks.{
  HookHandler, HookEntry, type_text, insert_sorted, sort, entries_of, register, skips, run_each,
  run_through,
}

module _ {W : Type 0} {D : Type 0} where
  abbrev pub Sorted : List (HookEntry W D) → Type 0
  Sorted [] = Unit
  Sorted (e ∷ es) = All (λ x. e.def.priority ≤ x.def.priority) es × Sorted es

  -- The entries of one priority, in order.
  abbrev pub at : ℕ → List (HookEntry W D) → List (HookEntry W D)
  at p es = keep (λ e. eqb e.def.priority p) es

  All-insert_sorted :
      (bound : ℕ) (e : HookEntry W D) (es : List (HookEntry W D))
      → bound ≤ e.def.priority
      → All (λ x. bound ≤ x.def.priority) es
      → All (λ x. bound ≤ x.def.priority) (insert_sorted e es)
  unfolding insert_sorted
  All-insert_sorted bound e [] low h = (low, tt)
  All-insert_sorted bound e (x ∷ xs) low h = elim (Bool-cases (leb e.def.priority x.def.priority)) [
    | inl b ↦ rw b (low, h)
    | inr b ↦ rw b (h.0, All-insert_sorted bound e xs low h.1)
  ]

  All-lower :
      (low high : ℕ) (es : List (HookEntry W D))
      → low ≤ high
      → All (λ x. high ≤ x.def.priority) es
      → All (λ x. low ≤ x.def.priority) es
  All-lower low high [] le h = tt
  All-lower low high (e ∷ es) le h = (omega (arith, le, h.0), All-lower low high es le h.1)

  Sorted-insert_sorted :
      (e : HookEntry W D) (es : List (HookEntry W D)) → Sorted es → Sorted (insert_sorted e es)
  unfolding insert_sorted
  Sorted-insert_sorted e [] h = (tt, tt)
  Sorted-insert_sorted e (x ∷ xs) h = elim (Bool-cases (leb e.def.priority x.def.priority)) [
    | inl b ↦
        let le : e.def.priority ≤ x.def.priority = ground arith in
        rw b ((le, All-lower e.def.priority x.def.priority xs le h.0), h)
    | inr b ↦
        rw b
          (All-insert_sorted x.def.priority e xs (ground arith) h.0, Sorted-insert_sorted e xs h.1)
  ]

  Sorted-sort : (es : List (HookEntry W D)) → Sorted (sort es)
  unfolding sort
  Sorted-sort [] = tt
  Sorted-sort (e ∷ es) = Sorted-insert_sorted e (sort es) (Sorted-sort es)

  at-insert_sorted :
      (p : ℕ) (e : HookEntry W D) (es : List (HookEntry W D))
      → at p (insert_sorted e es) ≡ at p (e ∷ es)
  unfolding insert_sorted
  at-insert_sorted p e [] = refl
  at-insert_sorted p e (x ∷ xs) =
      let ih = at-insert_sorted p e xs in
      elim (Bool-cases (leb e.def.priority x.def.priority)) [
        | inl b ↦ rw b refl
        | inr b ↦ ground (arith, ih)
      ]

  at-sort : (p : ℕ) (es : List (HookEntry W D)) → at p (sort es) ≡ at p es
  unfolding sort
  at-sort p [] = refl
  at-sort p (e ∷ es) =
      let ih = at-sort p es in let step = at-insert_sorted p e (sort es) in ground (arith, ih, step)

  at-append : (p : ℕ) (xs ys : List (HookEntry W D)) → at p (xs ++ ys) ≡ at p xs ++ at p ys
  at-append p [] ys = refl
  at-append p (x ∷ xs) ys = let ih = at-append p xs ys in ground (arith, ih)

  -- After a registration the hooks of its type and event run by priority, the lower number first;
  -- the new one runs after those of its own priority, and the others keep their order.
  pub register-Sorted :
      (plugin_name : String) (def : PluginHookDef) (handler : HookHandler W D)
      (hooks : Dict (List (HookEntry W D)))
      → (after : List (HookEntry W D)) × (lookup
            (type_text def.type <> ":" <> def.event)
            (register plugin_name def handler hooks)
          ≡ some after)
        × Sorted after
        × ((p : ℕ)
            → at p after
              ≡ at p (entries_of (lookup (type_text def.type <> ":" <> def.event) hooks))
                ++ at p (record { plugin_name = plugin_name; def = def; handler = handler } ∷ []))
  unfolding register
  register-Sorted plugin_name def handler hooks =
      let key = type_text def.type <> ":" <> def.event in
      let entry : HookEntry W D = record {
        plugin_name = plugin_name;
        def = def;
        handler = handler;
      } in
      let was = entries_of (lookup key hooks) in
      (
        sort (was ++ entry ∷ []),
        lookup-insert_self key (sort (was ++ entry ∷ [])) hooks,
        Sorted-sort (was ++ entry ∷ []),
        λ p. at-sort p (was ++ entry ∷ []) ∙ at-append p was (entry ∷ []),
      )

  -- A hook of a plugin that is not enabled for the tenant does not run: the loops are what they
  -- are over the hooks of the enabled plugins alone.
  pub run_through-keep :
      (enabled : Option (List String)) (value : D) (es : List (HookEntry W D)) (w : W)
      → (run_through enabled value es w
          ≡ run_through none value (keep (λ e. not (skips enabled e)) es) w)
        × (run_each enabled value es w
            ≡ run_each none value (keep (λ e. not (skips enabled e)) es) w)
  unfolding run_through run_each skips
  run_through-keep enabled value [] w = (refl, refl)
  run_through-keep enabled value (e ∷ es) w = elim (Bool-cases (skips enabled e)) [
    | inl b ↦ rw b (run_through-keep enabled value es w)
    | inr b ↦ elim (Option-cases (e.handler value w)) [
      | inl h ↦ rw (b, h) (refl, refl)
      | inr ((value', w'), h) ↦
          rw (b, h)
            ((run_through-keep enabled value' es w').0, (run_through-keep enabled value es w').1)
    ]
  ]
