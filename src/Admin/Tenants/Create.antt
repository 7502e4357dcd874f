-- ===== src/Admin/Tenants/Create.antt =====
-- A new tenant, and what a refused creation leaves.
use crm_multi_tenant_saas_ar.Prelude.{
  ◌≡◌, refl, Bool, true, false, not, ◌&&◌, ◌||◌, String, some, List, [], ◌∷◌, ◌==◌, arith, eq_iff,
  eq_refl, any, all, includes, All, Bool-cases, text_cases, inl, inr, ◌⊎◌,
}
use crm_multi_tenant_saas_ar.Dal.Cache.{Redis}
use crm_multi_tenant_saas_ar.Gateway.Resolver.{Cached}
use crm_multi_tenant_saas_ar.Prelude.Dict.{lookup, insert}
use crm_multi_tenant_saas_ar.Plugins.Dependency.{Index, index_of}
use crm_multi_tenant_saas_ar.Plugins.Dependency.Checks.{Closed, Closed-same}
use crm_multi_tenant_saas_ar.Admin.Toggle.Closure.{catalogue}
use crm_multi_tenant_saas_ar.Admin.Tables.{
  PluginRow, is_valid_plan, tier_default_plugins, find_tenant, update_tenant, taken, plugin_of,
  enabled_names, insert_plugin, insert_plugins,
}
use crm_multi_tenant_saas_ar.Admin.Tables.Enabled.{on}
use crm_multi_tenant_saas_ar.Admin.World.{
  World, Message, send_quietly, failed, AdminError, bad_request, conflict,
}
use crm_multi_tenant_saas_ar.Admin.Tenants.{CreateInput, new_tenant, provision, create}

-- The key of a new row is drawn by the database, so no row of `tenant_plugins` has it yet.
abbrev pub Fresh : String → List PluginRow → Type 0
Fresh id rows = All (λ r. (r.tenant_id == id) ≡ false) rows

-- An insertion that does nothing where there is a row: for a tenant whose rows are all enabled.
abbrev AllOn : String → List PluginRow → Type 0
AllOn id rows = All (λ r. (r.tenant_id == id) ≡ true → r.is_enabled ≡ true) rows

on-any :
    (id name : String) (rows : List PluginRow)
    → AllOn id rows
    → any (plugin_of id name) rows ≡ true
    → on id name rows ≡ true
unfolding enabled_names
on-any id name [] h found = cc
on-any id name (r ∷ rows) h found = let ih = on-any id name rows h.1 in ground (arith, ih, h.0)

on-insert_plugin :
    (id name t j : String) (rows : List PluginRow)
    → AllOn id rows
    → (on t j (insert_plugin id name rows) ≡ ((id == t && name == j) || on t j rows))
      × AllOn id (insert_plugin id name rows)
unfolding insert_plugin enabled_names
on-insert_plugin id name t j rows h = elim (Bool-cases (any (plugin_of id name) rows)) [
  | inl e ↦ rw e (ground (arith, on-any id name rows h e, eq_iff id t, eq_iff name j), h)
  | inr e ↦ rw e (ground arith, ((λ _. refl), h))
]

on-insert_plugins :
    (id t j : String) (names : List String) (rows : List PluginRow)
    → AllOn id rows
    → on t j (insert_plugins id names rows) ≡ ((id == t && includes j names) || on t j rows)
unfolding insert_plugins
on-insert_plugins id t j [] rows h = ground arith
on-insert_plugins id t j (name ∷ names) rows h =
    let one = on-insert_plugin id name t j rows h in
    let ih = on-insert_plugins id t j names (insert_plugin id name rows) one.1 in
    ground (arith, one.0, ih)

Fresh-AllOn : (id : String) (rows : List PluginRow) → Fresh id rows → AllOn id rows
Fresh-AllOn id [] h = tt
Fresh-AllOn id (r ∷ rows) h = ((λ e. absurd (ground arith)), Fresh-AllOn id rows h.1)

on-Fresh : (id j : String) (rows : List PluginRow) → Fresh id rows → on id j rows ≡ false
unfolding enabled_names
on-Fresh id j [] h = refl
on-Fresh id j (r ∷ rows) h = let ih = on-Fresh id j rows h.1 in ground (arith, ih, h.0)

-- `Closed` as a test.
abbrev pub deps_on : List String → List String → Bool
deps_on enabled deps = all (λ dep. includes dep enabled) deps

abbrev pub closed? : Index → List String → Bool
closed? index enabled =
    all (λ e. not (includes e.0 enabled) || deps_on enabled e.1.dependencies) index

deps_on→All :
    (enabled deps : List String)
    → deps_on enabled deps ≡ true
    → All (λ dep. includes dep enabled ≡ true) deps
deps_on→All enabled [] h = tt
deps_on→All enabled (d ∷ deps) h = (ground arith, deps_on→All enabled deps (ground arith))

pub closed?→Closed :
    (index : Index) (enabled : List String) → closed? index enabled ≡ true → Closed index enabled
unfolding lookup
closed?→Closed [] enabled h name m found on = absurd (ground arith)
closed?→Closed ((k, n) ∷ index) enabled h name m found on = elim (Bool-cases (k == name)) [
  | inl e ↦ deps_on→All enabled m.dependencies (ground (arith, eq_iff k name))
  | inr e ↦ closed?→Closed index enabled (ground arith) name m (ground arith) on
]

defaults_closed : (plan : String) → closed? catalogue (tier_default_plugins plan) ≡ true
unfolding tier_default_plugins index_of insert
defaults_closed plan = elim (Bool-cases (plan == "basic")) [
  | inl e ↦ rw e refl
  | inr e ↦ elim (Bool-cases (plan == "premium")) [
    | inl e' ↦ rw (e, e') refl
    | inr e' ↦ elim (Bool-cases (plan == "enterprise")) [
      | inl f ↦ rw (e, e', f) refl
      | inr f ↦ elim (Bool-cases (plan == "vip")) [
        | inl f' ↦ rw (e, e', f, f') refl
        | inr f' ↦ rw (e, e', f, f') refl
      ]
    ]
  ]
]

module _ (redis : Redis Cached) (accepts : Message → Bool) where
  open redis use {Store}

  create-db :
      (id : String) (input : CreateInput) (w : World Store)
      → is_valid_plan input.plan ≡ true
      → taken input.subdomain w.db ≡ false
      → (create redis accepts id input w).0.db ≡ provision id input w.db
  unfolding create send_quietly
  create-db id input w valid free = ground arith

  -- A creation with a valid plan and a free subdomain, under a key that no row has: the tenant is
  -- there, active, in its plan; exactly the default plugins of the plan are enabled for it, every
  -- other tenant's are as before; and if every tenant's plugins had their dependencies enabled, then
  -- so they have now.
  pub create-provisioned :
      (id : String) (input : CreateInput) (w : World Store)
      → is_valid_plan input.plan ≡ true
      → taken input.subdomain w.db ≡ false
      → Fresh id w.db.plugins
      → (find_tenant id (create redis accepts id input w).0.db
          ≡ some (record (new_tenant id input) { status = "active" }))
        × ((tenant j : String)
            → on tenant j (create redis accepts id input w).0.db.plugins ≡ (
                (id == tenant && includes j (tier_default_plugins input.plan))
                || on tenant j w.db.plugins))
        × ((tenant : String)
            → Closed catalogue (enabled_names tenant w.db.plugins)
            → Closed catalogue
                (enabled_names tenant (create redis accepts id input w).0.db.plugins))
  unfolding provision find_tenant update_tenant
  create-provisioned id input w valid free fresh =
      let e = create-db id input w valid free in
      let switched : (tenant j : String)
          → on tenant j (provision id input w.db).plugins ≡ (
              (id == tenant && includes j (tier_default_plugins input.plan))
              || on tenant j w.db.plugins) =
        λ tenant j.
          on-insert_plugins id tenant j (tier_default_plugins input.plan) w.db.plugins
            (Fresh-AllOn id w.db.plugins fresh) in
      (
        rw e (ground (arith, eq_refl id)),
        λ tenant j. rw e (switched tenant j),
        λ tenant closed. rw e (elim (text_cases id tenant) [
          | inl same ↦
              Closed-same (tier_default_plugins input.plan) _ catalogue
                (closed?→Closed catalogue _ (defaults_closed input.plan))
                (λ j.
                  ground
                    (arith, switched tenant j, eq_iff id tenant, on-Fresh id j w.db.plugins fresh))
          | inr other ↦
              Closed-same (enabled_names tenant w.db.plugins) _ catalogue closed
                (λ j. ground (arith, switched tenant j))
        ]),
      )

  -- A creation that is refused changes nothing, and it is refused only for an unknown plan or a
  -- subdomain that a tenant has.
  pub create_failed :
      (id : String) (input : CreateInput) (w w' : World Store) (e : AdminError)
      → create redis accepts id input w ≡ (w', failed e)
      → (w' ≡ w)
        × (((e ≡ bad_request) × (is_valid_plan input.plan ≡ false))
            ⊎ ((e ≡ conflict) × (taken input.subdomain w.db ≡ true)))
  unfolding create
  create_failed id input w w' e h = elim (Bool-cases (is_valid_plan input.plan)) [
    | inl a ↦ elim (Bool-cases (taken input.subdomain w.db)) [
      | inl b ↦ (ground arith, inr (ground arith, b))
      | inr b ↦ absurd (ground arith)
    ]
    | inr a ↦ (ground arith, inl (ground arith, a))
  ]
