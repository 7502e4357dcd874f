-- ===== src/Admin/Toggle/Closure.antt =====
-- Switching plugins keeps every enabled plugin's needs enabled, and touches one tenant only.
use crm_multi_tenant_saas_ar.Prelude.{
  ◌≡◌, refl, Bool, true, false, String, Option, none, some, List, [], ◌∷◌, ◌==◌, arith, eq_iff,
  find, Bool-cases, text_cases, inl, inr,
}
use crm_multi_tenant_saas_ar.Dal.Cache.{Redis}
use crm_multi_tenant_saas_ar.Gateway.Resolver.{Cached}
use crm_multi_tenant_saas_ar.Plugins.Manifest.{PluginManifest, built_in_manifests}
use crm_multi_tenant_saas_ar.Plugins.Dependency.{
  Index, index_of, get_missing_deps, get_blocking_dependents,
}
use crm_multi_tenant_saas_ar.Plugins.Dependency.Checks.{
  Closed, Named-index_of, Closed-enable, Closed-disable, Closed-same,
}
use crm_multi_tenant_saas_ar.Admin.Tables.{PluginRow, enabled_names, upsert_plugin}
use crm_multi_tenant_saas_ar.Admin.Tables.Enabled.{on-upsert_plugin}
use crm_multi_tenant_saas_ar.Admin.World.{
  World, Message, plugin_init, audit, send, send_quietly, and_then,
}
use crm_multi_tenant_saas_ar.Admin.Toggle.{
  announce, enable, disable, enable_checked, disable_checked, toggle_found, toggle_plugin,
  is_first_enable,
}

abbrev pub catalogue : Index
catalogue = index_of built_in_manifests

module _ (redis : Redis Cached) (accepts : Message → Bool) where
  open redis use {Store}

  announce-db :
      (id plugin action : String) (w : World Store)
      → (announce redis accepts id plugin action w).db ≡ w.db
  unfolding announce send_quietly
  announce-db id plugin action w = ground (arith)

  send-db : (m : Message) (w : World Store) → (send accepts m w).0.db ≡ w.db
  unfolding send
  send-db m w = ground arith

  -- Whether or not the job is taken, the row is written.
  enable-plugins :
      (id plugin : String) (w : World Store)
      → (enable redis accepts id plugin w).0.db.plugins ≡ upsert_plugin id plugin true w.db.plugins
  unfolding enable announce send send_quietly and_then
  enable-plugins id plugin w = elim (Bool-cases (is_first_enable id plugin w.db.plugins)) [
    | inl e ↦ elim (Bool-cases (accepts (plugin_init id plugin))) [
      | inl a ↦ elim (Bool-cases (accepts (audit id "plugin.enabled" plugin))) [
        | inl b ↦ rw (e, a, b) refl
        | inr b ↦ rw (e, a, b) refl
      ]
      | inr a ↦ rw (e, a) refl
    ]
    | inr e ↦ elim (Bool-cases (accepts (audit id "plugin.enabled" plugin))) [
      | inl b ↦ rw (e, b) refl
      | inr b ↦ rw (e, b) refl
    ]
  ]

  disable-plugins :
      (id plugin : String) (w : World Store)
      → (disable redis accepts id plugin w).0.db.plugins
        ≡ upsert_plugin id plugin false w.db.plugins
  unfolding disable announce send_quietly
  disable-plugins id plugin w = elim (Bool-cases (accepts (audit id "plugin.disabled" plugin))) [
    | inl b ↦ rw b refl
    | inr b ↦ rw b refl
  ]

  -- The rows after a call, by what the call was and whether its check let it pass.
  data Rows (id plugin : String) (b : Bool) (rows after : List PluginRow) : Type 0 where
    kept : after ≡ rows → Rows id plugin b rows after
    enabled :
        b ≡ true
        → get_missing_deps plugin (enabled_names id rows) catalogue ≡ []
        → after ≡ upsert_plugin id plugin true rows
        → Rows id plugin b rows after
    disabled :
        b ≡ false
        → get_blocking_dependents plugin (enabled_names id rows) catalogue ≡ []
        → after ≡ upsert_plugin id plugin false rows
        → Rows id plugin b rows after

  Rows-enable_checked :
      (id plugin : String) (missing : List String) (w : World Store)
      → get_missing_deps plugin (enabled_names id w.db.plugins) catalogue ≡ missing
      → Rows id plugin true w.db.plugins
          (enable_checked redis accepts id plugin missing w).0.db.plugins
  unfolding enable_checked
  Rows-enable_checked id plugin [] w e = enabled refl e (enable-plugins id plugin w)
  Rows-enable_checked id plugin (p ∷ ps) w e = kept refl

  Rows-disable_checked :
      (id plugin : String) (blocking : List String) (w : World Store)
      → get_blocking_dependents plugin (enabled_names id w.db.plugins) catalogue ≡ blocking
      → Rows id plugin false w.db.plugins
          (disable_checked redis accepts id plugin blocking w).0.db.plugins
  unfolding disable_checked
  Rows-disable_checked id plugin [] w e = disabled refl e (disable-plugins id plugin w)
  Rows-disable_checked id plugin (p ∷ ps) w e = kept refl

  Rows-toggle_found :
      (found : Option PluginManifest) (id plugin : String) (b : Bool) (w : World Store)
      → Rows id plugin b w.db.plugins (toggle_found redis accepts found id plugin b w).0.db.plugins
  unfolding toggle_found
  Rows-toggle_found none id plugin b w = kept refl
  Rows-toggle_found (some _) id plugin true w = Rows-enable_checked id plugin _ w refl
  Rows-toggle_found (some _) id plugin false w = Rows-disable_checked id plugin _ w refl

  Rows-toggle_plugin :
      (id plugin : String) (b : Bool) (w : World Store)
      → Rows id plugin b w.db.plugins (toggle_plugin redis accepts id plugin b w).0.db.plugins
  unfolding toggle_plugin
  Rows-toggle_plugin id plugin b w =
      Rows-toggle_found (find (λ m. m.name == plugin) built_in_manifests) id plugin b w

  -- `togglePlugin` never breaks the dependencies of any tenant: if every dependency of every enabled
  -- plugin is enabled before the call, then also after it, whatever it answers, whatever brokers are
  -- down, and for every tenant.
  pub toggle_plugin-Closed :
      (id plugin tenant : String) (b : Bool) (w : World Store)
      → Closed catalogue (enabled_names tenant w.db.plugins)
      → Closed catalogue
          (enabled_names tenant (toggle_plugin redis accepts id plugin b w).0.db.plugins)
  toggle_plugin-Closed id plugin tenant b w closed =
      let after = (toggle_plugin redis accepts id plugin b w).0.db.plugins in
      let before = enabled_names tenant w.db.plugins in
      elim (Rows-toggle_plugin id plugin b w) [
        | kept e ↦ rw e closed
        | enabled _ check e ↦ elim (text_cases id tenant) [
          | inl same ↦ Closed-enable plugin before _ catalogue closed (rw (← same) check) (λ j.
              rw (e, on-upsert_plugin id plugin tenant j true w.db.plugins)
                (ground (arith, eq_iff id tenant)))
          | inr other ↦
              Closed-same before _ catalogue closed
                (λ j. rw (e, on-upsert_plugin id plugin tenant j true w.db.plugins) (ground arith))
        ]
        | disabled _ check e ↦ elim (text_cases id tenant) [
          | inl same ↦
              Closed-disable plugin before _ catalogue (Named-index_of built_in_manifests) closed
                (rw (← same) check)
                (λ j.
                  rw (e, on-upsert_plugin id plugin tenant j false w.db.plugins)
                    (ground (arith, eq_iff id tenant)))
          | inr other ↦
              Closed-same before _ catalogue closed
                (λ j. rw (e, on-upsert_plugin id plugin tenant j false w.db.plugins) (ground arith))
        ]
      ]
