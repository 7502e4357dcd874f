-- ===== src/Admin/Tenants/Vip.antt =====
-- Upgrades to the tier 'vip', and what a change leaves in the cache.
use crm_multi_tenant_saas_ar.Prelude.{
  ◌≡◌, refl, ap, Bool, true, false, String, none, some, [], ◌∷◌, ◌++◌, ◌==◌, arith, eq_iff, eq_refl,
  Bool-cases, inl, inr,
}
use crm_multi_tenant_saas_ar.Prelude.Dict.{lookup, insert}
use crm_multi_tenant_saas_ar.Dal.Cache.{Redis, get_tenant_lookup}
use crm_multi_tenant_saas_ar.Gateway.Resolver.{
  Cached, Directory, Request, resolve, gate, tenant_identifier,
}
use crm_multi_tenant_saas_ar.Gateway.Resolver.Lookup.{resolve_cached}
use crm_multi_tenant_saas_ar.Plugins.Manifest.{automation_manifest}
use crm_multi_tenant_saas_ar.Plugins.Dependency.{index_of}
use crm_multi_tenant_saas_ar.Plugins.Dependency.Checks.{Closed}
use crm_multi_tenant_saas_ar.Admin.Tables.{
  TenantRow, is_valid_plan, tier_default_plugins, find_tenant, enabled_names,
}
use crm_multi_tenant_saas_ar.Admin.Tables.Enabled.{on}
use crm_multi_tenant_saas_ar.Admin.Toggle.Closure.{catalogue}
use crm_multi_tenant_saas_ar.Admin.World.{
  World, Message, config_reload, cache_invalidate, vip_migration, send, and_then, ok, failed,
  unreachable,
}
use crm_multi_tenant_saas_ar.Admin.Tenants.{
  UpdateInput, given, is_empty, is_bad_plan, slug_of, set_clauses, changed_plan, update_db,
  enqueue_vip, after_commit, update_changed, update_found, update_row, update, updated_view,
}
use crm_multi_tenant_saas_ar.Admin.Tenants.Update.{update-db, find_tenant-update_db, update-plugins}

-- The plan of an upgrade to 'vip' names a field, and is valid.
upgrade_plan :
    (input : UpdateInput)
    → given input.plan ≡ some "vip"
    → (is_bad_plan (given input.plan) ≡ false) × (is_empty input ≡ false)
unfolding is_valid_plan
upgrade_plan input named = (rw named refl, ground arith)

-- The row that an upgrade leaves: in the new tier, and closed for the migration.
upgraded :
    (input : UpdateInput) (row : TenantRow)
    → given input.plan ≡ some "vip"
    → (row.tier == "vip") ≡ false
    → ((set_clauses input row.tier row).status ≡ "migrating")
      × ((set_clauses input row.tier row).is_active ≡ false)
      × ((set_clauses input row.tier row).tier ≡ "vip")
unfolding set_clauses
upgraded input row named other = rw (set_clauses, named, other) (refl, refl, refl)

module _ (redis : Redis Cached) (accepts : Message → Bool) where
  open redis use {Store}

  -- The row that is found after an upgrade, whatever brokers are down.
  pub record Migrating (id : String) (w : World Store) : Type 0 where
    pub row : TenantRow
    pub found : find_tenant id w.db ≡ some row
    pub migrating : row.status ≡ "migrating"
    pub inactive : row.is_active ≡ false
    pub tier : row.tier ≡ "vip"

  Migrating-update :
      (id : String) (input : UpdateInput) (row : TenantRow) (w : World Store)
      → find_tenant id w.db ≡ some row
      → given input.plan ≡ some "vip"
      → (row.tier == "vip") ≡ false
      → Migrating id (update redis accepts id input w).0
  Migrating-update id input row w found named other =
      let (good, some_field) = upgrade_plan input named in
      let (status, inactive, tier) = upgraded input row named other in
      record {
        row = set_clauses input row.tier row;
        found =
            rw (update-db redis accepts id input row w found good some_field)
              (find_tenant-update_db id input w.db row found);
        migrating = status;
        inactive = inactive;
        tier = tier;
      }

  -- The call after its transaction.
  update-upgrade :
      (id : String) (input : UpdateInput) (row : TenantRow) (w : World Store)
      → find_tenant id w.db ≡ some row
      → given input.plan ≡ some "vip"
      → (row.tier == "vip") ≡ false
      → update redis accepts id input w
        ≡ and_then
            (after_commit redis accepts id row.subdomain row.tier "vip"
              (record w { db = update_db id input row.tier w.db }))
            (λ _ w'. (w', ok (updated_view redis accepts id input row w.db)))
  unfolding update update_row update_found update_changed
  update-upgrade id input row w found named other =
      let (good, some_field) = upgrade_plan input named in
      let differs : ("vip" == row.tier) ≡ false =
        ground (arith, eq_iff "vip" row.tier, eq_iff row.tier "vip") in
      let changed : changed_plan (given input.plan) row.tier ≡ some "vip" =
        rw (named, differs) refl in
      rw (good, found, update_row, update_found, some_field, changed) refl

  -- A change of plan to 'vip', with the brokers up: the tenant is closed as 'migrating', and the
  -- job that is to open it again is the last of the three messages sent.
  pub update-vip_migration :
      (id : String) (input : UpdateInput) (row : TenantRow) (w : World Store)
      → find_tenant id w.db ≡ some row
      → given input.plan ≡ some "vip"
      → (row.tier == "vip") ≡ false
      → ((m : Message) → accepts m ≡ true)
      → Migrating id (update redis accepts id input w).0
        × ((update redis accepts id input w).0.sent
            ≡ ((w.sent ++ config_reload id "vip" ∷ []) ++ cache_invalidate id ∷ [])
              ++ vip_migration id (slug_of id row.subdomain) row.tier ∷ [])
        × ((update redis accepts id input w).0.slots ≡ w.slots)
  unfolding after_commit enqueue_vip send and_then
  update-vip_migration id input row w found named other up = (
    Migrating-update id input row w found named other,
    rw
        (
          update-upgrade id input row w found named other,
          after_commit,
          up (config_reload id "vip"),
          up (cache_invalidate id),
          enqueue_vip,
          up (vip_migration id (slug_of id row.subdomain) row.tier),
        )
        refl,
    rw
        (
          update-upgrade id input row w found named other,
          after_commit,
          up (config_reload id "vip"),
          up (cache_invalidate id),
          enqueue_vip,
          up (vip_migration id (slug_of id row.subdomain) row.tier),
        )
        refl,
  )

  -- If Redis does not take the first message, then an upgrade to 'vip' fails, but its transaction
  -- stays: the tenant is closed as 'migrating', and no job is there that would open it again.
  pub update-vip_stuck :
      (id : String) (input : UpdateInput) (row : TenantRow) (w : World Store)
      → find_tenant id w.db ≡ some row
      → given input.plan ≡ some "vip"
      → (row.tier == "vip") ≡ false
      → accepts (config_reload id "vip") ≡ false
      → ((update redis accepts id input w).1 ≡ failed unreachable)
        × Migrating id (update redis accepts id input w).0
        × ((update redis accepts id input w).0.sent ≡ w.sent)
  unfolding after_commit send and_then
  update-vip_stuck id input row w found named other down = (
    rw (update-upgrade id input row w found named other, after_commit, down) refl,
    Migrating-update id input row w found named other,
    rw (update-upgrade id input row w found named other, after_commit, down) refl,
  )

  -- A change without a new plan leaves the cache as it is: while an object of the tenant is cached
  -- under the identifier, every request but a preflight is judged by that object, so a tenant that
  -- was cached as active is served on after its suspension.
  pub update-resolve_cached :
      (dir : Directory) (id identifier : String) (input : UpdateInput) (row : TenantRow)
      (w : World Store) (req : Request) (cached : Cached)
      → find_tenant id w.db ≡ some row
      → given input.plan ≡ none
      → (req.method == "OPTIONS") ≡ false
      → tenant_identifier req ≡ some identifier
      → (identifier == "") ≡ false
      → get_tenant_lookup redis identifier w.cache ≡ some cached
      → (resolve redis dir req (update redis accepts id input w).0.cache).0
        ≡ gate req.method (some cached)
  unfolding update update_row update_found update_changed
  update-resolve_cached dir id identifier input row w req cached found no_plan method named ne hit =
      let no_change : changed_plan (given input.plan) row.tier ≡ none = rw no_plan refl in
      let kept : (update redis accepts id input w).0.cache ≡ w.cache =
        elim (Bool-cases (is_empty input)) [
          | inl e ↦ rw (no_plan, found, update_row, update_found, e) refl
          | inr e ↦ rw (no_plan, found, update_row, update_found, e, no_change) refl
        ] in
      rw kept
        (ap (λ p. p.0) (resolve_cached redis dir req identifier w.cache cached method named ne hit))

  -- A change of plan from 'premium' to 'basic' takes away 'analytics' from a tenant that has
  -- 'automation' enabled, which needs it: afterwards not every dependency is enabled.
  pub update-breaks_closure :
      (id : String) (input : UpdateInput) (row : TenantRow) (w : World Store)
      → find_tenant id w.db ≡ some row
      → row.tier ≡ "premium"
      → given input.plan ≡ some "basic"
      → on id "automation" w.db.plugins ≡ true
      → ¬ Closed catalogue (enabled_names id (update redis accepts id input w).0.db.plugins)
  unfolding is_valid_plan tier_default_plugins index_of insert lookup
  update-breaks_closure id input row w found tier named automated = λ closed.
      let differs : ("basic" == row.tier) ≡ false = rw tier refl in
      let kept : on id "automation" (update redis accepts id input w).0.db.plugins ≡ true =
        rw
          (
            update-plugins redis accepts id "basic" id "automation" input row w found named refl
                differs,
            eq_refl id,
            tier,
            automated,
          )
          refl in
      let lost : on id "analytics" (update redis accepts id input w).0.db.plugins ≡ false =
        rw
          (
            update-plugins redis accepts id "basic" id "analytics" input row w found named refl
                differs,
            eq_refl id,
            tier,
          )
          refl in
      let needs = closed "automation" automation_manifest refl kept in
      ground (arith, needs.1.0, lost)
