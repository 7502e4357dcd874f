-- ===== src/Admin/Tenants/Update.antt =====
-- Changes of a tenant: its plan with its plugins, and its status.
use crm_multi_tenant_saas_ar.Prelude.{
  ◌≡◌, refl, ◌∙◌, Bool, true, false, not, ◌&&◌, ◌||◌, String, Option, none, some, ◌==◌, arith,
  eq_iff, includes, if◌then◌else◌, Bool-cases, Option-cases, inl, inr,
}
use crm_multi_tenant_saas_ar.Dal.Cache.{Redis}
use crm_multi_tenant_saas_ar.Gateway.Resolver.{Cached}
use crm_multi_tenant_saas_ar.Admin.Tables.{
  TenantRow, Database, is_valid_plan, tier_default_plugins, find_tenant, update_tenant, enable_all,
}
use crm_multi_tenant_saas_ar.Admin.Tables.Enabled.{on, on-enable_all, on-disable_any}
use crm_multi_tenant_saas_ar.Admin.World.{
  World, Message, config_reload, cache_invalidate, send, and_then, Answer, ok, failed,
}
use crm_multi_tenant_saas_ar.Admin.Tenants.Offboard.{find_tenant-update_tenant, find_tenant-id}
use crm_multi_tenant_saas_ar.Admin.Tenants.{
  UpdateInput, TenantView, given, is_empty, is_bad_plan, without, set_clauses, plugin_delta,
  changed_plan, update_db, enqueue_vip, after_commit, updated_view, update_changed, update_found,
  update_row, update, set_status, set_tier, set_name,
}

pub on-plugin_delta :
    (id current plan tenant j : String) (db : Database)
    → on tenant j (plugin_delta id current plan db).plugins ≡ (
        if id == tenant
        then not (includes j (without (tier_default_plugins current) (tier_default_plugins plan)))
          && (includes j (without (tier_default_plugins plan) (tier_default_plugins current))
              || on tenant j db.plugins)
        else on tenant j db.plugins)
unfolding plugin_delta
on-plugin_delta id current plan tenant j db =
    let added = without (tier_default_plugins plan) (tier_default_plugins current) in
    let gone = without (tier_default_plugins current) (tier_default_plugins plan) in
    rw
      (
        on-disable_any id tenant j gone (enable_all id added db.plugins),
        on-enable_all id tenant j added db.plugins,
      )
      (elim (Bool-cases (id == tenant)) [ inl e ↦ rw e refl | inr e ↦ rw e refl ])

set_status-id :
    (b : Bool) (status : Option String) (t : TenantRow) → (set_status b status t).id ≡ t.id
set_status-id true status t = refl
set_status-id false none t = refl
set_status-id false (some s) t = refl

set_tier-id : (plan : Option String) (t : TenantRow) → (set_tier plan t).id ≡ t.id
set_tier-id none t = refl
set_tier-id (some plan) t = refl

set_name-id : (name : Option String) (t : TenantRow) → (set_name name t).id ≡ t.id
set_name-id none t = refl
set_name-id (some name) t = refl

set_clauses-id :
    (input : UpdateInput) (current : String) (t : TenantRow)
    → (set_clauses input current t).id ≡ t.id
unfolding set_clauses
set_clauses-id input current t =
    set_status-id _ (given input.status) _
    ∙ set_tier-id (given input.plan) _
    ∙ set_name-id (given input.name) t

-- The row after the transaction of an update is the one with the SET clauses applied.
pub find_tenant-update_db :
    (id : String) (input : UpdateInput) (db : Database) (row : TenantRow)
    → find_tenant id db ≡ some row
    → find_tenant id (update_db id input row.tier db) ≡ some (set_clauses input row.tier row)
unfolding update_db plugin_delta find_tenant update_tenant
find_tenant-update_db id input db row found =
    let own = find_tenant-id id db row found in
    let moved =
      find_tenant-update_tenant id id (set_clauses input row.tier) db
        (set_clauses-id input row.tier) in
    let clauses : find_tenant id (update_tenant id (set_clauses input row.tier) db)
        ≡ some (set_clauses input row.tier row) =
      ground (arith, moved, own, eq_iff row.id id) in
    elim (Option-cases (changed_plan (given input.plan) row.tier)) [
      | inl e ↦ rw (update_db, e) clauses
      | inr (plan, e) ↦ rw (update_db, e) clauses
    ]

module _ (redis : Redis Cached) (accepts : Message → Bool) where
  open redis use {Store}

  send-db : (m : Message) (w : World Store) → (send accepts m w).0.db ≡ w.db
  unfolding send
  send-db m w = ground arith

  enqueue_vip-db :
      (id : String) (sub : Option String) (current plan : String) (w : World Store)
      → (enqueue_vip redis accepts id sub current plan w).0.db ≡ w.db
  unfolding enqueue_vip
  enqueue_vip-db id sub current plan w = elim (Bool-cases (plan == "vip")) [
    | inl e ↦ rw e (send-db _ w)
    | inr e ↦ elim (Bool-cases (current == "vip")) [
      | inl d ↦ rw (e, d) (send-db _ w)
      | inr d ↦ rw (e, d) refl
    ]
  ]

  after_commit-db :
      (id : String) (sub : Option String) (current plan : String) (w : World Store)
      → (after_commit redis accepts id sub current plan w).0.db ≡ w.db
  unfolding after_commit send and_then
  after_commit-db id sub current plan w = elim (Bool-cases (accepts (config_reload id plan))) [
    | inl a ↦ elim (Bool-cases (accepts (cache_invalidate id))) [
      | inl b ↦ rw (a, b) (enqueue_vip-db id sub current plan _)
      | inr b ↦ rw (a, b) refl
    ]
    | inr a ↦ rw a refl
  ]

  update_changed-db :
      (changed : Option String) (id : String) (row : TenantRow) (view : TenantView)
      (w : World Store)
      → (update_changed redis accepts changed id row view w).0.db ≡ w.db
  unfolding update_changed and_then
  update_changed-db none id row view w = refl
  update_changed-db (some plan) id row view w =
      go (after_commit redis accepts id row.subdomain row.tier plan w)
        (after_commit-db id row.subdomain row.tier plan w)
    where
      go :
          (r : World Store × Answer Unit)
          → r.0.db ≡ w.db
          → (and_then r (λ _ w'. (w', ok view))).0.db ≡ w.db
      go (w', ok _) e = e
      go (w', failed _) e = e

  -- What the tables are after an update that names at least one field, whatever brokers are down.
  pub update-db :
      (id : String) (input : UpdateInput) (row : TenantRow) (w : World Store)
      → find_tenant id w.db ≡ some row
      → is_bad_plan (given input.plan) ≡ false
      → is_empty input ≡ false
      → (update redis accepts id input w).0.db ≡ update_db id input row.tier w.db
  unfolding update update_row update_found
  update-db id input row w found good some_field =
      rw (good, found, update_row, update_found, some_field)
        (update_changed-db (changed_plan (given input.plan) row.tier) id row
          (updated_view redis accepts id input row w.db)
          (record w { db = update_db id input row.tier w.db }))

  -- A change of plan switches the plugins of this tenant only: those that the new plan has by
  -- default and the old one has not are enabled, those of the old one that the new one has not are
  -- disabled, and the others stay, whatever brokers are down.
  pub update-plugins :
      (id plan tenant j : String) (input : UpdateInput) (row : TenantRow) (w : World Store)
      → find_tenant id w.db ≡ some row
      → given input.plan ≡ some plan
      → is_valid_plan plan ≡ true
      → (plan == row.tier) ≡ false
      → on tenant j (update redis accepts id input w).0.db.plugins ≡ (
          if id == tenant
          then not
              (includes j (without (tier_default_plugins row.tier) (tier_default_plugins plan)))
            && (includes j (without (tier_default_plugins plan) (tier_default_plugins row.tier))
                || on tenant j w.db.plugins)
          else on tenant j w.db.plugins)
  unfolding update_db update_tenant
  update-plugins id plan tenant j input row w found named valid differs =
      let good : is_bad_plan (given input.plan) ≡ false = rw named (rw valid refl) in
      let some_field : is_empty input ≡ false = ground arith in
      let stored : update_db id input row.tier w.db
          ≡ plugin_delta id row.tier plan (update_tenant id (set_clauses input row.tier) w.db) =
        rw (update_db, named, differs) refl in
      rw (update-db id input row w found good some_field, stored)
        (on-plugin_delta id row.tier plan tenant j
          (update_tenant id (set_clauses input row.tier) w.db))
