-- ===== src/Admin/Downgrade/Promise.antt =====
-- The preview of a downgrade against what its confirmation does.
use crm_multi_tenant_saas_ar.Prelude.{
  ◌≡◌, ◌≢◌, refl, sym, ap, ◌∙◌, Bool, true, false, not, ◌&&◌, String, none, some, ◌==◌, arith,
  eq_iff, includes, Option-cases, text_cases, inl, inr,
}
use crm_multi_tenant_saas_ar.Dal.Cache.{Redis}
use crm_multi_tenant_saas_ar.Gateway.Resolver.{Cached}
use crm_multi_tenant_saas_ar.Admin.Tables.{
  TenantRow, Database, is_valid_plan, tier_default_plugins, tier_order, find_tenant,
}
use crm_multi_tenant_saas_ar.Admin.Tables.Enabled.{on}
use crm_multi_tenant_saas_ar.Admin.World.{World, Message, Answer, ok, failed}
use crm_multi_tenant_saas_ar.Admin.Tenants.{UpdateInput, find_one, row_to_tenant, update, without}
use crm_multi_tenant_saas_ar.Admin.Tenants.Update.{update-plugins}
use crm_multi_tenant_saas_ar.Admin.Downgrade.{
  DowngradePreview, check_downgrade, not_below, is_some_rank, preview_of, with_preview,
  preview_downgrade, confirm_checked, confirm_downgrade,
}

true≢false : true ≢ false
true≢false = cc

ranked_valid :
    (tier : String)
    → is_some_rank (tier_order tier) ≡ true
    → (is_valid_plan tier ≡ true) × ((tier == "") ≡ false)
unfolding tier_order is_valid_plan
ranked_valid tier h = (
  ground (
    arith,
    eq_iff tier "basic",
    eq_iff "basic" tier,
    eq_iff tier "premium",
    eq_iff "premium" tier,
    eq_iff tier "enterprise",
    eq_iff "enterprise" tier,
    eq_iff tier "vip",
    eq_iff "vip" tier,
  ),
  elim (text_cases tier "") [
    | inl blank ↦ absurd (true≢false (sym h ∙ ap (λ t. is_some_rank (tier_order t)) blank))
    | inr other ↦ other
  ],
)

not_below-ne :
    (new current : String)
    → is_some_rank (tier_order new) ≡ true
    → not_below new current ≡ false
    → (new == current) ≡ false
unfolding not_below
not_below-ne new current ranked h = elim (text_cases new current) [
  | inl same ↦ elim (Option-cases (tier_order current)) [
    | inl e ↦ absurd (ground (arith, ap tier_order same))
    | inr (r, e) ↦ absurd (ground (arith, ap tier_order same))
  ]
  | inr other ↦ other
]

-- What the checks let pass: a tenant whose plan is above the new one, neither being 'vip'.
record Below (id new_plan current : String) (db : Database) : Type 0 where
  row : TenantRow
  found : find_tenant id db ≡ some row
  tier : row.tier ≡ current
  ranked : is_some_rank (tier_order new_plan) ≡ true
  below : not_below new_plan current ≡ false

check_downgrade-Below :
    (id new_plan current : String) (db : Database)
    → check_downgrade id new_plan db ≡ ok current
    → Below id new_plan current db
unfolding check_downgrade find_one row_to_tenant
check_downgrade-Below id new_plan current db h = elim (Option-cases (find_tenant id db)) [
  | inl e ↦ absurd (ground arith)
  | inr (row, e) ↦ record {
    row = row;
    found = e;
    tier = ground arith;
    ranked = ground arith;
    below = ground arith;
  }
]

-- A downgrade only removes default plugins.
nothing_added :
    (new_plan current j : String)
    → not_below new_plan current ≡ false
    → includes j (without (tier_default_plugins new_plan) (tier_default_plugins current)) ≡ false
unfolding not_below tier_order tier_default_plugins
nothing_added new_plan current j h = ground arith

module _ (redis : Redis Cached) (accepts : Message → Bool) where
  open redis use {Store}

  -- A confirmed downgrade does what its preview has promised: both pass the same checks, and then
  -- exactly the plugins that the preview lists are disabled for the tenant; none is enabled, and no
  -- other tenant's plugins are touched.
  pub confirm-preview :
      (id new_plan tenant j : String) (w : World Store) (preview : DowngradePreview)
      → preview_downgrade id new_plan w.db ≡ ok preview
      → on tenant j (confirm_downgrade redis accepts id new_plan w).0.db.plugins
        ≡ (not (id == tenant && includes j preview.plugins_to_disable) && on tenant j w.db.plugins)
  unfolding preview_downgrade with_preview confirm_downgrade confirm_checked
  confirm-preview id new_plan tenant j w preview h = go (check_downgrade id new_plan w.db) refl
    where
      go :
          (a : Answer String)
          → check_downgrade id new_plan w.db ≡ a
          → on tenant j (confirm_downgrade redis accepts id new_plan w).0.db.plugins ≡ (
              not (id == tenant && includes j preview.plugins_to_disable)
              && on tenant j w.db.plugins)
      go (failed e) checked = absurd (ground arith)
      go (ok current) checked =
          let b = check_downgrade-Below id new_plan current w.db checked in
          let input : UpdateInput = record { name = none; status = none; plan = some new_plan } in
          let result : confirm_downgrade redis accepts id new_plan w
              ≡ update redis accepts id input w =
            ap (λ a. confirm_checked redis accepts id new_plan a w) checked in
          let promised : preview_of current new_plan ≡ preview =
            ground (arith, ap (λ a. with_preview new_plan a) checked) in
          let (valid, named) = ranked_valid new_plan b.ranked in
          let plugins =
            update-plugins redis accepts id new_plan tenant j input b.row w b.found (rw named refl)
              valid (rw b.tier (not_below-ne new_plan current b.ranked b.below)) in
          rw (result, plugins, b.tier, ← promised)
            (ground (arith, nothing_added new_plan current j b.below))
