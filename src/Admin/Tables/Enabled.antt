-- ===== src/Admin/Tables/Enabled.antt =====
-- Which plugins a tenant has enabled after each statement on `tenant_plugins`.
use crm_multi_tenant_saas_ar.Prelude.{
  ◌≡◌, refl, Bool, true, false, not, ◌&&◌, ◌||◌, String, List, [], ◌∷◌, ◌==◌, arith, eq_iff, any,
  includes, if◌then◌else◌, Bool-cases, inl, inr,
}
use crm_multi_tenant_saas_ar.Admin.Tables.{
  PluginRow, plugin_of, enabled_names, set_rows, upsert_plugin, enable_all, disable_any,
  disable_all,
}

-- Whether the tenant has the plugin enabled.
abbrev pub on : String → String → List PluginRow → Bool
on id name rows = includes name (enabled_names id rows)

set_rows_none :
    (id name : String) (b : Bool) (rows : List PluginRow)
    → any (plugin_of id name) rows ≡ false
    → set_rows id name b rows ≡ rows
unfolding set_rows
set_rows_none id name b [] h = refl
set_rows_none id name b (r ∷ rows) h = let ih = set_rows_none id name b rows in ground (arith, ih)

on_none :
    (id name : String) (rows : List PluginRow)
    → any (plugin_of id name) rows ≡ false
    → on id name rows ≡ false
unfolding enabled_names
on_none id name [] h = refl
on_none id name (r ∷ rows) h = let ih = on_none id name rows in ground (arith, ih)

on-set_rows :
    (id name t j : String) (b : Bool) (rows : List PluginRow)
    → any (plugin_of id name) rows ≡ true
    → on t j (set_rows id name b rows) ≡ (if id == t && name == j then b else on t j rows)
unfolding enabled_names set_rows
on-set_rows id name t j b [] h = cc
on-set_rows id name t j b (r ∷ rows) h = elim (Bool-cases (any (plugin_of id name) rows)) [
  | inl e ↦ ground (
    arith,
    on-set_rows id name t j b rows e,
    eq_iff r.tenant_id id,
    eq_iff r.tenant_id t,
    eq_iff id t,
    eq_iff r.plugin_name name,
    eq_iff r.plugin_name j,
    eq_iff name j,
  )
  | inr e ↦ ground (
    arith,
    set_rows_none id name b rows e,
    on_none id name rows e,
    eq_iff r.tenant_id id,
    eq_iff r.tenant_id t,
    eq_iff id t,
    eq_iff r.plugin_name name,
    eq_iff r.plugin_name j,
    eq_iff name j,
  )
]

-- After an upsert exactly the one plugin of the one tenant is switched.
pub on-upsert_plugin :
    (id name t j : String) (b : Bool) (rows : List PluginRow)
    → on t j (upsert_plugin id name b rows) ≡ (if id == t && name == j then b else on t j rows)
unfolding upsert_plugin enabled_names
on-upsert_plugin id name t j b rows = elim (Bool-cases (any (plugin_of id name) rows)) [
  | inl e ↦ rw e (on-set_rows id name t j b rows e)
  | inr e ↦ ground (arith, on_none id name rows e, eq_iff id t, eq_iff name j)
]

pub on-enable_all :
    (id t j : String) (names : List String) (rows : List PluginRow)
    → on t j (enable_all id names rows) ≡ (id == t && includes j names || on t j rows)
unfolding enable_all
on-enable_all id t j [] rows = ground arith
on-enable_all id t j (name ∷ names) rows = ground (
  arith,
  on-enable_all id t j names (upsert_plugin id name true rows),
  on-upsert_plugin id name t j true rows,
)

pub on-disable_any :
    (id t j : String) (names : List String) (rows : List PluginRow)
    → on t j (disable_any id names rows) ≡ (not (id == t && includes j names) && on t j rows)
unfolding disable_any enabled_names
on-disable_any id t j names [] = ground arith
on-disable_any id t j names (r ∷ rows) = ground (
  arith,
  on-disable_any id t j names rows,
  eq_iff r.tenant_id id,
  eq_iff r.tenant_id t,
  eq_iff id t,
  eq_iff r.plugin_name j,
)

pub on-disable_all :
    (id t j : String) (rows : List PluginRow)
    → on t j (disable_all id rows) ≡ (not (id == t) && on t j rows)
unfolding disable_all enabled_names
on-disable_all id t j [] = ground arith
on-disable_all id t j (r ∷ rows) =
    ground
      (arith, on-disable_all id t j rows, eq_iff r.tenant_id id, eq_iff r.tenant_id t, eq_iff id t)
