-- ===== src/Tests/PluginRuns.antt =====
-- Runs of the theorems on the plugins.
use crm_multi_tenant_saas_ar.Prelude.{ℕ, ◌+◌, ◌≡◌, ◌≢◌, refl, none, some, List, [], ◌∷◌, ◌++◌, ◌<>◌}
use crm_multi_tenant_saas_ar.Prelude.Dict.{Dict, lookup, insert}
use crm_multi_tenant_saas_ar.Plugins.Manifest.{
  HookType, PluginHookDef, built_in_manifests, automation_manifest,
}
use crm_multi_tenant_saas_ar.Plugins.Dependency.{
  Index, circular_dependency, cycle_of, validate_graph, index_of, get_missing_deps,
}
use crm_multi_tenant_saas_ar.Plugins.Dependency.Depth.{validate_graph-ne-none}
use crm_multi_tenant_saas_ar.Plugins.Hooks.{HookHandler, HookEntry, type_text, entries_of, register}
use crm_multi_tenant_saas_ar.Plugins.Hooks.Order.{Sorted, at, register-Sorted}

built_in_valid : validate_graph 6 (index_of built_in_manifests) ≡ some []
unfolding validate_graph index_of insert lookup
built_in_valid = refl

-- Two plugins that need each other.
abbrev cyclic : Index
cyclic =
    ("left", record automation_manifest { name = "left"; dependencies = "right" ∷ [] })
    ∷ ("right", record automation_manifest { name = "right"; dependencies = "left" ∷ [] })
    ∷ []

cycle_found :
    validate_graph 2 cyclic
    ≡ some (circular_dependency "right" ("left" ∷ "right" ∷ "left" ∷ []) ∷ [])
unfolding validate_graph cycle_of lookup insert
cycle_found = refl

validate_graph-ne-none_example : validate_graph 2 cyclic ≢ none
validate_graph-ne-none_example = validate_graph-ne-none cyclic

automation_needs :
    get_missing_deps "automation" ("customer-data" ∷ []) (index_of built_in_manifests)
    ≡ "analytics" ∷ []
unfolding get_missing_deps index_of insert lookup
automation_needs = refl

-- Handlers that count their runs.
abbrev counting : ℕ → HookHandler ℕ ℕ
counting n value w = some (value + n, w + 1)

abbrev after_create : ℕ → PluginHookDef
after_create priority = record {
  event = "customer.create";
  type = HookType.after;
  priority = priority;
}

abbrev care : HookEntry ℕ ℕ
care = record { plugin_name = "customer-care"; def = after_create 10; handler = counting 1 }

abbrev automation : HookEntry ℕ ℕ
automation = record { plugin_name = "automation"; def = after_create 5; handler = counting 2 }

abbrev hooks : Dict (List (HookEntry ℕ ℕ))
hooks = ("after:customer.create", care ∷ []) ∷ []

register-Sorted_example :
    (after : List (HookEntry ℕ ℕ)) × (lookup
        (type_text HookType.after <> ":" <> "customer.create")
        (register "automation" (after_create 5) (counting 2) hooks)
      ≡ some after)
    × Sorted after
    × ((p : ℕ)
        → at p after
          ≡ at p (entries_of (lookup (type_text HookType.after <> ":" <> "customer.create") hooks))
            ++ at p (automation ∷ []))
register-Sorted_example = register-Sorted "automation" (after_create 5) (counting 2) hooks
