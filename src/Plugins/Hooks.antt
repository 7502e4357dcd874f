-- ===== src/Plugins/Hooks.antt =====
-- backend/src/plugins/hooks/hook-registry.service.ts: what plugins run around an event.
pub mod Order
use crm_multi_tenant_saas_ar.Prelude.{
  ℕ, ◌≡◌, ◌≤◌, Bool, true, false, not, String, Option, none, some, List, [], ◌∷◌, ◌++◌, ◌<>◌,
  includes, leb, if◌then◌else◌,
}
use crm_multi_tenant_saas_ar.Prelude.Dict.{Dict, lookup, insert}
use crm_multi_tenant_saas_ar.Plugins.Manifest.{HookType, before, after, filter, PluginHookDef}

-- A handler changes the world `W` and answers with data; `none` where it throws.
abbrev pub HookHandler : Type 0 → Type 0 → Type 0
HookHandler W D = D → W → Option (D × W)

pub record HookEntry (W : Type 0) (D : Type 0) : Type 0 where
  pub plugin_name : String
  pub def : PluginHookDef
  pub handler : HookHandler W D

unfoldable pub type_text : HookType → String
type_text before = "before"
type_text after = "after"
type_text filter = "filter"

module _ {W : Type 0} {D : Type 0} where
  -- `entries.sort((a, b) => a.def.priority - b.def.priority)`, which is stable.
  unfoldable pub insert_sorted : HookEntry W D → List (HookEntry W D) → List (HookEntry W D)
  insert_sorted e [] = e ∷ []
  insert_sorted e (x ∷ xs) =
      let rest = insert_sorted e xs in
      if leb e.def.priority x.def.priority then e ∷ x ∷ xs else x ∷ rest

  unfoldable pub sort : List (HookEntry W D) → List (HookEntry W D)
  unfolding insert_sorted
  sort [] = []
  sort (e ∷ es) = insert_sorted e (sort es)

  abbrev pub entries_of : Option (List (HookEntry W D)) → List (HookEntry W D)
  entries_of none = []
  entries_of (some entries) = entries

  unfoldable pub register :
      String
      → PluginHookDef
      → HookHandler W D
      → Dict (List (HookEntry W D))
      → Dict (List (HookEntry W D))
  unfolding type_text sort
  register plugin_name def handler hooks =
      let key = type_text def.type <> ":" <> def.event in
      let entry : HookEntry W D = record {
        plugin_name = plugin_name;
        def = def;
        handler = handler;
      } in
      insert key (sort (entries_of (lookup key hooks) ++ entry ∷ [])) hooks

  -- `ctx.enabledPlugins && !ctx.enabledPlugins.includes(entry.pluginName)`
  unfoldable pub skips : Option (List String) → HookEntry W D → Bool
  skips none entry = false
  skips (some enabled) entry = not (includes entry.plugin_name enabled)

  -- The loop of `runBefore` and of `runAfter`: every handler is given the same data.
  unfoldable pub run_each : Option (List String) → D → List (HookEntry W D) → W → Option W
  unfolding skips
  run_each enabled value [] w = some w
  run_each enabled value (e ∷ es) w =
      let skip = run_each enabled value es w in
      if skips enabled e
      then skip
      else elim (e.handler value w) [ none ↦ none | some (_, w') ↦ run_each enabled value es w' ]

  -- The loop of `runFilter`: every handler is given what the one before has answered.
  unfoldable pub run_through : Option (List String) → D → List (HookEntry W D) → W → Option (D × W)
  unfolding skips
  run_through enabled value [] w = some (value, w)
  run_through enabled value (e ∷ es) w =
      let skip = run_through enabled value es w in
      if skips enabled e then skip else elim (e.handler value w) [
        | none ↦ none
        | some (value', w') ↦ run_through enabled value' es w'
      ]

  unfoldable pub run_before :
      String → Option (List String) → D → Dict (List (HookEntry W D)) → W → Option W
  unfolding run_each
  run_before event enabled value hooks w =
      run_each enabled value (entries_of (lookup ("before:" <> event) hooks)) w

  unfoldable pub run_after :
      String → Option (List String) → D → Dict (List (HookEntry W D)) → W → Option W
  unfolding run_each
  run_after event enabled value hooks w =
      run_each enabled value (entries_of (lookup ("after:" <> event) hooks)) w

  unfoldable pub run_filter :
      String → Option (List String) → D → Dict (List (HookEntry W D)) → W → Option (D × W)
  unfolding run_through
  run_filter event enabled value hooks w =
      run_through enabled value (entries_of (lookup ("filter:" <> event) hooks)) w
