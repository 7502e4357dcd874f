-- ===== src/Plugins/Dependency/Checks.antt =====
-- The two checks before a plugin is switched on or off keep every enabled plugin's needs enabled.
use crm_multi_tenant_saas_ar.Prelude.{
  ◌≡◌, refl, true, false, not, ◌&&◌, ◌||◌, String, some, List, [], ◌∷◌, ◌==◌, arith, eq_iff, map,
  filter, includes, All, Bool-cases, inl, inr,
}
use crm_multi_tenant_saas_ar.Prelude.Dict.{lookup, insert}
use crm_multi_tenant_saas_ar.Plugins.Manifest.{PluginManifest}
use crm_multi_tenant_saas_ar.Plugins.Dependency.{
  Index, index_from, index_of, values, get_missing_deps, get_blocking_dependents,
}

-- Every dependency of an enabled plugin is enabled.
abbrev pub Closed : Index → List String → Type 0
Closed index enabled =
    (name : String) (m : PluginManifest)
    → lookup name index ≡ some m
    → includes name enabled ≡ true
    → All (λ dep. includes dep enabled ≡ true) m.dependencies

-- Each manifest stands under its own name.
abbrev pub Named : Index → Type 0
Named [] = Unit
Named ((name, m) ∷ index) = (m.name ≡ name) × Named index

Named-insert : (m : PluginManifest) (index : Index) → Named index → Named (insert m.name m index)
unfolding insert
Named-insert m [] named = (refl, tt)
Named-insert m ((name, n) ∷ index) named = elim (Bool-cases (name == m.name)) [
  | inl e ↦ rw e (refl, named.1)
  | inr e ↦ rw e (named.0, Named-insert m index named.1)
]

Named-index_from :
    (index : Index) (ms : List PluginManifest) → Named index → Named (index_from index ms)
unfolding index_from
Named-index_from index [] named = named
Named-index_from index (m ∷ ms) named =
    Named-index_from (insert m.name m index) ms (Named-insert m index named)

pub Named-index_of : (manifests : List PluginManifest) → Named (index_of manifests)
unfolding index_of
Named-index_of manifests = Named-index_from [] manifests tt

-- Nothing is missing when the filter keeps nothing.
none_missing :
    (deps enabled : List String)
    → filter (λ dep. not (includes dep enabled)) deps ≡ []
    → All (λ dep. includes dep enabled ≡ true) deps
none_missing [] enabled h = tt
none_missing (d ∷ deps) enabled h =
    let ih = none_missing deps enabled in
    elim (Bool-cases (includes d enabled)) [
      | inl e ↦ (e, ih (ground arith))
      | inr e ↦ absurd (ground arith)
    ]

All-grow :
    (deps enabled after : List String)
    → ((j : String) → includes j enabled ≡ true → includes j after ≡ true)
    → All (λ dep. includes dep enabled ≡ true) deps
    → All (λ dep. includes dep after ≡ true) deps
All-grow [] enabled after grow h = tt
All-grow (d ∷ deps) enabled after grow h = (grow d h.0, All-grow deps enabled after grow h.1)

-- A registered plugin with no missing dependency may be added.
pub Closed-enable :
    (plugin : String) (enabled after : List String) (index : Index)
    → Closed index enabled
    → get_missing_deps plugin enabled index ≡ []
    → ((j : String) → includes j after ≡ (plugin == j || includes j enabled))
    → Closed index after
unfolding get_missing_deps
Closed-enable plugin enabled after index closed missing is name m found on =
    let grow : (j : String) → includes j enabled ≡ true → includes j after ≡ true =
      λ j h. ground (arith, is j) in
    elim (Bool-cases (plugin == name)) [
      | inl same ↦
          All-grow m.dependencies enabled after grow
            (none_missing m.dependencies enabled (ground (arith, eq_iff plugin name)))
      | inr other ↦
          All-grow m.dependencies enabled after grow (closed name m found (ground (arith, is name)))
    ]

-- Who needs the plugin and is enabled is listed, by name.
not_blocking :
    (plugin : String) (enabled : List String) (index : Index) (name : String) (m : PluginManifest)
    → Named index
    → map
        (λ m. m.name)
        (filter (λ m. includes plugin m.dependencies && includes m.name enabled) (values index))
      ≡ []
    → lookup name index ≡ some m
    → includes name enabled ≡ true
    → includes plugin m.dependencies ≡ false
unfolding lookup
not_blocking plugin enabled [] name m named h found on = cc
not_blocking plugin enabled ((k, n) ∷ index) name m named h found on =
    let ih = not_blocking plugin enabled index name m named.1 in
    elim (Bool-cases (includes plugin n.dependencies && includes n.name enabled)) [
      | inl e ↦ absurd (ground arith)
      | inr e ↦ ground (arith, ih, eq_iff k name, named.0)
    ]

All-keep :
    (plugin : String) (deps enabled after : List String)
    → ((j : String) → includes j after ≡ (not (plugin == j) && includes j enabled))
    → includes plugin deps ≡ false
    → All (λ dep. includes dep enabled ≡ true) deps
    → All (λ dep. includes dep after ≡ true) deps
All-keep plugin [] enabled after is absent h = tt
All-keep plugin (d ∷ deps) enabled after is absent h = (
  ground (arith, is d, eq_iff plugin d, eq_iff d plugin),
  All-keep plugin deps enabled after is (ground arith) h.1,
)

-- A plugin that no enabled plugin needs may be taken away.
pub Closed-disable :
    (plugin : String) (enabled after : List String) (index : Index)
    → Named index
    → Closed index enabled
    → get_blocking_dependents plugin enabled index ≡ []
    → ((j : String) → includes j after ≡ (not (plugin == j) && includes j enabled))
    → Closed index after
unfolding get_blocking_dependents
Closed-disable plugin enabled after index named closed blocking is name m found on =
    let was : includes name enabled ≡ true = ground (arith, is name) in
    All-keep plugin m.dependencies enabled after is
      (not_blocking plugin enabled index name m named blocking found was) (closed name m found was)

-- Only which plugins are enabled counts, not their order.
pub Closed-same :
    (enabled after : List String) (index : Index)
    → Closed index enabled
    → ((j : String) → includes j after ≡ includes j enabled)
    → Closed index after
Closed-same enabled after index closed is name m found on =
    All-grow m.dependencies enabled after (λ j h. ground (arith, is j))
      (closed name m found (ground (arith, is name)))
