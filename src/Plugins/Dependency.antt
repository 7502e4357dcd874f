-- ===== src/Plugins/Dependency.antt =====
-- backend/src/plugins/deps/plugin-dependency.service.ts: which plugins need which.
pub mod Checks
pub mod Depth
use crm_multi_tenant_saas_ar.Prelude.{
  ℕ, zero, suc, Bool, true, false, not, ◌&&◌, String, Option, none, some, List, [], ◌∷◌, ◌++◌, map,
  filter, includes, length, ◌==◌, if◌then◌else◌,
}
use crm_multi_tenant_saas_ar.Prelude.Dict.{Dict, lookup, insert, has}
use crm_multi_tenant_saas_ar.Plugins.Manifest.{PluginManifest}

-- The map `index`, by name.
abbrev pub Index : Type 0
Index = Dict PluginManifest

-- The constructor: `new Map(manifests.map((m) => [m.name, m]))`
unfoldable pub index_from : Index → List PluginManifest → Index
index_from index [] = index
index_from index (m ∷ ms) = index_from (insert m.name m index) ms

unfoldable pub index_of : List PluginManifest → Index
unfolding index_from
index_of manifests = index_from [] manifests

unfoldable pub get_missing_deps : String → List String → Index → List String
get_missing_deps plugin_name enabled index = elim (lookup plugin_name index) [
  | none ↦ []
  | some manifest ↦ filter (λ dep. not (includes dep enabled)) manifest.dependencies
]

-- `[...this.index.values()]`
abbrev pub values : Index → List PluginManifest
values [] = []
values ((_, m) ∷ index) = m ∷ values index

unfoldable pub get_blocking_dependents : String → List String → Index → List String
get_blocking_dependents plugin_name enabled index =
    map (λ m. m.name)
      (filter (λ m. includes plugin_name m.dependencies && includes m.name enabled) (values index))

-- `GraphValidationIssue`: for a cycle, its names in order instead of the text built from them.
pub data GraphValidationIssue : Type 0 where
  missing_dependency : String → String → GraphValidationIssue
  circular_dependency : String → List String → GraphValidationIssue

-- Pass 1.
unfoldable pub missing_of : String → List String → Index → List GraphValidationIssue
missing_of name [] index = []
missing_of name (dep ∷ deps) index =
    let rest = missing_of name deps index in
    if has dep index then rest else missing_dependency name dep ∷ rest

unfoldable pub missing_pass : Index → Index → List GraphValidationIssue
unfolding missing_of
missing_pass [] index = []
missing_pass ((name, m) ∷ more) index =
    missing_of name m.dependencies index ++ missing_pass more index

pub data Color : Type 0 where
  white gray black : Color

-- The colours and the issues that the search pushes.
pub record Search : Type 0 where
  pub color : Dict Color
  pub issues : List GraphValidationIssue

-- `[...currentPath.slice(currentPath.indexOf(dep)), dep]`, and without the slice where it is not
-- on the path.
abbrev pub from_first : String → List String → Option (List String)
from_first dep [] = none
from_first dep (x ∷ xs) = let rest = from_first dep xs in if x == dep then some (x ∷ xs) else rest

unfoldable pub cycle_of : String → List String → List String
cycle_of dep path = elim (from_first dep path) [
  | none ↦ path ++ dep ∷ []
  | some tail ↦ tail ++ dep ∷ []
]

-- The loop over the dependencies of a node, with the recursive call passed in.
unfoldable pub visit_deps :
    (String → List String → Search → Option Search)
    → Index
    → String
    → List String
    → List String
    → Search
    → Option Search
visit_deps dfs index node path [] s = some s
visit_deps dfs index node path (dep ∷ deps) s =
    let skip = visit_deps dfs index node path deps s in
    if not (has dep index) then skip else elim (lookup dep s.color) [
      | some gray ↦
          visit_deps dfs index node path deps
            (record s { issues = s.issues ++ circular_dependency node (cycle_of dep path) ∷ [] })
      | some white ↦ elim (dfs dep path s) [
        | none ↦ none
        | some s' ↦ visit_deps dfs index node path deps s'
      ]
      | _ ↦ skip
    ]

-- `dfs`; `none` where the fuel runs out.
unfoldable pub dfs : ℕ → Index → String → List String → Search → Option Search
unfolding visit_deps
dfs zero index node path s = none
dfs (suc fuel) index node path s =
    let grayed = record s { color = insert node gray s.color } in
    elim (lookup node index) [
      | none ↦ some grayed
      | some manifest ↦
          elim (visit_deps (dfs fuel index) index node (path ++ node ∷ []) manifest.dependencies
            grayed) [
              | none ↦ none
              | some s' ↦ some (record s' { color = insert node black s'.color })
            ]
    ]

abbrev pub is_white : Option Color → Bool
is_white (some white) = true
is_white _ = false

-- `for (const name of this.index.keys())`
unfoldable pub search_all : ℕ → Index → Index → Search → Option Search
unfolding dfs
search_all fuel index [] s = some s
search_all fuel index ((name, _) ∷ more) s =
    let skip = search_all fuel index more s in
    if is_white (lookup name s.color)
    then elim (dfs fuel index name [] s) [ none ↦ none | some s' ↦ search_all fuel index more s' ]
    else skip

abbrev pub all_white : Index → Dict Color
all_white [] = []
all_white ((name, _) ∷ index) = (name, white) ∷ all_white index

-- `validateGraph`, on fuel.
unfoldable pub validate_graph : ℕ → Index → Option (List GraphValidationIssue)
unfolding search_all missing_pass
validate_graph fuel index =
    elim (search_all fuel index index
      (record { color = all_white index; issues = missing_pass index index })) [
        | none ↦ none
        | some s ↦ some s.issues
      ]
