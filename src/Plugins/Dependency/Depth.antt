-- ===== src/Plugins/Dependency/Depth.antt =====
-- The depth-first search of the plugin graph, and how deep it goes.
use crm_multi_tenant_saas_ar.Prelude.{
  ℕ, zero, suc, ◌+◌, ◌≡◌, ◌≢◌, ◌≤◌, refl, sym, ◌∙◌, Bool, true, false, String, Option, none, some,
  List, [], ◌∷◌, ◌++◌, ◌==◌, arith, leb, length, Bool-cases, Option-cases, inl, inr,
}
use crm_multi_tenant_saas_ar.Prelude.Dict.{Dict, lookup, insert, has}
use crm_multi_tenant_saas_ar.Plugins.Dependency.{
  Index, Color, white, gray, black, Search, cycle_of, circular_dependency, visit_deps, dfs,
  search_all, all_white, missing_pass, validate_graph,
}

abbrev one_if_white : Color → ℕ
one_if_white white = 1
one_if_white _ = 0

-- The plugins that the search has not entered.
abbrev whites : Dict Color → ℕ
whites [] = 0
whites ((_, c) ∷ color) = one_if_white c + whites color

whites-insert_gray :
    (node : String) (color : Dict Color)
    → lookup node color ≡ some white
    → suc (whites (insert node gray color)) ≡ whites color
unfolding lookup insert
whites-insert_gray node [] h = absurd (ground arith)
whites-insert_gray node ((name, white) ∷ color) h =
    let ih = whites-insert_gray node color in
    elim (Bool-cases (name == node)) [
      | inl e ↦ rw e (omega arith)
      | inr e ↦ let next = ih (sym (rw e refl) ∙ h) in rw e (omega (arith, next))
    ]
whites-insert_gray node ((name, gray) ∷ color) h =
    let ih = whites-insert_gray node color in
    elim (Bool-cases (name == node)) [
      | inl e ↦ absurd (ground arith)
      | inr e ↦ let next = ih (sym (rw e refl) ∙ h) in rw e (omega (arith, next))
    ]
whites-insert_gray node ((name, black) ∷ color) h =
    let ih = whites-insert_gray node color in
    elim (Bool-cases (name == node)) [
      | inl e ↦ absurd (ground arith)
      | inr e ↦ let next = ih (sym (rw e refl) ∙ h) in rw e (omega (arith, next))
    ]

whites-insert_black :
    (node : String) (color : Dict Color) → whites (insert node black color) ≤ whites color
unfolding insert
whites-insert_black node [] = omega arith
whites-insert_black node ((name, c) ∷ color) =
    let ih = whites-insert_black node color in
    elim (Bool-cases (name == node)) [
      | inl e ↦ rw e (omega arith)
      | inr e ↦ rw e (omega (arith, ih))
    ]

-- The search has ended, and has left no more plugins to enter than before.
abbrev ended : Option Search → Search → Bool
ended none s = false
ended (some s') s = leb (whites s'.color) (whites s.color)

ended_trans :
    (r : Option Search) (mid s : Search)
    → ended r mid ≡ true
    → leb (whites mid.color) (whites s.color) ≡ true
    → ended r s ≡ true
ended_trans none mid s a b = a
ended_trans (some t) mid s a b = ground arith

-- A search that ends from every white plugin as long as at most this many are white.
abbrev EndsBelow : ℕ → (String → List String → Search → Option Search) → Type 0
EndsBelow n visit =
    (dep : String) (path : List String) (s : Search)
    → lookup dep s.color ≡ some white
    → whites s.color ≤ n
    → ended (visit dep path s) s ≡ true

after_search :
    (n : ℕ) (visit : String → List String → Search → Option Search) (index : Index) (node : String)
    (path deps : List String) (s : Search) (r : Option Search)
    → EndsBelow n visit
    → whites s.color ≤ n
    → ended r s ≡ true
    → ((t : Search)
        → EndsBelow n visit
        → whites t.color ≤ n
        → ended (visit_deps visit index node path deps t) t ≡ true)
    → ended (elim r [ none ↦ none | some t ↦ visit_deps visit index node path deps t ]) s ≡ true
after_search n visit index node path deps s none ends few h ih = cc
after_search n visit index node path deps s (some t) ends few h ih =
    let fewer : whites t.color ≤ whites s.color = ground arith in
    ended_trans (visit_deps visit index node path deps t) t s
      (ih t ends (omega (arith, fewer, few))) h

visit_deps-ended :
    (n : ℕ) (visit : String → List String → Search → Option Search) (index : Index) (node : String)
    (path deps : List String) (s : Search)
    → EndsBelow n visit
    → whites s.color ≤ n
    → ended (visit_deps visit index node path deps s) s ≡ true
unfolding visit_deps
visit_deps-ended n visit index node path [] s ends few = ground arith
visit_deps-ended n visit index node path (dep ∷ deps) s ends few =
    let ih = visit_deps-ended n visit index node path deps in
    let found = record s {
      issues = s.issues ++ circular_dependency node (cycle_of dep path) ∷ [];
    } in
    elim (Bool-cases (has dep index)) [
      | inr e ↦ rw (visit_deps, e) (ih s ends few)
      | inl e ↦ elim (Option-cases (lookup dep s.color)) [
        | inl u ↦ rw (visit_deps, e, u) (ih s ends few)
        | inr (white, u) ↦
            rw (visit_deps, e, u)
              (after_search n visit index node path deps s (visit dep path s) ends few
                (ends dep path s u few) ih)
        | inr (gray, u) ↦
            rw (visit_deps, e, u)
              (ended_trans (visit_deps visit index node path deps found) found s (ih found ends few)
                (ground arith))
        | inr (black, u) ↦ rw (visit_deps, e, u) (ih s ends few)
      ]
    ]

after_visit :
    (node : String) (grayed s : Search) (r : Option Search)
    → ended r grayed ≡ true
    → whites grayed.color ≤ whites s.color
    → ended
        (elim r [ none ↦ none | some t ↦ some (record t { color = insert node black t.color }) ])
        s
      ≡ true
after_visit node grayed s none h le = cc
after_visit node grayed s (some t) h le =
    let fewer = whites-insert_black node t.color in ground (arith, fewer)

-- A search with fuel for every white plugin ends.
dfs-EndsBelow : (fuel : ℕ) (index : Index) → EndsBelow fuel (dfs fuel index)
unfolding dfs
dfs-EndsBelow zero index node path s h few =
    let entered = whites-insert_gray node s.color h in absurd (omega (arith, entered, few))
dfs-EndsBelow (suc fuel) index node path s h few =
    let entered = whites-insert_gray node s.color h in
    let grayed = record s { color = insert node gray s.color } in
    elim (Option-cases (lookup node index)) [
      | inl u ↦ rw (dfs, u) (ground (arith, entered))
      | inr (manifest, u) ↦
          rw (dfs, u)
            (after_visit node grayed s
              (visit_deps (dfs fuel index) index node (path ++ node ∷ []) manifest.dependencies
                grayed)
              (visit_deps-ended fuel (dfs fuel index) index node (path ++ node ∷ [])
                manifest.dependencies grayed (dfs-EndsBelow fuel index)
                (omega (arith, entered, few)))
              (omega (arith, entered)))
    ]

after_first :
    (fuel : ℕ) (index more : Index) (s : Search) (r : Option Search)
    → whites s.color ≤ fuel
    → ended r s ≡ true
    → ((t : Search) → whites t.color ≤ fuel → ended (search_all fuel index more t) t ≡ true)
    → ended (elim r [ none ↦ none | some t ↦ search_all fuel index more t ]) s ≡ true
after_first fuel index more s none few h ih = cc
after_first fuel index more s (some t) few h ih =
    let fewer : whites t.color ≤ whites s.color = ground arith in
    ended_trans (search_all fuel index more t) t s (ih t (omega (arith, fewer, few))) h

search_all-ended :
    (fuel : ℕ) (index more : Index) (s : Search)
    → whites s.color ≤ fuel
    → ended (search_all fuel index more s) s ≡ true
unfolding search_all
search_all-ended fuel index [] s few = ground arith
search_all-ended fuel index ((name, m) ∷ more) s few = elim (Option-cases (lookup name s.color)) [
  | inl u ↦ rw (search_all, u) (search_all-ended fuel index more s few)
  | inr (gray, u) ↦ rw (search_all, u) (search_all-ended fuel index more s few)
  | inr (black, u) ↦ rw (search_all, u) (search_all-ended fuel index more s few)
  | inr (white, u) ↦
      rw (search_all, u)
        (after_first fuel index more s (dfs fuel index name [] s) few
          (dfs-EndsBelow fuel index name [] s u few) (search_all-ended fuel index more))
]

whites-all_white : (index : Index) → whites (all_white index) ≡ length index
whites-all_white [] = refl
whites-all_white ((name, m) ∷ index) = let ih = whites-all_white index in omega (arith, ih)

is_ended : (r : Option Search) (s : Search) → ended r s ≡ true → r ≢ none
is_ended none s h = cc
is_ended (some t) s h = λ e. ground arith

issues_of-ne-none :
    (r : Option Search) → r ≢ none → elim r [ none ↦ none | some s ↦ some s.issues ] ≢ none
issues_of-ne-none none ne = absurd (ne refl)
issues_of-ne-none (some s) ne = λ e. ground arith

-- On every graph of plugins, cyclic or not, the search for cycles ends within a depth of one call for
-- each plugin: with that fuel, validateGraph returns its list of issues.
pub validate_graph-ne-none : (index : Index) → validate_graph (length index) index ≢ none
unfolding validate_graph
validate_graph-ne-none index =
    let start : Search = record { color = all_white index; issues = missing_pass index index } in
    let few : whites (all_white index) ≤ length index = omega (arith, whites-all_white index) in
    issues_of-ne-none (search_all (length index) index index start) (
      is_ended (search_all (length index) index index start) start
        (search_all-ended (length index) index index start few))
