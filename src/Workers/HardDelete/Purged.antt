-- ===== src/Workers/HardDelete/Purged.antt =====
-- What is deleted for good, and what is kept.
use crm_multi_tenant_saas_ar.Prelude.{
  ℕ, ◌≡◌, refl, sym, ap, subst, any, ◌∙◌, Bool, true, false, not, ◌&&◌, String, List, [], ◌∷◌, ◌==◌,
  arith, eq_iff, map, filter, includes, if◌then◌else◌, Bool-cases, inl, inr,
}
use crm_multi_tenant_saas_ar.Workers.VipMigration.{Tables, rows_of}
use crm_multi_tenant_saas_ar.Workers.VipDecommission.{delete_rows, delete_from}
use crm_multi_tenant_saas_ar.Workers.VipDecommission.Cleanup.{
  Emptied, rows_of-delete_rows, rows_of-delete_other, delete_from-Emptied,
}
use crm_multi_tenant_saas_ar.Workers.HardDelete.{
  ClosedTenant, Stock, qualifies, owned_tables, delete_tables, delete_tenant, delete_each,
  hard_delete,
}

abbrev pub lines_of : String → List ClosedTenant → List ClosedTenant
lines_of id tenants = filter (λ t. t.id == id) tenants

-- Nothing of the tenant is left in the tables that are emptied.
abbrev pub Purged : String → Stock → Type 0
Purged id s = Emptied id owned_tables s.tables × (lines_of id s.tenants ≡ [])

-- None of the tenant's rows is gone.
abbrev pub Untouched : String → Stock → Stock → Type 0
Untouched id s after =
    ((table : String) → rows_of id table after.tables ≡ rows_of id table s.tables)
    × (lines_of id after.tenants ≡ lines_of id s.tenants)

lines-deleted :
    (id : String) (tenants : List ClosedTenant)
    → lines_of id (filter (λ t. not (t.id == id)) tenants) ≡ []
lines-deleted id [] = refl
lines-deleted id (t ∷ tenants) = elim (Bool-cases (t.id == id)) [
  | inl e ↦ rw (e, lines-deleted id tenants) refl
  | inr e ↦ rw (e, e, lines-deleted id tenants) refl
]

lines-other :
    (id other : String) (tenants : List ClosedTenant)
    → (id == other) ≡ false
    → lines_of other (filter (λ t. not (t.id == id)) tenants) ≡ lines_of other tenants
lines-other id other [] ne = refl
lines-other id other (t ∷ tenants) ne =
    let ih = lines-other id other tenants ne in
    elim (Bool-cases (t.id == id)) [
      | inl e ↦
          let away : (t.id == other) ≡ false =
            ap (λ name. name == other) ((eq_iff t.id id).0 e) ∙ ne in
          rw (e, away, ih) refl
      | inr e ↦ rw (e, ih) refl
    ]

lines-kept :
    (id : String) (test : ClosedTenant → Bool) (tenants : List ClosedTenant)
    → lines_of id tenants ≡ []
    → lines_of id (filter test tenants) ≡ []
lines-kept id test [] h = refl
lines-kept id test (t ∷ tenants) h = elim (Bool-cases (t.id == id)) [
  | inl e ↦ absurd (ground arith)
  | inr e ↦
      let ih = lines-kept id test tenants (ground arith) in
      elim (Bool-cases (test t)) [ inl p ↦ rw (p, e, ih) refl | inr p ↦ rw (p, ih) refl ]
]

-- Who is chosen: the tenants with a row that qualifies.
includes-chosen :
    (now : ℕ) (id : String) (tenants : List ClosedTenant)
    → includes id (map (λ t. t.id) (filter (qualifies now) tenants))
      ≡ any (λ t. qualifies now t && (t.id == id)) tenants
includes-chosen now id [] = refl
includes-chosen now id (t ∷ tenants) =
    let ih = includes-chosen now id tenants in
    elim (Bool-cases (qualifies now t)) [ inl e ↦ rw (e, ih) refl | inr e ↦ rw (e, ih) refl ]

gone_after :
    (id other t table : String) (tables : Tables)
    → rows_of other t tables ≡ []
    → rows_of other t (delete_rows id table tables) ≡ []
gone_after id other t table tables h = elim (Bool-cases (id == other)) [
  | inl e ↦
      subst (λ k. rows_of other t (delete_rows k table tables) ≡ []) (sym ((eq_iff id other).0 e))
        (rows_of-delete_rows other t table tables
          ∙ elim (Bool-cases (table == t)) [ inl d ↦ rw d refl | inr d ↦ rw d h ])
  | inr e ↦ rows_of-delete_other other id t table tables e ∙ h
]

module _ (fails : String → String → Bool) where
  delete_tables-other :
      (id other t : String) (rest : List String) (tables : Tables)
      → (id == other) ≡ false
      → rows_of other t (delete_tables fails id rest tables).0 ≡ rows_of other t tables
  unfolding delete_tables
  delete_tables-other id other t [] tables ne = refl
  delete_tables-other id other t (table ∷ rest) tables ne = elim (Bool-cases (fails id table)) [
    | inl e ↦ rw e refl
    | inr e ↦ rw e (
        delete_tables-other id other t rest (delete_rows id table tables) ne
        ∙ rows_of-delete_other other id t table tables ne)
  ]

  -- What is gone stays away, whoever is deleted next.
  delete_tables-gone :
      (id other t : String) (rest : List String) (tables : Tables)
      → rows_of other t tables ≡ []
      → rows_of other t (delete_tables fails id rest tables).0 ≡ []
  unfolding delete_tables
  delete_tables-gone id other t [] tables h = h
  delete_tables-gone id other t (table ∷ rest) tables h = elim (Bool-cases (fails id table)) [
    | inl e ↦ rw e h
    | inr e ↦ rw e (
        delete_tables-gone id other t rest (delete_rows id table tables)
          (gone_after id other t table tables h))
  ]

  delete_tables-done :
      (id : String) (rest : List String) (tables : Tables)
      → ((t : String) → fails id t ≡ false)
      → delete_tables fails id rest tables ≡ (delete_from id rest tables, true)
  unfolding delete_tables delete_from
  delete_tables-done id [] tables works = refl
  delete_tables-done id (table ∷ rest) tables works =
      rw (works table) (delete_tables-done id rest (delete_rows id table tables) works)

  delete_tenant-Untouched :
      (id other : String) (s : Stock)
      → (id == other) ≡ false
      → Untouched other s (delete_tenant fails id s)
  unfolding delete_tenant
  delete_tenant-Untouched id other s ne = (
    λ table. delete_tables-other id other table owned_tables s.tables ne,
    elim (Bool-cases
        ((delete_tables fails id owned_tables s.tables).1 && not (fails id "tenants"))) [
          | inl e ↦ rw e (lines-other id other s.tenants ne)
          | inr e ↦ rw e refl
        ],
  )

  Emptied-keeps :
      (id other : String) (ts : List String) (tables : Tables)
      → Emptied other ts tables
      → Emptied other ts (delete_tables fails id owned_tables tables).0
  Emptied-keeps id other [] tables h = tt
  Emptied-keeps id other (t ∷ ts) tables h =
      (delete_tables-gone id other t owned_tables tables h.0, Emptied-keeps id other ts tables h.1)

  delete_tenant-keeps :
      (id other : String) (s : Stock) → Purged other s → Purged other (delete_tenant fails id s)
  unfolding delete_tenant
  delete_tenant-keeps id other s h = (
    Emptied-keeps id other owned_tables s.tables h.0,
    elim (Bool-cases
        ((delete_tables fails id owned_tables s.tables).1 && not (fails id "tenants"))) [
          | inl e ↦ rw e (lines-kept other (λ t. not (t.id == id)) s.tenants h.1)
          | inr e ↦ rw e (h.1)
        ],
  )

  delete_tenant-Purged :
      (id : String) (s : Stock)
      → ((t : String) → fails id t ≡ false)
      → Purged id (delete_tenant fails id s)
  unfolding delete_tenant
  delete_tenant-Purged id s works =
      rw (delete_tables-done id owned_tables s.tables works, works "tenants")
        (delete_from-Emptied id owned_tables s.tables, lines-deleted id s.tenants)

  delete_each-keeps :
      (ids : List String) (other : String) (s : Stock)
      → Purged other s
      → Purged other (delete_each fails ids s)
  unfolding delete_each
  delete_each-keeps [] other s h = h
  delete_each-keeps (id ∷ ids) other s h =
      delete_each-keeps ids other (delete_tenant fails id s) (delete_tenant-keeps id other s h)

  delete_each-Purged :
      (ids : List String) (id : String) (s : Stock)
      → includes id ids ≡ true
      → ((t : String) → fails id t ≡ false)
      → Purged id (delete_each fails ids s)
  unfolding delete_each
  delete_each-Purged [] id s h works = absurd (ground arith)
  delete_each-Purged (j ∷ ids) id s h works = elim (Bool-cases (j == id)) [
    | inl e ↦
        let here =
          subst (λ k. Purged id (delete_tenant fails k s)) (sym ((eq_iff j id).0 e))
            (delete_tenant-Purged id s works) in
        delete_each-keeps ids id (delete_tenant fails j s) here
    | inr e ↦ delete_each-Purged ids id (delete_tenant fails j s) (ground arith) works
  ]

  delete_each-Untouched :
      (ids : List String) (other : String) (s : Stock)
      → includes other ids ≡ false
      → Untouched other s (delete_each fails ids s)
  unfolding delete_each
  delete_each-Untouched [] other s h = (λ table. refl, refl)
  delete_each-Untouched (j ∷ ids) other s h = elim (Bool-cases (j == other)) [
    | inl e ↦ absurd (ground arith)
    | inr e ↦
        let first = delete_tenant-Untouched j other s e in
        let later = delete_each-Untouched ids other (delete_tenant fails j s) (ground arith) in
        (λ table. later.0 table ∙ first.0 table, later.1 ∙ first.1)
  ]

  -- A run of the job, where no DELETE of the given tenant throws, whatever those of others do: if a row
  -- of the tenant was offboarded more than 90 days ago, nothing of the tenant is left in the nine
  -- tables and in `tenants`; if none of its rows was, every row of it is kept, in every table.
  pub hard_delete-Purged :
      (now : ℕ) (id : String) (s : Stock)
      → ((t : String) → fails id t ≡ false)
      → (if any (λ t. qualifies now t && (t.id == id)) s.tenants
          then Purged id (hard_delete fails now s)
          else Untouched id s (hard_delete fails now s))
  unfolding hard_delete
  hard_delete-Purged now id s works =
      let chosen = includes-chosen now id s.tenants in
      elim (Bool-cases (any (λ t. qualifies now t && (t.id == id)) s.tenants)) [
        | inl due ↦ rw due (delete_each-Purged _ id s (chosen ∙ due) works)
        | inr not_due ↦ rw not_due (delete_each-Untouched _ id s (chosen ∙ not_due))
      ]
