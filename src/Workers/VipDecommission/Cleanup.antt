-- ===== src/Workers/VipDecommission/Cleanup.antt =====
-- What the cleanup deletes.
use crm_multi_tenant_saas_ar.Prelude.{
  ◌≡◌, refl, ap, ◌∙◌, false, not, String, List, [], ◌∷◌, ◌==◌, eq_iff, eq_refl, filter,
  if◌then◌else◌, Bool-cases, inl, inr, All,
}
use crm_multi_tenant_saas_ar.Workers.VipMigration.{Row, Tables, Site, table_of, rows_of}
use crm_multi_tenant_saas_ar.Workers.VipDecommission.{
  delete_rows, delete_from, cleanup, cleanup_tables,
}
use crm_multi_tenant_saas_ar.Workers.VipDecommission.Restore.{table_of-insert}

filter-deleted :
    (id : String) (rows : List Row)
    → filter (λ r. r.tenant_id == id) (filter (λ r. not (r.tenant_id == id)) rows) ≡ []
filter-deleted id [] = refl
filter-deleted id (r ∷ rows) =
    let ih = filter-deleted id rows in
    elim (Bool-cases (r.tenant_id == id)) [ inl e ↦ rw (e, ih) refl | inr e ↦ rw (e, e, ih) refl ]

filter-deleted_other :
    (other id : String) (rows : List Row)
    → (id == other) ≡ false
    → filter (λ r. r.tenant_id == other) (filter (λ r. not (r.tenant_id == id)) rows)
      ≡ filter (λ r. r.tenant_id == other) rows
filter-deleted_other other id [] ne = refl
filter-deleted_other other id (r ∷ rows) ne =
    let ih = filter-deleted_other other id rows ne in
    elim (Bool-cases (r.tenant_id == id)) [
      | inl e ↦
          let not_other : (r.tenant_id == other) ≡ false =
            ap (λ name. name == other) ((eq_iff r.tenant_id id).0 e) ∙ ne in
          rw (e, not_other, ih) refl
      | inr e ↦ rw (e, ih) refl
    ]

pub rows_of-delete_rows :
    (id t table : String) (shared : Tables)
    → rows_of id t (delete_rows id table shared) ≡ (if table == t then [] else rows_of id t shared)
unfolding rows_of delete_rows
rows_of-delete_rows id t table shared =
    let kept = filter (λ r. not (r.tenant_id == id)) (table_of table shared) in
    elim (Bool-cases (table == t)) [
      | inl e ↦
          rw (table_of-insert t table kept shared, e) (filter-deleted id (table_of table shared))
      | inr e ↦ rw (table_of-insert t table kept shared, e) refl
    ]

pub rows_of-delete_other :
    (other id t table : String) (shared : Tables)
    → (id == other) ≡ false
    → rows_of other t (delete_rows id table shared) ≡ rows_of other t shared
unfolding rows_of delete_rows
rows_of-delete_other other id t table shared ne =
    let kept = filter (λ r. not (r.tenant_id == id)) (table_of table shared) in
    elim (Bool-cases (table == t)) [
      | inl e ↦
          rw (table_of-insert t table kept shared, e)
            (filter-deleted_other other id (table_of table shared) ne
              ∙ ap (λ name. filter (λ r. r.tenant_id == other) (table_of name shared))
                  ((eq_iff table t).0 e))
      | inr e ↦ rw (table_of-insert t table kept shared, e) refl
    ]

-- What is deleted stays deleted.
delete_from-keeps :
    (id t : String) (tables : List String) (shared : Tables)
    → rows_of id t shared ≡ []
    → rows_of id t (delete_from id tables shared) ≡ []
unfolding delete_from
delete_from-keeps id t [] shared h = h
delete_from-keeps id t (table ∷ tables) shared h =
    delete_from-keeps id t tables (delete_rows id table shared) (
      rows_of-delete_rows id t table shared
      ∙ elim (Bool-cases (table == t)) [ inl e ↦ rw e refl | inr e ↦ rw e h ])

-- The tenant has no rows in the tables.
abbrev pub Emptied : String → List String → Tables → Type 0
Emptied id tables shared = All (λ t. rows_of id t shared ≡ []) tables

pub delete_from-Emptied :
    (id : String) (tables : List String) (shared : Tables)
    → Emptied id tables (delete_from id tables shared)
unfolding delete_from
delete_from-Emptied id [] shared = tt
delete_from-Emptied id (table ∷ tables) shared =
    let gone : rows_of id table (delete_rows id table shared) ≡ [] =
      rows_of-delete_rows id table table shared ∙ rw (eq_refl table) refl in
    (
      delete_from-keeps id table tables (delete_rows id table shared) gone,
      delete_from-Emptied id tables (delete_rows id table shared),
    )

delete_from-other :
    (other id t : String) (tables : List String) (shared : Tables)
    → (id == other) ≡ false
    → rows_of other t (delete_from id tables shared) ≡ rows_of other t shared
unfolding delete_from
delete_from-other other id t [] shared ne = refl
delete_from-other other id t (table ∷ tables) shared ne =
    delete_from-other other id t tables (delete_rows id table shared) ne
    ∙ rows_of-delete_other other id t table shared ne

-- The cleanup leaves no row of its tenant in the four shared tables, and every row of the other
-- tenants, in every table.
pub cleanup-Emptied :
    (id other t : String) (s : Site)
    → (id == other) ≡ false
    → Emptied id cleanup_tables (cleanup id s).shared
      × (rows_of other t (cleanup id s).shared ≡ rows_of other t s.shared)
unfolding cleanup
cleanup-Emptied id other t s ne = (
  delete_from-Emptied id cleanup_tables s.shared,
  delete_from-other other id t cleanup_tables s.shared ne,
)
