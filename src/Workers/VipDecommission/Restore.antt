-- ===== src/Workers/VipDecommission/Restore.antt =====
-- The copy back, in whatever order its batches are read: a copy that ends and agrees in its counts has
-- every row, and every copy ends.
use crm_multi_tenant_saas_ar.Prelude.{
  ℕ, zero, suc, ◌+◌, ◌≡◌, refl, Bool, true, String, List, [], ◌∷◌, ◌==◌, arith, eq_iff, eq_refl,
  ltb, eqb, take, drop, length, includes, if◌then◌else◌, Bool-cases, inl, inr, ◌⊎◌, All,
}
use crm_multi_tenant_saas_ar.Prelude.Dict.{insert, lookup-insert}
use crm_multi_tenant_saas_ar.Prelude.Member.{In}
use crm_multi_tenant_saas_ar.Workers.Columns.{Copied, ended, threw_at, out_of_fuel}
use crm_multi_tenant_saas_ar.Workers.VipMigration.{
  Row, Tables, Scan, batch_size, table_of, rows_of, counts_match,
}
use crm_multi_tenant_saas_ar.Workers.VipMigration.Copy.{eqb→eq}
use crm_multi_tenant_saas_ar.Workers.VipDecommission.{
  Answers, insert_missing, insert_all, insert_throws_in, copy_back, copy_all,
}
use crm_multi_tenant_saas_ar.Workers.VipDecommission.Keys.{
  keys, Sourced, In-keys, insert_missing-Sourced, pigeonhole,
}

abbrev From : List Row → List Row → Type 0
From source rows = All (λ r. In r source) rows

insert_all-Sourced :
    (id : String) (source : List Row) (throws : Row → Bool) (rows dest longer : List Row)
    → From source rows
    → Sourced id source dest
    → insert_all throws rows dest ≡ ended longer
    → Sourced id source longer
unfolding insert_all
insert_all-Sourced id source throws [] dest longer from sourced h =
    let same : dest ≡ longer = ground arith in rw (← same) sourced
insert_all-Sourced id source throws (r ∷ rows) dest longer from sourced h =
    elim (Bool-cases (throws r)) [
      | inl e ↦ absurd (ground arith)
      | inr e ↦
          insert_all-Sourced id source throws rows (insert_missing r dest) longer from.1
            (insert_missing-Sourced id source r dest (In-keys r source from.0) sourced)
            (rw (insert_all, e) at h)
    ]

take-From :
    (source : List Row) (n : ℕ) (rows : List Row) → From source rows → From source (take n rows)
take-From source zero rows h = tt
take-From source (suc n) [] h = tt
take-From source (suc n) (r ∷ rows) h = (h.0, take-From source n rows h.1)

drop-From :
    (source : List Row) (n : ℕ) (rows : List Row) → From source rows → From source (drop n rows)
drop-From source zero rows h = h
drop-From source (suc n) [] h = tt
drop-From source (suc n) (r ∷ rows) h = drop-From source n rows h.1

-- A SELECT sees rows of the table, as many as there are.
abbrev pub Reads : Scan → Type 0
Reads scan =
    (table : String) (offset : ℕ) (rows : List Row)
    → (length (scan table offset rows) ≡ length rows) × From rows (scan table offset rows)

pub Copied-cases {ℓ} :
    {A : Type ℓ} (c : Copied A)
    → ((a : A) × (c ≡ ended a)) ⊎ ((a : A) × (c ≡ threw_at a)) ⊎ (c ≡ out_of_fuel)
Copied-cases (ended a) = inl (a, refl)
Copied-cases (threw_at a) = inr (inl (a, refl))
Copied-cases out_of_fuel = inr (inr refl)

pub table_of-insert :
    (t table : String) (rows : List Row) (shared : Tables)
    → table_of t (insert table rows shared) ≡ (if table == t then rows else table_of t shared)
table_of-insert t table rows shared =
    let found = lookup-insert table t rows shared in
    elim (Bool-cases (table == t)) [
      | inl e ↦ rw (table_of, found, e) refl
      | inr e ↦ rw (table_of, found, e) refl
    ]

module _ (answers : Answers) (reads : Reads answers.scan) where
  page-From :
      (table : String) (offset : ℕ) (source : List Row)
      → From source (take batch_size (drop offset (answers.scan table offset source)))
  page-From table offset source =
      take-From source batch_size (drop offset (answers.scan table offset source))
        (drop-From source offset (answers.scan table offset source) (reads table offset source).1)

  copy_back-Sourced :
      (id table : String) (fuel offset : ℕ) (source dest longer : List Row)
      → Sourced id source dest
      → copy_back answers table fuel offset source dest ≡ ended longer
      → Sourced id source longer
  unfolding copy_back
  copy_back-Sourced id table zero offset source dest longer sourced h = absurd (ground arith)
  copy_back-Sourced id table (suc fuel) offset source dest longer sourced h =
      let rows = take batch_size (drop offset (answers.scan table offset source)) in
      let throws = insert_throws_in answers table in
      elim (Bool-cases (answers.select_throws table offset)) [
        | inl e ↦ absurd (ground arith)
        | inr e ↦ elim (Bool-cases (eqb (length rows) 0)) [
          | inl z ↦ let same : dest ≡ longer = ground arith in rw (← same) sourced
          | inr z ↦ elim (Copied-cases (insert_all throws rows dest)) [
            | inl (more, i) ↦
                let next : Sourced id source more =
                  insert_all-Sourced id source throws rows dest more (page-From table offset source)
                    sourced i in
                elim (Bool-cases (ltb (length rows) batch_size)) [
                  | inl last ↦ let same : more ≡ longer = ground arith in rw (← same) next
                  | inr full ↦
                      copy_back-Sourced id table fuel (offset + length rows) source more longer next
                        (rw (copy_back, e, z, i, full) at h)
                ]
            | inr (inl (more, i)) ↦ absurd (ground arith)
            | inr (inr i) ↦ absurd (ground arith)
          ]
        ]
      ]

  pub copy_all-Sourced :
      (id : String) (fuel : ℕ) (tables : List String) (dedicated shared shared' : Tables)
      → ((t : String) → Sourced id (rows_of id t dedicated) (table_of t shared))
      → copy_all answers fuel id tables dedicated shared ≡ ended shared'
      → (t : String) → Sourced id (rows_of id t dedicated) (table_of t shared')
  unfolding copy_all
  copy_all-Sourced id fuel [] dedicated shared shared' sourced h t =
      let same : shared ≡ shared' = ground arith in rw (← same) (sourced t)
  copy_all-Sourced id fuel (table ∷ tables) dedicated shared shared' sourced h t =
      let source = rows_of id table dedicated in
      let dest = table_of table shared in
      elim (Copied-cases (copy_back answers table fuel 0 source dest)) [
        | inl (rows, e) ↦
            let here : Sourced id source rows =
              copy_back-Sourced id table fuel 0 source dest rows (sourced table) e in
            let next : (u : String)
                → Sourced id (rows_of id u dedicated) (table_of u (insert table rows shared)) =
              λ u. rw (table_of-insert u table rows shared) (elim (Bool-cases (table == u)) [
                | inl same ↦ let name = (eq_iff table u).0 same in rw same (rw name at here)
                | inr other ↦ rw other (sourced u)
              ]) in
            copy_all-Sourced id fuel tables dedicated (insert table rows shared) shared' next
              (rw (copy_all, e) at h) t
        | inr (inl (rows, e)) ↦ absurd (ground arith)
        | inr (inr e) ↦ absurd (ground arith)
      ]

-- Every row of the tenant in the dedicated table has its key at a row of the tenant in the shared one.
abbrev pub Kept : String → List String → Tables → Tables → Type 0
Kept id tables dedicated shared =
    All
      (λ t. All (λ r. includes r.key (keys (rows_of id t shared)) ≡ true) (rows_of id t dedicated))
      tables

All-keys :
    (rows : List Row) (ks : List String)
    → ((k : String) → includes k (keys rows) ≡ true → includes k ks ≡ true)
    → All (λ r. includes r.key ks ≡ true) rows
All-keys [] ks h = tt
All-keys (r ∷ rows) ks h =
    (h r.key (rw (eq_refl r.key) refl), All-keys rows ks (λ k i. h k (ground arith)))

length-keys : (rows : List Row) → length (keys rows) ≡ length rows
length-keys [] = refl
length-keys (r ∷ rows) = let ih = length-keys rows in omega (arith, ih)

-- Where the counts agree, none is missing.
pub counts_match-Kept :
    (id : String) (tables : List String) (dedicated shared : Tables)
    → ((t : String) → Sourced id (rows_of id t dedicated) (table_of t shared))
    → counts_match id tables dedicated shared ≡ true
    → Kept id tables dedicated shared
unfolding counts_match rows_of
counts_match-Kept id [] dedicated shared sourced h = tt
counts_match-Kept id (table ∷ tables) dedicated shared sourced h =
    let source = rows_of id table dedicated in
    let dest = rows_of id table shared in
    let same : length source ≡ length dest = eqb→eq (length source) (length dest) (ground arith) in
    let here = sourced table in
    (
      All-keys source (keys dest) (
          pigeonhole (keys dest) (keys source) here.distinct here.among
            (omega (arith, same, length-keys source, length-keys dest))),
      counts_match-Kept id tables dedicated shared sourced (ground arith),
    )
