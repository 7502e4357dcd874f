-- ===== src/Workers/VipMigration/Whole.antt =====
-- The copy of all tables, of which none fits: it throws if there is a row, and makes empty tables
-- otherwise.
use crm_multi_tenant_saas_ar.Prelude.{
  ℕ, zero, suc, ◌≡◌, ◌<◌, refl, ◌∙◌, Bool, true, false, not, ◌||◌, String, List, [], ◌∷◌, arith,
  eqb, take, length, Bool-cases, inl, inr, All,
}
use crm_multi_tenant_saas_ar.Prelude.Dict.{lookup, insert}
use crm_multi_tenant_saas_ar.Workers.Columns.{
  fits_dedicated, dedicated_columns, shared_columns, ended, threw_at,
}
use crm_multi_tenant_saas_ar.Workers.VipMigration.{
  Row, Tables, Scan, batch_size, plugin_tables, table_of, rows_of, copy_from, copy_tables,
  counts_match,
}
use crm_multi_tenant_saas_ar.Workers.VipMigration.Copy.{length-eq-zero, eqb→eq}

-- A SELECT sees every row of the table once, in some order.
abbrev pub Counts : Scan → Type 0
Counts scan =
    (table : String) (offset : ℕ) (rows : List Row) → length (scan table offset rows) ≡ length rows

-- The tenant has a row in one of the tables.
abbrev pub has_rows : String → List String → Tables → Bool
has_rows id [] shared = false
has_rows id (table ∷ tables) shared =
    not (eqb (length (rows_of id table shared)) 0) || has_rows id tables shared

length-take-suc : (n : ℕ) (xs : List Row) → eqb (length (take (suc n) xs)) 0 ≡ eqb (length xs) 0
length-take-suc n [] = refl
length-take-suc n (x ∷ xs) = ground arith

length-take_zero : (xs : List Row) → eqb (length (take batch_size xs)) 0 ≡ eqb (length xs) 0
length-take_zero xs = length-take-suc 499 xs

module _ (scan : Scan) (counts : Counts scan) where
  copy_from-ended :
      (table : String) (fuel : ℕ) (source dest : List Row)
      → 0 < fuel
      → eqb (length source) 0 ≡ true
      → copy_from scan table fuel 0 source dest ≡ ended dest
  unfolding copy_from
  copy_from-ended table zero source dest some_fuel none_there = absurd (omega arith)
  copy_from-ended table (suc fuel) source dest some_fuel none_there =
      let same = length-take_zero (scan table 0 source) in
      let all = counts table 0 source in ground arith

  copy_from-threw :
      (table : String) (fuel : ℕ) (source dest : List Row)
      → 0 < fuel
      → fits_dedicated table ≡ false
      → eqb (length source) 0 ≡ false
      → copy_from scan table fuel 0 source dest ≡ threw_at dest
  unfolding copy_from
  copy_from-threw table zero source dest some_fuel unfit some_there = absurd (omega arith)
  copy_from-threw table (suc fuel) source dest some_fuel unfit some_there =
      let same = length-take_zero (scan table 0 source) in
      let all = counts table 0 source in ground arith

  pub copy_tables-threw :
      (fuel : ℕ) (id : String) (tables : List String) (shared dedicated : Tables)
      → 0 < fuel
      → All (λ t. fits_dedicated t ≡ false) tables
      → has_rows id tables shared ≡ true
      → (made : Tables) × (copy_tables scan fuel id tables shared dedicated ≡ threw_at made)
  unfolding copy_tables
  copy_tables-threw fuel id [] shared dedicated some_fuel unfit some_there = absurd (ground arith)
  copy_tables-threw fuel id (table ∷ tables) shared dedicated some_fuel unfit some_there =
      let rows = rows_of id table shared in
      let dest = table_of table dedicated in
      elim (Bool-cases (eqb (length rows) 0)) [
        | inl e ↦
            let (made, later) =
              copy_tables-threw fuel id tables shared (insert table dest dedicated) some_fuel
                unfit.1 (ground arith) in
            (made, rw (copy_tables, copy_from-ended table fuel rows dest some_fuel e) later)
        | inr e ↦ (
          insert table dest dedicated,
          rw (copy_tables, copy_from-threw table fuel rows dest some_fuel unfit.0 e) refl,
        )
      ]

  copy_tables-next :
      (fuel : ℕ) (id table : String) (tables : List String) (shared dedicated : Tables)
      → 0 < fuel
      → rows_of id table shared ≡ []
      → table_of table dedicated ≡ []
      → copy_tables scan fuel id (table ∷ tables) shared dedicated
        ≡ copy_tables scan fuel id tables shared (insert table [] dedicated)
  unfolding copy_tables
  copy_tables-next fuel id table tables shared dedicated some_fuel none_there empty =
      let done = copy_from-ended table fuel [] [] some_fuel refl in
      rw (copy_tables, none_there, empty, done) refl

-- The database that a copy of no rows makes.
abbrev pub empty_tables : Tables
empty_tables =
    ("customers", [])
    ∷ ("support_cases", [])
    ∷ ("automation_triggers", [])
    ∷ ("marketing_campaigns", [])
    ∷ []

has_rows-none :
    (id : String) (tables : List String) (shared : Tables)
    → has_rows id tables shared ≡ false
    → All (λ t. rows_of id t shared ≡ []) tables
has_rows-none id [] shared h = tt
has_rows-none id (table ∷ tables) shared h = (
  length-eq-zero (rows_of id table shared)
      (eqb→eq (length (rows_of id table shared)) 0 (ground arith)),
  has_rows-none id tables shared (ground arith),
)

pub copy_tables-empty :
    (scan : Scan) (fuel : ℕ) (id : String) (shared : Tables)
    → Counts scan
    → 0 < fuel
    → has_rows id plugin_tables shared ≡ false
    → copy_tables scan fuel id plugin_tables shared [] ≡ ended empty_tables
unfolding copy_tables lookup insert
copy_tables-empty scan fuel id shared counts some_fuel none_there =
    let (a, (b, (c, (d, _)))) = has_rows-none id plugin_tables shared none_there in
    let one = insert "customers" [] [] in
    let two = insert "support_cases" [] one in
    let three = insert "automation_triggers" [] two in
    copy_tables-next scan counts fuel id "customers"
      ("support_cases" ∷ "automation_triggers" ∷ "marketing_campaigns" ∷ []) shared [] some_fuel a
      refl
    ∙ copy_tables-next scan counts fuel id "support_cases"
        ("automation_triggers" ∷ "marketing_campaigns" ∷ []) shared one some_fuel b refl
    ∙ copy_tables-next scan counts fuel id "automation_triggers" ("marketing_campaigns" ∷ []) shared
        two some_fuel c refl
    ∙ copy_tables-next scan counts fuel id "marketing_campaigns" [] shared three some_fuel d refl

pub counts_match-empty :
    (id : String) (shared : Tables)
    → has_rows id plugin_tables shared ≡ false
    → counts_match id plugin_tables shared empty_tables ≡ true
unfolding counts_match rows_of lookup
counts_match-empty id shared none_there =
    let (a, (b, (c, (d, _)))) = has_rows-none id plugin_tables shared none_there in
    rw (counts_match, a, b, c, d) refl

-- Every shared table has a column that its dedicated one lacks.
pub plugin_tables-unfit : All (λ t. fits_dedicated t ≡ false) plugin_tables
unfolding fits_dedicated dedicated_columns shared_columns
plugin_tables-unfit = (refl, (refl, (refl, (refl, tt))))
