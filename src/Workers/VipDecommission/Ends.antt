-- ===== src/Workers/VipDecommission/Ends.antt =====
-- The copy back ends: one round of the loop for each row is enough, in whatever order the batches are
-- read.
use crm_multi_tenant_saas_ar.Prelude.{
  ℕ, zero, suc, ◌+◌, ◌≡◌, ◌≢◌, ◌≤◌, ◌<◌, Bool, String, List, [], ◌∷◌, arith, ltb, eqb, take, drop,
  length, length-take-le, Bool-cases, inl, inr, All,
}
use crm_multi_tenant_saas_ar.Prelude.Dict.{insert}
use crm_multi_tenant_saas_ar.Workers.Columns.{out_of_fuel}
use crm_multi_tenant_saas_ar.Workers.VipMigration.{Row, Tables, batch_size, table_of, rows_of}
use crm_multi_tenant_saas_ar.Workers.VipMigration.Copy.{length-take-drop, ge_of-ltb}
use crm_multi_tenant_saas_ar.Workers.VipDecommission.{
  Answers, insert_missing, insert_all, insert_throws_in, copy_back, copy_all,
}
use crm_multi_tenant_saas_ar.Workers.VipDecommission.Restore.{Reads, Copied-cases}

-- Fuel for every table of the tenant.
abbrev pub Fuelled : ℕ → String → List String → Tables → Type 0
Fuelled fuel id tables dedicated = All (λ t. length (rows_of id t dedicated) < fuel) tables

length-drop : (n : ℕ) (xs : List Row) → 0 < length (drop n xs) → n + length (drop n xs) ≡ length xs
length-drop zero xs h = omega arith
length-drop (suc n) [] h = absurd (omega (arith, h))
length-drop (suc n) (x ∷ xs) h = omega (arith, length-drop n xs h)

insert_all-ne-out_of_fuel :
    (throws : Row → Bool) (rows dest : List Row) → insert_all throws rows dest ≢ out_of_fuel
unfolding insert_all
insert_all-ne-out_of_fuel throws [] dest = cc
insert_all-ne-out_of_fuel throws (r ∷ rows) dest =
    let ih = insert_all-ne-out_of_fuel throws rows (insert_missing r dest) in
    elim (Bool-cases (throws r)) [ inl e ↦ rw e cc | inr e ↦ rw e ih ]

module _ (answers : Answers) (reads : Reads answers.scan) where
  copy_back-ne-out_of_fuel :
      (table : String) (fuel offset : ℕ) (source dest : List Row)
      → offset ≤ length source
      → length source < offset + fuel
      → copy_back answers table fuel offset source dest ≢ out_of_fuel
  unfolding copy_back
  copy_back-ne-out_of_fuel table zero offset source dest within enough =
      absurd (omega (arith, within, enough))
  copy_back-ne-out_of_fuel table (suc fuel) offset source dest within enough =
      let left = drop offset (answers.scan table offset source) in
      let rows = take batch_size left in
      let throws = insert_throws_in answers table in
      elim (Bool-cases (answers.select_throws table offset)) [
        | inl e ↦ rw e cc
        | inr e ↦ elim (Bool-cases (eqb (length rows) 0)) [
          | inl z ↦ rw (e, z) cc
          | inr z ↦ elim (Copied-cases (insert_all throws rows dest)) [
            | inl (more, i) ↦ elim (Bool-cases (ltb (length rows) batch_size)) [
              | inl last ↦ rw (e, z, i, last) cc
              | inr full ↦
                  let counted = (reads table offset source).0 in
                  let least = ge_of-ltb (length rows) batch_size full in
                  let most : length rows ≤ batch_size = length-take-le batch_size left in
                  let parts = length-take-drop batch_size left in
                  let whole =
                    length-drop offset (answers.scan table offset source)
                      (omega (arith, least, parts)) in
                  rw (e, z, i, full)
                    (copy_back-ne-out_of_fuel table fuel (offset + length rows) source more
                      (omega (arith, counted, parts, whole)) (omega (arith, enough, least)))
            ]
            | inr (inl (more, i)) ↦ rw (e, z, i) cc
            | inr (inr i) ↦ absurd (insert_all-ne-out_of_fuel throws rows dest i)
          ]
        ]
      ]

  pub copy_all-ne-out_of_fuel :
      (fuel : ℕ) (id : String) (tables : List String) (dedicated shared : Tables)
      → Fuelled fuel id tables dedicated
      → copy_all answers fuel id tables dedicated shared ≢ out_of_fuel
  unfolding copy_all
  copy_all-ne-out_of_fuel fuel id [] dedicated shared enough = cc
  copy_all-ne-out_of_fuel fuel id (table ∷ tables) dedicated shared enough =
      let source = rows_of id table dedicated in
      let dest = table_of table shared in
      elim (Copied-cases (copy_back answers table fuel 0 source dest)) [
        | inl (rows, e) ↦
            rw (copy_all, e)
              (copy_all-ne-out_of_fuel fuel id tables dedicated (insert table rows shared) enough.1)
        | inr (inl (rows, e)) ↦ rw (copy_all, e) cc
        | inr (inr e) ↦ absurd (
            copy_back-ne-out_of_fuel table fuel 0 source dest (omega arith)
              (omega (arith, enough.0)) e)
      ]
