-- ===== src/Workers/VipMigration/Copy.antt =====
-- Batches of a list of rows.
use crm_multi_tenant_saas_ar.Prelude.{
  ℕ, zero, suc, ◌+◌, ◌≡◌, ◌≤◌, refl, true, false, List, [], ◌∷◌, arith, ltb, eqb, take, drop,
  length,
}
use crm_multi_tenant_saas_ar.Workers.VipMigration.{Row}

pub length-eq-zero : (xs : List Row) → length xs ≡ 0 → xs ≡ []
length-eq-zero [] h = refl
length-eq-zero (x ∷ xs) h = absurd (omega (arith, h))

pub length-take-drop : (n : ℕ) (xs : List Row) → length (take n xs) + length (drop n xs) ≡ length xs
length-take-drop zero xs = omega arith
length-take-drop (suc n) [] = omega arith
length-take-drop (suc n) (x ∷ xs) = omega (arith, length-take-drop n xs)

pub eqb→eq : (a b : ℕ) → eqb a b ≡ true → a ≡ b
eqb→eq a b h = ground arith

pub ge_of-ltb : (a b : ℕ) → ltb a b ≡ false → b ≤ a
ge_of-ltb a b h = ground arith
