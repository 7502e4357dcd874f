-- ===== src/Workers/VipDecommission/Keys.antt =====
-- The keys that the copy back inserts, and when their number is enough to know that none is missing.
use crm_multi_tenant_saas_ar.Prelude.{
  ◌+◌, ◌≡◌, ◌≤◌, refl, sym, ap, ◌∙◌, true, false, String, List, [], ◌∷◌, ◌==◌, arith, eq_iff,
  length, map, filter, includes, if◌then◌else◌, Bool-cases, inl, inr,
}
use crm_multi_tenant_saas_ar.Prelude.Member.{In}
use crm_multi_tenant_saas_ar.Workers.VipMigration.{Row}
use crm_multi_tenant_saas_ar.Workers.VipDecommission.{insert_missing}

-- Keys without repetition.
abbrev pub Distinct : List String → Type 0
Distinct [] = Unit
Distinct (k ∷ ks) = (includes k ks ≡ false) × Distinct ks

-- Without the first occurrence of a key.
erase : String → List String → List String
erase k [] = []
erase k (j ∷ ks) = let rest = erase k ks in if j == k then ks else j ∷ rest

length-erase :
    (k : String) (ks : List String) → includes k ks ≡ true → length (erase k ks) + 1 ≡ length ks
unfolding erase
length-erase k [] h = absurd (ground arith)
length-erase k (j ∷ ks) h = elim (Bool-cases (j == k)) [
  | inl e ↦ rw e (omega arith)
  | inr e ↦ let ih = length-erase k ks (ground arith) in rw e (omega (arith, ih))
]

includes-erase :
    (k j : String) (ks : List String) → (k == j) ≡ false → includes j (erase k ks) ≡ includes j ks
unfolding erase
includes-erase k j [] ne = refl
includes-erase k j (i ∷ ks) ne =
    let ih = includes-erase k j ks ne in
    elim (Bool-cases (i == k)) [
      | inl e ↦
          let other : (i == j) ≡ false = ap (λ n. n == j) ((eq_iff i k).0 e) ∙ ne in
          rw (e, other) refl
      | inr e ↦ rw (e, ih) refl
    ]

-- Distinct keys that are all among some others, and not fewer, are all of these.
pub pigeonhole :
    (xs ys : List String)
    → Distinct xs
    → ((k : String) → includes k xs ≡ true → includes k ys ≡ true)
    → length ys ≤ length xs
    → (k : String) → includes k ys ≡ true
    → includes k xs ≡ true
pigeonhole [] [] distinct among fewer k h = h
pigeonhole [] (y ∷ ys) distinct among fewer k h = absurd (omega (arith, fewer))
pigeonhole (x ∷ xs) ys distinct among fewer k h = elim (Bool-cases (x == k)) [
  | inl e ↦ rw e refl
  | inr e ↦
      let here : includes x ys ≡ true = among x (rw ((eq_iff x x).1 refl) refl) in
      let shorter = length-erase x ys here in
      let among' : (j : String) → includes j xs ≡ true → includes j (erase x ys) ≡ true = λ j i.
        elim (Bool-cases (x == j)) [
          | inl same ↦
              let twice : includes x xs ≡ true =
                ap (λ n. includes n xs) ((eq_iff x j).0 same) ∙ i in
              absurd (ground (arith, twice, distinct.0))
          | inr ne ↦ includes-erase x j ys ne ∙ among j (rw (ne, i) refl)
        ] in
      let later =
        pigeonhole xs (erase x ys) distinct.1 among' (omega (arith, fewer, shorter)) k
          (includes-erase x k ys e ∙ h) in
      rw (e, later) refl
]

abbrev pub keys : List Row → List String
keys rows = map (λ r. r.key) rows

abbrev pub own_keys : String → List Row → List String
own_keys id rows = keys (filter (λ r. r.tenant_id == id) rows)

pub In-keys : (r : Row) (rows : List Row) → In r rows → includes r.key (keys rows) ≡ true
In-keys r [] i = absurd i
In-keys r (x ∷ rows) (inl e) = let same = (eq_iff x.key r.key).1 (ap (λ y. y.key) e) in rw same refl
In-keys r (x ∷ rows) (inr i) = let ih = In-keys r rows i in ground arith

includes-insert_missing :
    (id k : String) (r : Row) (dest : List Row)
    → (r.key == k) ≡ false
    → includes k (own_keys id (insert_missing r dest)) ≡ includes k (own_keys id dest)
unfolding insert_missing
includes-insert_missing id k r [] ne = elim (Bool-cases (r.tenant_id == id)) [
  | inl own ↦ rw (own, ne) refl
  | inr other ↦ rw other refl
]
includes-insert_missing id k r (d ∷ dest) ne =
    let ih = includes-insert_missing id k r dest ne in
    elim (Bool-cases (d.key == r.key)) [
      | inl e ↦ rw e refl
      | inr e ↦ elim (Bool-cases (d.tenant_id == id)) [
        | inl own ↦ rw (e, own, ih) refl
        | inr other ↦ rw (e, other, ih) refl
      ]
    ]

Distinct-insert_missing :
    (id : String) (r : Row) (dest : List Row)
    → Distinct (own_keys id dest)
    → Distinct (own_keys id (insert_missing r dest))
unfolding insert_missing
Distinct-insert_missing id r [] h = elim (Bool-cases (r.tenant_id == id)) [
  | inl own ↦ rw own (refl, tt)
  | inr other ↦ rw other tt
]
Distinct-insert_missing id r (d ∷ dest) h = elim (Bool-cases (d.key == r.key)) [
  | inl e ↦ rw e h
  | inr e ↦ elim (Bool-cases (d.tenant_id == id)) [
    | inl own ↦
        let before : (includes d.key (own_keys id dest) ≡ false) × Distinct (own_keys id dest) =
          rw own at h in
        let ne : (r.key == d.key) ≡ false =
          ground (arith, eq_iff r.key d.key, eq_iff d.key r.key) in
        rw (e, own)
          (
            includes-insert_missing id d.key r dest ne ∙ before.0,
            Distinct-insert_missing id r dest before.1,
          )
    | inr other ↦
        let before : Distinct (own_keys id dest) = rw other at h in
        rw (e, other) (Distinct-insert_missing id r dest before)
  ]
]

-- The tenant's keys in a shared table are distinct, and keys of the tenant's rows in the dedicated
-- one.
pub record Sourced (id : String) (source dest : List Row) : Type 0 where
  pub distinct : Distinct (own_keys id dest)
  pub among : (k : String) → includes k (own_keys id dest) ≡ true → includes k (keys source) ≡ true

pub insert_missing-Sourced :
    (id : String) (source : List Row) (r : Row) (dest : List Row)
    → includes r.key (keys source) ≡ true
    → Sourced id source dest
    → Sourced id source (insert_missing r dest)
insert_missing-Sourced id source r dest there sourced = record {
  distinct = Distinct-insert_missing id r dest sourced.distinct;
  among = λ k h. elim (Bool-cases (r.key == k)) [
    | inl e ↦ ap (λ n. includes n (keys source)) (sym ((eq_iff r.key k).0 e)) ∙ there
    | inr e ↦ sourced.among k (sym (includes-insert_missing id k r dest e) ∙ h)
  ];
}
