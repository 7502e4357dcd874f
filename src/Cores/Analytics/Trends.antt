-- ===== src/Cores/Analytics/Trends.antt =====
-- The points of the trends, against the customers that they count.
use crm_multi_tenant_saas_ar.Prelude.{
  ℕ, ◌+◌, ◌<◌, ◌≤◌, ◌≡◌, refl, List, [], ◌∷◌, arith, ltb, eqb, filter, length, All, if◌then◌else◌,
  Bool-cases, inl, inr, ltb→lt,
}
use crm_multi_tenant_saas_ar.Dal.Rls.{select}
use crm_multi_tenant_saas_ar.Cores.Store.{Customer, Store, Call, customer_keys}
use crm_multi_tenant_saas_ar.Cores.Analytics.{
  TrendPoint, count_in, grouped, trends, date_of, is_recent,
}

-- The count that stands at a date, 0 if no point does.
abbrev pub count_at : ℕ → List TrendPoint → ℕ
count_at date [] = 0
count_at date (p ∷ points) =
    let later = count_at date points in if eqb date p.date then p.count else later

-- The dates increase, and no point is empty.
abbrev pub Ordered : List TrendPoint → Type 0
Ordered [] = Unit
Ordered (p ∷ points) = All (λ q. p.date < q.date) points × (1 ≤ p.count) × Ordered points

abbrev After : ℕ → List TrendPoint → Type 0
After date points = All (λ q. date < q.date) points

After-trans : (lo hi : ℕ) (points : List TrendPoint) → lo < hi → After hi points → After lo points
After-trans lo hi [] h a = tt
After-trans lo hi (p ∷ points) h a =
    (let first = a.0 in omega arith, After-trans lo hi points h a.1)

After-count_in :
    (lo date : ℕ) (points : List TrendPoint)
    → lo < date
    → After lo points
    → After lo (count_in date points)
unfolding count_in
After-count_in lo date [] h a = (h, tt)
After-count_in lo date (p ∷ points) h a = elim (Bool-cases (eqb date p.date)) [
  | inl e ↦ rw e a
  | inr e ↦ elim (Bool-cases (ltb date p.date)) [
    | inl l ↦ rw (e, l) (h, a)
    | inr l ↦ rw (e, l) (a.0, After-count_in lo date points h a.1)
  ]
]

count_in-Ordered :
    (date : ℕ) (points : List TrendPoint) → Ordered points → Ordered (count_in date points)
unfolding count_in
count_in-Ordered date [] h = (tt, omega arith, tt)
count_in-Ordered date (p ∷ points) h = elim (Bool-cases (eqb date p.date)) [
  | inl e ↦ rw e (h.0, omega arith, h.2)
  | inr e ↦ elim (Bool-cases (ltb date p.date)) [
    | inl l ↦
        let before = ltb→lt date p.date l in
        rw (e, l) ((before, After-trans date p.date points before h.0), omega arith, h)
    | inr l ↦
        let past : p.date < date = ground arith in
        rw (e, l)
          (After-count_in p.date date points past h.0, h.1, count_in-Ordered date points h.2)
  ]
]

-- Before the first point nothing is counted.
count_at-After :
    (date : ℕ) (points : List TrendPoint) → After date points → count_at date points ≡ 0
count_at-After date [] a = refl
count_at-After date (p ∷ points) a =
    let first = a.0 in ground (arith, count_at-After date points a.1)

count_at-count_in :
    (at date : ℕ) (points : List TrendPoint)
    → Ordered points
    → count_at at (count_in date points) ≡ count_at at points + (if eqb date at then 1 else 0)
unfolding count_in
count_at-count_in at date [] h = ground arith
count_at-count_in at date (p ∷ points) h =
    let (after, some_there, ordered) = h in
    let ih = count_at-count_in at date points ordered in
    elim (Bool-cases (eqb date p.date)) [
      | inl e ↦ rw e (ground arith)
      | inr e ↦ elim (Bool-cases (ltb date p.date)) [
        | inl l ↦
            let before = ltb→lt date p.date l in
            rw (e, l)
              (ground
                (arith, count_at-After date points (After-trans date p.date points before after)))
        | inr l ↦ rw (e, l) (ground (arith, ih))
      ]
    ]

grouped_counts :
    (customers : List Customer)
    → Ordered (grouped customers)
      × ((date : ℕ)
          → count_at date (grouped customers)
            ≡ length (filter (λ c. eqb (date_of c) date) customers))
unfolding grouped
grouped_counts [] = (tt, λ date. refl)
grouped_counts (c ∷ customers) =
    let (ordered, counts) = grouped_counts customers in
    (
      count_in-Ordered (date_of c) (grouped customers) ordered,
      λ date. elim (Bool-cases (eqb (date_of c) date)) [
        | inl e ↦
            rw (count_at-count_in date (date_of c) (grouped customers) ordered, counts date, e)
              (omega arith)
        | inr e ↦
            rw (count_at-count_in date (date_of c) (grouped customers) ordered, counts date, e)
              (omega arith)
      ],
    )

-- The dates of the trends increase strictly and none of their counts is 0; and the count at a date, 0
-- where it has no point, is the number of the tenant's customers of the last 30 days, both ends
-- included, that were created on it.
pub trends_counts :
    (call : Call) (s : Store)
    → Ordered (trends call s)
      × ((date : ℕ)
          → count_at date (trends call s)
            ≡ length (
                filter
                  (λ c. eqb (date_of c) date)
                  (select customer_keys call.tenant_id (λ c. is_recent call.now c) s.customers)))
unfolding trends
trends_counts call s =
    grouped_counts (select customer_keys call.tenant_id (λ c. is_recent call.now c) s.customers)
