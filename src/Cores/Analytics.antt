-- ===== src/Cores/Analytics.antt =====
-- backend/src/plugins/cores/analytics/analytics.core.ts. A date is the number of its day.
pub mod Trends
use crm_multi_tenant_saas_ar.Prelude.{
  ℕ, suc, ◌+◌, ◌*◌, ◌/◌, Bool, true, false, String, List, [], ◌∷◌, leb, ltb, eqb, filter, length,
  if◌then◌else◌,
}
use crm_multi_tenant_saas_ar.Dal.Rls.{select}
use crm_multi_tenant_saas_ar.Cores.Store.{Customer, Store, Call, customer_keys}

pub record AnalyticsSummary : Type 0 where
  pub total_customers : ℕ
  pub active_customers : ℕ
  pub tenant_id : String
  pub generated_at : ℕ

pub record TrendPoint : Type 0 where
  pub date : ℕ
  pub count : ℕ

unfoldable pub summary : Call → Store → AnalyticsSummary
unfolding select
summary call s = record {
  total_customers = length (select customer_keys call.tenant_id (λ _. true) s.customers);
  active_customers = length (select customer_keys call.tenant_id (λ c. c.is_active) s.customers);
  tenant_id = call.tenant_id;
  generated_at = call.now;
}

abbrev pub day_ms : ℕ
day_ms = 24 * 60 * 60 * 1000

-- `DATE(created_at)`
abbrev pub date_of : Customer → ℕ
date_of c = c.created_at / day_ms

-- A row more in its group; the groups are ordered by date.
unfoldable pub count_in : ℕ → List TrendPoint → List TrendPoint
count_in date [] = record { date = date; count = 1 } ∷ []
count_in date (p ∷ points) =
    let rest = count_in date points in
    if eqb date p.date
    then record p { count = p.count + 1 } ∷ points
    else if ltb date p.date
    then record { date = date; count = 1 } ∷ p ∷ points
    else p ∷ rest

unfoldable pub grouped : List Customer → List TrendPoint
unfolding count_in
grouped [] = []
grouped (c ∷ customers) = count_in (date_of c) (grouped customers)

-- `created_at >= NOW() - INTERVAL '30 days'`
abbrev pub is_recent : ℕ → Customer → Bool
is_recent now c = leb now (c.created_at + 30 * day_ms)

unfoldable pub trends : Call → Store → List TrendPoint
unfolding grouped select
trends call s =
    grouped (select customer_keys call.tenant_id (λ c. is_recent call.now c) s.customers)
