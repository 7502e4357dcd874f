-- ===== src/Tests/Samples.antt =====
-- Concrete data for the runs: stores in memory in the place of Redis, and some tenants.
use text.Mathlib.TextLemmas.{append_cancel_left}
use crm_multi_tenant_saas_ar.Prelude.{
  ℕ, zero, suc, ◌+◌, ◌≡◌, ◌≢◌, ap, refl, true, String, Option, none, some, [], ◌∷◌, ◌==◌, ◌<>◌,
  codes, codes-<>, arith, if◌then◌else◌, text_cases, ==→ne, inl, inr,
}
use crm_multi_tenant_saas_ar.Prelude.Dict.{
  Dict, lookup, insert, remove, lookup-insert, lookup-remove,
}
use crm_multi_tenant_saas_ar.Dal.Context.{TenantStore}
use crm_multi_tenant_saas_ar.Dal.Uuid.{is_uuid, uuid_rest, hex_run, is_hex, dash}
use crm_multi_tenant_saas_ar.Dal.Cache.{Redis}
use crm_multi_tenant_saas_ar.Gateway.Resolver.{ResolvedTenant}
use crm_multi_tenant_saas_ar.Gateway.RateLimit.{Counters}

-- A Redis in memory that forgets times to live.
abbrev pub memory : (V : Type 0) → Redis V
memory V = record {
  Store = Dict V;
  get = λ k s. lookup k s;
  set = λ k v ttl s. insert k v s;
  del = λ k s. remove k s;
  get-set = λ k j v ttl s. lookup-insert k j v s;
  get-del = λ k j s. lookup-remove k j s;
}

abbrev pub value_of : Option ℕ → ℕ
value_of none = 0
value_of (some n) = n

pub value-insert :
    (k j : String) (n : ℕ) (s : Dict ℕ)
    → value_of (lookup j (insert k n s)) ≡ (if k == j then n else value_of (lookup j s))
value-insert k j n s = rw (lookup-insert k j n s) (ground arith)

pub value_of-incr :
    (k j : String) (s : Dict ℕ)
    → value_of (lookup j (insert k (value_of (lookup k s) + 1) s))
      ≡ (if k == j then value_of (lookup j s) + 1 else value_of (lookup j s))
value_of-incr k j s = elim (text_cases k j) [
  | inl e ↦ rw (value-insert k j (value_of (lookup k s) + 1) s, e) refl
  | inr e ↦ rw (value-insert k j (value_of (lookup k s) + 1) s, e) refl
]

-- Numbers as rows of strokes.
abbrev pub strokes : ℕ → String
strokes zero = ""
strokes (suc n) = "1" <> strokes n

pub strokes_inj : (m n : ℕ) → strokes m ≡ strokes n → m ≡ n
strokes_inj zero zero h = refl
strokes_inj zero (suc n) h = absurd (ground (arith, ap codes h, codes-<> "1" (strokes n)))
strokes_inj (suc m) zero h = absurd (ground (arith, ap codes h, codes-<> "1" (strokes m)))
strokes_inj (suc m) (suc n) h =
    ap suc (strokes_inj m n (append_cancel_left "1" (strokes m) (strokes n) h))

abbrev pub tallies : Counters
tallies = record {
  Store = Dict ℕ;
  value = λ k s. value_of (lookup k s);
  incr = λ k s. insert k (value_of (lookup k s) + 1) s;
  expire = λ k seconds s. s;
  value-incr = λ k j s. value_of-incr k j s;
  value-expire = λ k j seconds s. refl;
  show = strokes;
  show_inj = strokes_inj;
}

abbrev pub id_a : String
id_a = "11111111-1111-4111-8111-111111111111"

abbrev pub id_b : String
id_b = "22222222-2222-4222-8222-222222222222"

pub id_a-is_uuid : is_uuid id_a ≡ true
unfolding is_uuid uuid_rest hex_run is_hex dash
id_a-is_uuid = refl

pub id_b-is_uuid : is_uuid id_b ≡ true
unfolding is_uuid uuid_rest hex_run is_hex dash
id_b-is_uuid = refl

pub ids_differ : id_a ≢ id_b
ids_differ = ==→ne id_a id_b refl

abbrev pub store_a : TenantStore
store_a = record { tenant_id = id_a; tenant_tier = "premium"; query_count = 3 }

abbrev pub store_b : TenantStore
store_b = record { tenant_id = id_b; tenant_tier = "basic"; query_count = 0 }

abbrev pub tenant_a : ResolvedTenant
tenant_a = record {
  id = id_a;
  subdomain = some "acme";
  name = "Acme";
  tier = "premium";
  status = "active";
  db_url = none;
  is_active = true;
  allowed_origins = "https://acme.example" ∷ [];
}
