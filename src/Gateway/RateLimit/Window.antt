-- ===== src/Gateway/RateLimit/Window.antt =====
-- How many requests of a tenant pass in one minute, and over the edge of two.
use crm_multi_tenant_saas_ar.Prelude.{
  ℕ, ◌+◌, ◌-◌, ◌/◌, ◌≡◌, ◌≢◌, refl, ◌∙◌, ap, sym, true, String, List, [], ◌∷◌, ◌++◌, ◌==◌, ◌<>◌,
  ltb, arith, eq_refl, if◌then◌else◌, length, All, ne→==, inl, inr, ◌⊎◌, codes, codes-<>, codes_inj,
  colon_split,
}
use Prim.Native.Nat.{min}
use text.Mathlib.TextLemmas.{append_cancel_left}
use crm_multi_tenant_saas_ar.Dal.Uuid.{is_uuid}
use crm_multi_tenant_saas_ar.Dal.Quota.{finite}
use crm_multi_tenant_saas_ar.Dal.Cache.Keys.{is_uuid-NoColon}
use crm_multi_tenant_saas_ar.Gateway.Resolver.{ResolvedTenant}
use crm_multi_tenant_saas_ar.Gateway.RateLimit.{
  Counters, tier_rate_limit, bucket_key, count_request, limit_request,
}

tail_codes : (s t : String) → codes (s <> (":" <> t)) ≡ codes s ++ b':' ∷ codes t
tail_codes s t = simp codes-<>

module _ (c : Counters) where
  open c use {Store, value}

  -- The requests of one tenant at the given times: how many pass, and the counters after them.
  pub passed_count : ResolvedTenant → List ℕ → Store → ℕ × Store
  passed_count tenant [] s = (0, s)
  passed_count tenant (now ∷ times) s =
      let (pass, s') = limit_request c tenant now s in
      let (n, s'') = passed_count tenant times s' in ((if pass then n + 1 else n), s'')

  value-count_request :
      (key j : String) (limit : ℕ) (s : Store)
      → value j (count_request c key limit s).1 ≡ (if key == j then value j s + 1 else value j s)
  unfolding count_request
  value-count_request key j limit s =
      ground (arith, c.value-incr key j s, c.value-expire key j 60 (c.incr key s))

  count_request-pass :
      (key : String) (limit : ℕ) (s : Store)
      → (count_request c key limit s).0 ≡ ltb (value key s) limit
  unfolding count_request
  count_request-pass key limit s = ground (arith, c.value-incr key key s, eq_refl key)

  limit_request-eq :
      (tenant : ResolvedTenant) (limit minute now : ℕ) (s : Store)
      → tier_rate_limit tenant.tier ≡ finite limit
      → now / 60000 ≡ minute
      → limit_request c tenant now s ≡ count_request c (bucket_key c tenant.id minute) limit s
  unfolding limit_request
  limit_request-eq tenant limit minute now s e same =
      rw (e, limit_request) (ap (λ m. count_request c (bucket_key c tenant.id m) limit s) same)

  -- Of the requests that one minute brings, those pass that the tenant's limit leaves room for,
  -- and no others: as many as are left of the limit, or all of them; and each is counted.
  pub passed_count_minute :
      (tenant : ResolvedTenant) (limit minute : ℕ) (times : List ℕ) (s : Store)
      → tier_rate_limit tenant.tier ≡ finite limit
      → All (λ now. now / 60000 ≡ minute) times
      → ((passed_count tenant times s).0
          ≡ min (length times) (limit - value (bucket_key c tenant.id minute) s))
        × (value (bucket_key c tenant.id minute) (passed_count tenant times s).1
            ≡ value (bucket_key c tenant.id minute) s + length times)
  unfolding passed_count
  passed_count_minute tenant limit minute [] s e same = (omega arith, omega arith)
  passed_count_minute tenant limit minute (now ∷ times) s e same =
      let key = bucket_key c tenant.id minute in
      let s' : Store = (count_request c key limit s).1 in
      let ih = passed_count_minute tenant limit minute times s' e same.1 in
      rw (limit_request-eq tenant limit minute now s e same.0) (
        ground (
          arith,
          ih,
          count_request-pass key limit s,
          value-count_request key key limit s,
          eq_refl key,
        ))

  -- The counter of one tenant is not touched by the requests of another: the keys differ for
  -- different UUIDs, and for one tenant in different minutes.
  pub bucket_key-ne :
      (id id' : String) (m m' : ℕ)
      → is_uuid id ≡ true
      → is_uuid id' ≡ true
      → (id ≢ id') ⊎ (m ≢ m')
      → bucket_key c id m ≢ bucket_key c id' m'
  unfolding bucket_key
  bucket_key-ne id id' m m' hi hi' differ = λ h.
      let tails : id <> (":" <> c.show m) ≡ id' <> (":" <> c.show m') =
        append_cancel_left "rl:" _ _ h in
      let split =
        colon_split (codes id) (codes id') (codes (c.show m)) (codes (c.show m'))
          (is_uuid-NoColon id hi) (is_uuid-NoColon id' hi')
          (sym (tail_codes id (c.show m)) ∙ ap codes tails ∙ tail_codes id' (c.show m')) in
      elim differ [
        | inl tenants ↦ tenants (codes_inj id id' split.0)
        | inr minutes ↦ minutes (c.show_inj m m' (codes_inj (c.show m) (c.show m') split.1))
      ]

  passed_count-other :
      (tenant : ResolvedTenant) (limit minute : ℕ) (j : String) (times : List ℕ) (s : Store)
      → tier_rate_limit tenant.tier ≡ finite limit
      → All (λ now. now / 60000 ≡ minute) times
      → bucket_key c tenant.id minute ≢ j
      → value j (passed_count tenant times s).1 ≡ value j s
  unfolding passed_count
  passed_count-other tenant limit minute j [] s e same ne = refl
  passed_count-other tenant limit minute j (now ∷ times) s e same ne =
      let key = bucket_key c tenant.id minute in
      let s' : Store = (count_request c key limit s).1 in
      let ih = passed_count-other tenant limit minute j times s' e same.1 ne in
      rw (limit_request-eq tenant limit minute now s e same.0)
        (ground (arith, ih, ne→== key j ne, value-count_request key j limit s))

  -- A full limit may pass at the end of one minute and another at the start of the next: the
  -- window does not slide. From untouched counters, `limit` requests in each of two minutes that
  -- follow one another all pass, however close together they are.
  pub passed_count_edge :
      (tenant : ResolvedTenant) (limit minute : ℕ) (before after : List ℕ) (s : Store)
      → tier_rate_limit tenant.tier ≡ finite limit
      → is_uuid tenant.id ≡ true
      → value (bucket_key c tenant.id minute) s ≡ 0
      → value (bucket_key c tenant.id (minute + 1)) s ≡ 0
      → All (λ now. now / 60000 ≡ minute) before
      → All (λ now. now / 60000 ≡ minute + 1) after
      → (length before ≡ limit) × (length after ≡ limit)
      → (passed_count tenant before s).0
          + (passed_count tenant after (passed_count tenant before s).1).0
        ≡ limit + limit
  passed_count_edge tenant limit minute before after s e good first second hb ha (lb, la) =
      let s' = (passed_count tenant before s).1 in
      let ne =
        bucket_key-ne tenant.id tenant.id minute (minute + 1) good good (inr (omega arith)) in
      let kept =
        passed_count-other tenant limit minute (bucket_key c tenant.id (minute + 1)) before s e hb
          ne in
      let one = passed_count_minute tenant limit minute before s e hb in
      let two = passed_count_minute tenant limit (minute + 1) after s' e ha in
      omega (arith, one.0, two.0, kept)
