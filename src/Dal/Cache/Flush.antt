-- ===== src/Dal/Cache/Flush.antt =====
-- The SCAN loop and the full wipe of a tenant's keys.
use crm_multi_tenant_saas_ar.Prelude.{
  ◌≡◌, refl, String, none, some, List, [], ◌∷◌, ◌++◌, ◌==◌, arith, if◌then◌else◌, Option-cases, inl,
  inr, includes,
}
use crm_multi_tenant_saas_ar.Dal.Cache.{Redis, scan_keys, del_all, flush_tenant, lookup_key}

-- The keys of the replies up to the first one whose cursor is '0'.
abbrev pub scanned : List (String × List String) → List String
scanned [] = []
scanned ((cursor, keys) ∷ replies) =
    let rest = scanned replies in if cursor == "0" then keys else keys ++ rest

-- If the loop ends, it has collected those keys in order.
pub scan_keys-scanned :
    (replies : List (String × List String)) (keys : List String)
    → scan_keys replies ≡ some keys
    → keys ≡ scanned replies
unfolding scan_keys
scan_keys-scanned [] keys h = cc
scan_keys-scanned ((cursor, ks) ∷ replies) keys h = elim (Option-cases (scan_keys replies)) [
  | inl e ↦ ground arith
  | inr (more, e) ↦ ground (arith, scan_keys-scanned replies more e)
]

module _ {V : Type 0} (redis : Redis V) where
  open redis use {Store}

  -- The keys that are deleted, and no others, are gone.
  pub get-del_all :
      (ks : List String) (j : String) (s : Store)
      → redis.get j (del_all redis ks s) ≡ (if includes j ks then none else redis.get j s)
  unfolding del_all
  get-del_all [] j s = refl
  get-del_all (k ∷ ks) j s = ground (arith, get-del_all ks j (redis.del k s), redis.get-del k j s)

  -- A flush deletes the keys that its two SCANs have listed and the tenant's lookup entry, and no
  -- other key.
  pub get-flush_tenant :
      (tenant_id j : String) (application rate : List (String × List String)) (s s' : Store)
      → flush_tenant redis tenant_id application rate s ≡ some s'
      → redis.get j s' ≡ (
          if lookup_key tenant_id == j
          then none
          else if includes j (scanned rate)
          then none
          else if includes j (scanned application)
          then none
          else redis.get j s)
  unfolding flush_tenant
  get-flush_tenant tenant_id j application rate s s' h =
      elim (Option-cases (scan_keys application)) [
        | inl e ↦ ground arith
        | inr (keys, e) ↦ elim (Option-cases (scan_keys rate)) [
          | inl e' ↦ ground arith
          | inr (buckets, e') ↦ ground (
            arith,
            scan_keys-scanned application keys e,
            scan_keys-scanned rate buckets e',
            redis.get-del (lookup_key tenant_id) j (del_all redis buckets (del_all redis keys s)),
            get-del_all buckets j (del_all redis keys s),
            get-del_all keys j s,
          )
        ]
      ]
