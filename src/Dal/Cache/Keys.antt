-- ===== src/Dal/Cache/Keys.antt =====
-- The cache keys tell tenants apart.
use text.Mathlib.TextLemmas.{append_cancel_left}
use crm_multi_tenant_saas_ar.Prelude.{
  ℕ, ◌≡◌, ◌≢◌, ◌∙◌, sym, ap, true, String, List, [], ◌∷◌, ◌++◌, codes, codes-<>, codes_inj, NoColon,
  colon_split, All, arith,
}
use crm_multi_tenant_saas_ar.Dal.Uuid.{is_uuid, is_hex, IsPlain, is_uuid-IsPlain}
use crm_multi_tenant_saas_ar.Dal.Cache.{key_of, lookup_key}

abbrev after : String → String → List ℕ
after r i = codes r ++ b':' ∷ codes i

codes-key_of : (t r i : String) → codes (key_of t r i) ≡ b't' ∷ b':' ∷ (codes t ++ b':' ∷ after r i)
unfolding key_of
codes-key_of t r i = simp codes-<>

-- Two keys are one only if the tenants, the resources and the ids are, where the tenant and the
-- resource hold no colon.
pub key_of_inj :
    (t t' r r' i i' : String)
    → NoColon (codes t)
    → NoColon (codes t')
    → NoColon (codes r)
    → NoColon (codes r')
    → key_of t r i ≡ key_of t' r' i'
    → (t ≡ t') × (r ≡ r') × (i ≡ i')
key_of_inj t t' r r' i i' ht ht' hr hr' h =
    let whole = sym (codes-key_of t r i) ∙ ap codes h ∙ codes-key_of t' r' i' in
    let (tenant, rest) =
      colon_split (codes t) (codes t') (after r i) (after r' i') ht ht' (ground arith) in
    let (resource, id) = colon_split (codes r) (codes r') (codes i) (codes i') hr hr' rest in
    (codes_inj t t' tenant, codes_inj r r' resource, codes_inj i i' id)

IsPlain-NoColon : (s : List ℕ) → All IsPlain s → NoColon s
unfolding is_hex
IsPlain-NoColon [] h = tt
IsPlain-NoColon (c ∷ s) h = (ground arith, IsPlain-NoColon s h.1)

pub is_uuid-NoColon : (id : String) → is_uuid id ≡ true → NoColon (codes id)
is_uuid-NoColon id h = IsPlain-NoColon (codes id) (is_uuid-IsPlain id h).1

-- Whatever the resource and the id are, even with colons in them, the keys of two tenants with
-- different UUIDs differ.
pub key_of-ne :
    (t t' r r' i i' : String)
    → is_uuid t ≡ true
    → is_uuid t' ≡ true
    → t ≢ t'
    → key_of t r i ≢ key_of t' r' i'
key_of-ne t t' r r' i i' ht ht' ne = λ h.
    let whole = sym (codes-key_of t r i) ∙ ap codes h ∙ codes-key_of t' r' i' in
    let (tenant, _) =
      colon_split (codes t) (codes t') (after r i) (after r' i') (is_uuid-NoColon t ht)
        (is_uuid-NoColon t' ht') (ground arith) in
    ne (codes_inj t t' tenant)

pub lookup_key_inj : (a b : String) → lookup_key a ≡ lookup_key b → a ≡ b
unfolding lookup_key
lookup_key_inj a b h = append_cancel_left "tenant-lookup:" a b h
