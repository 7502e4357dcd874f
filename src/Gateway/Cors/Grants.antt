-- ===== src/Gateway/Cors/Grants.antt =====
-- Which origins are granted.
use crm_multi_tenant_saas_ar.Prelude.{
  ◌≡◌, ◌≢◌, refl, Bool, true, false, String, Option, none, some, List, [], ◌∷◌, ◌==◌, includes,
  arith, eq_iff, if◌then◌else◌, inl, inr, Bool-cases, ◌⊎◌, ◌∙◌, ap, sym,
}
use crm_multi_tenant_saas_ar.Prelude.Member.{In}
use crm_multi_tenant_saas_ar.Dal.Cache.{Redis}
use crm_multi_tenant_saas_ar.Gateway.Resolver.{
  ResolvedTenant, Directory, Request, Cached, Outcome, passed, resolve,
}
use crm_multi_tenant_saas_ar.Gateway.Cors.{
  Reply, next, no_content, apply_headers, allowed_origins, granted, decide, use_cors,
}

-- The origin that a reply grants.
abbrev pub grant : Reply → Option String
grant (next none) = none
grant (next (some h)) = some h.allow_origin
grant (no_content h) = some h.allow_origin

grant-granted :
    (origin : String) (preflight : Bool) → grant (granted origin preflight) ≡ some origin
unfolding granted apply_headers
grant-granted origin true = refl
grant-granted origin false = refl

grant-decide :
    (origin : String) (preflight : Bool) (allowed : List String)
    → grant (decide origin preflight allowed) ≡ (elim allowed [
      | [] ↦ some origin
      | o ∷ os ↦ if includes origin (o ∷ os) then some origin else none
    ])
unfolding decide
grant-decide origin preflight [] = grant-granted origin preflight
grant-decide origin preflight (o ∷ os) = elim (Bool-cases (includes origin (o ∷ os))) [
  | inl e ↦ rw e (grant-granted origin preflight)
  | inr e ↦ rw e refl
]

includes-In : (origin : String) (os : List String) → includes origin os ≡ true → In origin os
includes-In origin [] h = absurd (ground arith)
includes-In origin (o ∷ os) h = elim (Bool-cases (o == origin)) [
  | inl e ↦ inl ((eq_iff o origin).0 e)
  | inr e ↦ inr (includes-In origin os (ground arith))
]

In-includes : (origin : String) (os : List String) → In origin os → includes origin os ≡ true
In-includes origin [] i = absurd i
In-includes origin (o ∷ os) (inl e) = let same = (eq_iff o origin).1 e in ground arith
In-includes origin (o ∷ os) (inr i) =
    let later = In-includes origin os i in
    elim (Bool-cases (o == origin)) [ inl e ↦ rw e refl | inr e ↦ rw e later ]

-- The tenant's own list, empty where the request has no tenant.
abbrev pub own_origins : Option ResolvedTenant → List String
own_origins none = []
own_origins (some tenant) = tenant.allowed_origins

-- The tenant lists the origin; or it lists none, and the global list has it or is empty too.
abbrev pub Permitted : String → List String → List String → Type 0
Permitted origin own global = In origin own ⊎ ((own ≡ []) × (In origin global ⊎ (global ≡ [])))

-- What `decide` grants for a list.
abbrev Listed : String → List String → Type 0
Listed origin os = In origin os ⊎ (os ≡ [])

decide-granted :
    (asked : String) (preflight : Bool) (os : List String) (origin : String)
    → grant (decide asked preflight os) ≡ some origin
    → (origin ≡ asked) × Listed asked os
decide-granted asked preflight [] origin h =
    let same : some asked ≡ some origin = rw (grant-decide asked preflight []) at h in
    (ground arith, inr refl)
decide-granted asked preflight (o ∷ os) origin h = elim (Bool-cases (includes asked (o ∷ os))) [
  | inl e ↦
      let same : some asked ≡ some origin = rw (grant-decide asked preflight (o ∷ os), e) at h in
      (ground arith, inl (includes-In asked (o ∷ os) e))
  | inr e ↦
      let never : none ≡ some origin = rw (grant-decide asked preflight (o ∷ os), e) at h in
      absurd (ground arith)
]

granted-decide :
    (asked : String) (preflight : Bool) (os : List String)
    → Listed asked os
    → grant (decide asked preflight os) ≡ some asked
granted-decide asked preflight [] listed = grant-decide asked preflight []
granted-decide asked preflight (o ∷ os) (inl i) =
    let found = In-includes asked (o ∷ os) i in
    rw (grant-decide asked preflight (o ∷ os), found) refl
granted-decide asked preflight (o ∷ os) (inr e) = absurd (ground arith)

-- The list that is asked, by the tenant's own.
allowed_origins-Listed :
    (asked : String) (tenant : Option ResolvedTenant) (own global : List String)
    → own_origins tenant ≡ own
    → (Listed asked (allowed_origins tenant global) → Permitted asked own global)
      × (Permitted asked own global → Listed asked (allowed_origins tenant global))
unfolding allowed_origins
allowed_origins-Listed asked none own global e = (
  λ listed. inr (sym e, listed),
  λ permitted. elim permitted [ inl i ↦ absurd (rw (← e) at i) | inr (_, listed) ↦ listed ],
)
allowed_origins-Listed asked (some tenant) [] global e = (
  λ listed. inr (refl, rw e at listed),
  λ permitted. elim permitted [ inl i ↦ absurd i | inr (_, listed) ↦ rw e listed ],
)
allowed_origins-Listed asked (some tenant) (o ∷ os) global e = (
  λ listed. elim (rw e at listed) [ inl i ↦ inl i | inr never ↦ absurd (ground arith) ],
  λ permitted. elim permitted [ inl i ↦ rw e (inl i) | inr (never, _) ↦ absurd (ground arith) ],
)

-- An origin is granted exactly if it is the one that asks, and the tenant's own list has it, or the
-- tenant has no list and the global list has it or is empty as well; the tenant's list comes before
-- the global one, whatever that says.
pub grant-use_cors :
    (global : List String) (method asked origin : String) (tenant : Option ResolvedTenant)
    → (asked == "") ≡ false
    → (grant (use_cors global method (some asked) tenant) ≡ some origin
        → (origin ≡ asked) × Permitted asked (own_origins tenant) global)
      × ((origin ≡ asked) × Permitted asked (own_origins tenant) global
          → grant (use_cors global method (some asked) tenant) ≡ some origin)
unfolding use_cors
grant-use_cors global method asked origin tenant named =
    let preflight = method == "OPTIONS" in
    let os = allowed_origins tenant global in
    let by_tenant = allowed_origins-Listed asked tenant (own_origins tenant) global refl in
    rw named (
      λ h.
          let (same, listed) = decide-granted asked preflight os origin h in
          (same, by_tenant.0 listed),
      λ (same, permitted).
          granted-decide asked preflight os (by_tenant.1 permitted) ∙ ap some (sym same),
    )

-- What the request is for the middleware that comes after the resolver.
abbrev pub tenant_of : Outcome → Option ResolvedTenant
tenant_of (passed _ tenant _) = some tenant
tenant_of _ = none

-- A preflight is decided without its tenant: the resolver skips it, so the tenant's own list is
-- not seen, and an origin that only the tenant lists is refused where there is a global list.
pub preflight_refused :
    (redis : Redis Cached) (dir : Directory) (s : redis.Store) (req : Request)
    (global : List String) (origin : String)
    → req.method ≡ "OPTIONS"
    → global ≢ []
    → includes origin global ≡ false
    → (origin == "") ≡ false
    → use_cors global req.method (some origin) (tenant_of (resolve redis dir req s).0) ≡ next none
unfolding resolve use_cors decide allowed_origins
preflight_refused redis dir s req [] origin method some_global absent named =
    absurd (some_global refl)
preflight_refused redis dir s req (g ∷ gs) origin method some_global absent named =
    ground (arith, eq_iff req.method "OPTIONS")
