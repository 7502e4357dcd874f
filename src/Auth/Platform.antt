-- ===== src/Auth/Platform.antt =====
-- The platform's administrators: backend/src/api/v1/admin/admin-auth/admin-auth.service.ts, and
-- backend/src/api/v1/admin/guards/super-admin.guard.ts.
use crm_multi_tenant_saas_ar.Prelude.{
  ℕ, subst, ◌≡◌, sym, eq_iff, refl, Bool, true, false, ◌&&◌, ◌||◌, not, String, Option, none, some,
  List, ◌==◌, arith, includes, find_sound, if◌then◌else◌, Bool-cases, Option-cases, inl, inr,
}
use crm_multi_tenant_saas_ar.Auth.{
  TenantRow, UserRow, Database, dummy_hash, find_tenant, find_user_by_email,
}

-- The token's claims: no id of the token.
pub record AdminClaims : Type 0 where
  pub sub : String
  pub tenant_id : String
  pub email : String
  pub roles : List String

pub data AdminLogin : Type 0 where
  -- Without JWT_SECRET_FALLBACK, and without the tenant `system`.
  no_fallback : AdminLogin
  not_configured : AdminLogin
  invalid_admin : AdminLogin
  -- The claims that are signed, and the user that is answered.
  admin_session : AdminClaims → UserRow → AdminLogin

abbrev pub hash_of : Option UserRow → String
hash_of none = dummy_hash
hash_of (some u) = u.password_hash

-- The tests after the comparison.
unfoldable pub admin_checked : TenantRow → Bool → Option UserRow → AdminLogin
admin_checked tenant valid none = invalid_admin
admin_checked tenant valid (some u) =
    if not u.is_active || not valid || not (includes "super_admin" u.roles)
    then invalid_admin
    else admin_session
        (record { sub = u.id; tenant_id = tenant.id; email = u.email; roles = u.roles }) u

-- `login`; `verify` is bcrypt's, and `fallback` tells whether JWT_SECRET_FALLBACK is set.
unfoldable pub admin_login :
    (String → String → Bool) → Bool → String → String → Database → AdminLogin
unfolding find_tenant find_user_by_email admin_checked
admin_login verify fallback email password db =
    if fallback
    then elim (find_tenant "system" db) [
      | none ↦ not_configured
      | some tenant ↦
          let user = find_user_by_email email tenant.id db in
          admin_checked tenant (verify password (hash_of user)) user
    ]
    else no_fallback

pub data AdminAccess : Type 0 where
  admitted : AdminAccess
  -- With the status.
  turned_away : ℕ → AdminAccess

-- `SuperAdminGuard.canActivate`, given the claims of the request's user.
unfoldable pub super_admin_guard : Option AdminClaims → AdminAccess
super_admin_guard none = turned_away 401
super_admin_guard (some claims) =
    if includes "super_admin" claims.roles then admitted else turned_away 403

-- What a login of an administrator has been given.
abbrev pub IsAdminSession :
    (String → String → Bool) → Bool → String → String → Database → AdminLogin → Type 0
IsAdminSession verify fallback email password db no_fallback = Unit
IsAdminSession verify fallback email password db not_configured = Unit
IsAdminSession verify fallback email password db invalid_admin = Unit
IsAdminSession verify fallback email password db (admin_session claims u) =
    (fallback ≡ true)
    × (u.email ≡ email)
    × (u.tenant_id ≡ claims.tenant_id)
    × (u.is_active ≡ true)
    × (verify password u.password_hash ≡ true)
    × (claims.sub ≡ u.id)
    × (super_admin_guard (some claims) ≡ admitted)

module _ (verify : String → String → Bool) (email password : String) (db : Database) where
  admin_checked-IsAdminSession :
      (tenant : TenantRow) (user : Option UserRow)
      → ((u : UserRow) → user ≡ some u → (u.email ≡ email) × (u.tenant_id ≡ tenant.id))
      → IsAdminSession verify true email password db
          (admin_checked tenant (verify password (hash_of user)) user)
  unfolding admin_checked super_admin_guard
  admin_checked-IsAdminSession tenant none mine = tt
  admin_checked-IsAdminSession tenant (some u) mine =
      let (named, of_tenant) = mine u refl in
      elim (Bool-cases u.is_active) [
        | inr e ↦ rw e tt
        | inl e ↦ elim (Bool-cases (verify password u.password_hash)) [
          | inr v ↦ rw (e, v) tt
          | inl v ↦ elim (Bool-cases (includes "super_admin" u.roles)) [
            | inr r ↦ rw (e, v, r) tt
            | inl r ↦ simp (e, v, r) (refl, named, of_tenant, refl, refl, refl, refl)
          ]
        ]
      ]

  -- Where an administrator's login succeeds, the fallback secret is set, the user is an active one of
  -- the system tenant, with the given address and a hash that the password verifies, and the claims
  -- that are signed name it and pass the guard of the administration.
  pub admin_login-IsAdminSession :
      (fallback : Bool)
      → IsAdminSession verify fallback email password db
          (admin_login verify fallback email password db)
  unfolding admin_login find_tenant find_user_by_email
  admin_login-IsAdminSession false = tt
  admin_login-IsAdminSession true = elim (Option-cases (find_tenant "system" db)) [
    | inl e ↦
        let result : admin_login verify true email password db ≡ not_configured = ground arith in
        subst (IsAdminSession verify true email password db) (sym result) tt
    | inr (tenant, e) ↦
        let user = find_user_by_email email tenant.id db in
        let result : admin_login verify true email password db
            ≡ admin_checked tenant (verify password (hash_of user)) user =
          ground arith in
        subst (IsAdminSession verify true email password db) (sym result) (
          admin_checked-IsAdminSession tenant user (λ u found.
            let good =
              find_sound (λ v. v.email == email && v.tenant_id == tenant.id) db.users u found in
            (ground (arith, eq_iff u.email email), ground (arith, eq_iff u.tenant_id tenant.id))))
  ]
