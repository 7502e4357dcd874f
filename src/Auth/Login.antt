-- ===== src/Auth/Login.antt =====
-- Who is logged in.
use crm_multi_tenant_saas_ar.Prelude.{
  ◌≡◌, refl, true, ◌&&◌, ◌||◌, not, Option, none, some, ◌==◌, arith, eq_iff, find_sound, Bool-cases,
  Option-cases, inl, inr,
}
use crm_multi_tenant_saas_ar.Auth.{
  TenantRow, UserRow, Database, Crypto, Drawn, LoginDto, Session, ok, unauthorized, AuthError,
  invalid_credentials, text_is, find_tenant, find_user_by_email, check_credentials, login,
  claims_of, issue_refresh_token,
}

module _ (crypto : Crypto) where
  open crypto use {verify, sign}

  -- What a successful login is, written out.
  pub record LoggedIn (dto : LoginDto) (drawn : Drawn) (db : Database) (s : Session)
      (db' : Database) : Type 0 where
    pub tenant_named : text_is s.tenant.subdomain dto.tenant_slug ≡ true
    pub tenant_active : s.tenant.is_active ≡ true
    pub user_named : s.user.email ≡ dto.email
    pub user_of_tenant : s.user.tenant_id ≡ s.tenant.id
    pub user_active : s.user.is_active ≡ true
    pub password : verify dto.password s.user.password_hash ≡ true
    pub access : s.tokens.token ≡ sign (claims_of crypto s.user s.tenant.id drawn)
    pub stored : db' ≡ issue_refresh_token crypto drawn s.user.id s.tenant.id db

  check_credentials-LoggedIn :
      (dto : LoginDto) (drawn : Drawn) (db db' : Database) (t : TenantRow) (u : Option UserRow)
      (s : Session)
      → text_is t.subdomain dto.tenant_slug ≡ true
      → t.is_active ≡ true
      → ((v : UserRow) → u ≡ some v → (v.email ≡ dto.email) × (v.tenant_id ≡ t.id))
      → check_credentials crypto dto drawn t u db ≡ (ok s, db')
      → LoggedIn dto drawn db s db'
  unfolding check_credentials
  check_credentials-LoggedIn dto drawn db db' t none s named active user h = absurd (ground arith)
  check_credentials-LoggedIn dto drawn db db' t (some v) s named active user h =
      elim (Bool-cases (not v.is_active || not (verify dto.password v.password_hash))) [
        | inl bad ↦ absurd (ground arith)
        | inr good ↦
            let mine = user v refl in
            record {
              tenant_named = ground arith;
              tenant_active = ground arith;
              user_named = ground arith;
              user_of_tenant = ground arith;
              user_active = ground arith;
              password = ground arith;
              access = ground arith;
              stored = ground arith;
            }
      ]

  -- A login succeeds only for an active user of the active tenant with the given subdomain, by the
  -- user's email in that tenant and its password; the access token names that user and tenant, and
  -- one refresh token of theirs is stored.
  pub login-LoggedIn :
      (dto : LoginDto) (drawn : Drawn) (db db' : Database) (s : Session)
      → login crypto dto drawn db ≡ (ok s, db')
      → LoggedIn dto drawn db s db'
  unfolding login find_tenant find_user_by_email
  login-LoggedIn dto drawn db db' s h = elim (Option-cases (find_tenant dto.tenant_slug db)) [
    | inl e ↦ absurd (ground arith)
    | inr (t, e) ↦
        let found =
          find_sound (λ t. text_is t.subdomain dto.tenant_slug && t.is_active) db.tenants t e in
        check_credentials-LoggedIn dto drawn db db' t (find_user_by_email dto.email t.id db) s
          (ground arith) (ground arith)
          (λ v e'.
            let mine =
              find_sound (λ u. u.email == dto.email && u.tenant_id == t.id) db.users v e' in
            ground (arith, eq_iff v.email dto.email, eq_iff v.tenant_id t.id))
          (ground arith)
  ]

  -- A caller cannot tell an unknown email from a wrong password or an inactive user: in a tenant
  -- that is found every failure is the same error, and writes nothing.
  pub login_failed :
      (dto : LoginDto) (drawn : Drawn) (db db' : Database) (t : TenantRow) (e : AuthError)
      → find_tenant dto.tenant_slug db ≡ some t
      → login crypto dto drawn db ≡ (unauthorized e, db')
      → (e ≡ invalid_credentials) × (db' ≡ db)
  unfolding login check_credentials
  login_failed dto drawn db db' t e found h =
      elim (Option-cases (find_user_by_email dto.email t.id db)) [
        | inl m ↦ ground arith
        | inr (u, m) ↦ ground arith
      ]
