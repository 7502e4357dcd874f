-- ===== src/Auth.antt =====
-- backend/src/api/v1/auth/auth.service.ts: login, refresh and logout.
pub mod Login
pub mod Rotation
pub mod Logout
pub mod Platform
use crm_multi_tenant_saas_ar.Prelude.{
  ℕ, ◌+◌, ◌-◌, ◌/◌, ◌*◌, ◌≡◌, Bool, true, false, not, ◌&&◌, ◌||◌, String, Option, none, some, List,
  [], ◌∷◌, ◌++◌, ◌==◌, ltb, leb, find, map, if◌then◌else◌,
}
use crm_multi_tenant_saas_ar.Dal.Cache.{Redis}
use crm_multi_tenant_saas_ar.Gateway.Jwt.{blacklist_key}

-- The rows that the queries of the service read, and those of `refresh_tokens`, which it writes.
pub record TenantRow : Type 0 where
  pub id : String
  pub subdomain : Option String
  pub name : String
  pub tier : String
  pub is_active : Bool

-- A user with the names of its roles in its tenant.
pub record UserRow : Type 0 where
  pub id : String
  pub tenant_id : String
  pub email : String
  pub name : String
  pub password_hash : String
  pub is_active : Bool
  pub roles : List String

pub record RefreshToken : Type 0 where
  pub id : String
  pub token_hash : String
  pub user_id : String
  pub tenant_id : String
  pub expires_at : ℕ
  pub revoked_at : Option ℕ

pub record Database : Type 0 where
  pub tenants : List TenantRow
  pub users : List UserRow
  pub refresh_tokens : List RefreshToken

pub record Claims : Type 0 where
  pub sub : String
  pub tenant_id : String
  pub email : String
  pub roles : List String
  pub jti : String

-- The libraries: bcrypt's comparison, the signature of a JWT, SHA-256.
pub record Crypto : Type 0 where
  pub verify : String → String → Bool
  pub sign : Claims → String
  pub hash_token : String → String

-- What one call draws: a token id, a refresh token, and the key of its row; and the time in
-- milliseconds.
pub record Drawn : Type 0 where
  pub jti : String
  pub refresh_token : String
  pub row_id : String
  pub now : ℕ

pub record LoginDto : Type 0 where
  pub tenant_slug : String
  pub email : String
  pub password : String

pub data AuthError : Type 0 where
  tenant_not_found invalid_credentials invalid_refresh_token refresh_token_expired : AuthError
  user_inactive : AuthError

pub data Result {ℓ} (A : Type ℓ) : Type ℓ where
  ok : A → Result A
  unauthorized : AuthError → Result A

pub record Tokens : Type 0 where
  pub token : String
  pub refresh_token : String

pub record Session : Type 0 where
  pub tokens : Tokens
  pub user : UserRow
  pub tenant : TenantRow

abbrev pub seven_days_ms : ℕ
seven_days_ms = 7 * 24 * 60 * 60 * 1000

abbrev pub dummy_hash : String
dummy_hash = "$2b$12$invalidhashusedtoblindtimingXXXXXXXXXXXXXXXXXXXXXXX"

abbrev pub is_null : Option ℕ → Bool
is_null none = true
is_null (some _) = false

abbrev pub text_is : Option String → String → Bool
text_is none s = false
text_is (some t) s = t == s

-- The WHERE clauses.
unfoldable pub find_tenant : String → Database → Option TenantRow
find_tenant slug db = find (λ t. text_is t.subdomain slug && t.is_active) db.tenants

unfoldable pub find_user_by_email : String → String → Database → Option UserRow
find_user_by_email email tenant_id db =
    find (λ u. u.email == email && u.tenant_id == tenant_id) db.users

unfoldable pub find_user_by_id : String → String → Database → Option UserRow
find_user_by_id id tenant_id db = find (λ u. u.id == id && u.tenant_id == tenant_id) db.users

unfoldable pub find_refresh_token : String → Database → Option RefreshToken
find_refresh_token hash db =
    find (λ rt. rt.token_hash == hash && is_null rt.revoked_at) db.refresh_tokens

-- `UPDATE refresh_tokens SET revoked_at = now() WHERE id = $1`
unfoldable pub revoke : String → ℕ → Database → Database
revoke id now db = record db {
  refresh_tokens =
      map (λ rt. if rt.id == id then record rt { revoked_at = some now } else rt) db.refresh_tokens;
}

module _ (crypto : Crypto) where
  open crypto use {verify, sign, hash_token}

  -- The row that `issueRefreshToken` inserts.
  abbrev pub new_row : Drawn → String → String → RefreshToken
  new_row drawn user_id tenant_id = record {
    id = drawn.row_id;
    token_hash = hash_token drawn.refresh_token;
    user_id = user_id;
    tenant_id = tenant_id;
    expires_at = drawn.now + seven_days_ms;
    revoked_at = none;
  }

  -- The database with the new row; the token itself is what was drawn.
  unfoldable pub issue_refresh_token : Drawn → String → String → Database → Database
  issue_refresh_token drawn user_id tenant_id db = record db {
    refresh_tokens = new_row drawn user_id tenant_id ∷ db.refresh_tokens;
  }

  unfoldable pub claims_of : UserRow → String → Drawn → Claims
  claims_of user tenant_id drawn = record {
    sub = user.id;
    tenant_id = tenant_id;
    email = user.email;
    roles = user.roles;
    jti = drawn.jti;
  }

  abbrev pub hash_to_compare : Option UserRow → String
  hash_to_compare none = dummy_hash
  hash_to_compare (some user) = user.password_hash

  -- `login` after the queries: the password is compared also where there is no user.
  unfoldable pub check_credentials :
      LoginDto → Drawn → TenantRow → Option UserRow → Database → Result Session × Database
  unfolding issue_refresh_token claims_of
  check_credentials dto drawn tenant user db =
      let valid = verify dto.password (hash_to_compare user) in
      elim user [
        | none ↦ (unauthorized invalid_credentials, db)
        | some u ↦
            if not u.is_active || not valid then (unauthorized invalid_credentials, db) else (
              ok (record {
                tokens = record {
                  token = sign (claims_of u tenant.id drawn);
                  refresh_token = drawn.refresh_token;
                };
                user = u;
                tenant = tenant;
              }),
              issue_refresh_token drawn u.id tenant.id db,
            )
      ]

  unfoldable pub login : LoginDto → Drawn → Database → Result Session × Database
  unfolding find_tenant find_user_by_email
  login dto drawn db = elim (find_tenant dto.tenant_slug db) [
    | none ↦ (unauthorized tenant_not_found, db)
    | some tenant ↦
        check_credentials dto drawn tenant (find_user_by_email dto.email tenant.id db) db
  ]

  -- The first two queries of `refresh`, before its transaction: the record and its user.
  unfoldable pub validate_refresh : String → ℕ → Database → Result (RefreshToken × UserRow)
  validate_refresh raw_token now db = elim (find_refresh_token (hash_token raw_token) db) [
    | none ↦ unauthorized invalid_refresh_token
    | some rt ↦
        if ltb rt.expires_at now
        then unauthorized refresh_token_expired
        else elim (find_user_by_id rt.user_id rt.tenant_id db) [
          | none ↦ unauthorized user_inactive
          | some user ↦ if user.is_active then ok (rt, user) else unauthorized user_inactive
        ]
  ]

  -- The transaction of `refresh`, and the access token after it.
  unfoldable pub rotate : RefreshToken → UserRow → Drawn → Database → Tokens × Database
  unfolding issue_refresh_token revoke claims_of
  rotate rt user drawn db = (
    record {
      token = sign (claims_of user rt.tenant_id drawn);
      refresh_token = drawn.refresh_token;
    },
    issue_refresh_token drawn rt.user_id rt.tenant_id (revoke rt.id drawn.now db),
  )

  unfoldable pub refresh : String → Drawn → Database → Result Tokens × Database
  refresh raw_token drawn db = elim (validate_refresh raw_token drawn.now db) [
    | unauthorized e ↦ (unauthorized e, db)
    | ok (rt, user) ↦ let (tokens, db') = rotate rt user drawn db in (ok tokens, db')
  ]

-- `logout` at the time `now` in milliseconds; `exp` is in seconds.
unfoldable pub logout : (redis : Redis String) → String → ℕ → ℕ → redis.Store → redis.Store
logout redis jti exp now s =
    let ttl = exp - now / 1000 in if leb ttl 0 then s else redis.set (blacklist_key jti) "1" ttl s
