-- ===== src/Tests/AuthRuns.antt =====
-- Runs of the theorems on the login.
use crm_multi_tenant_saas_ar.Prelude.{
  ◌/◌, ◌<◌, ◌≤◌, ◌≡◌, refl, true, false, String, none, some, [], ◌∷◌, ◌==◌, ◌<>◌, if◌then◌else◌,
  ==→ne,
}
use crm_multi_tenant_saas_ar.Gateway.Jwt.{JwtClaims, denied, can_activate}
use crm_multi_tenant_saas_ar.Auth.{
  TenantRow, UserRow, RefreshToken, Database, Crypto, Drawn, LoginDto, ok, unauthorized,
  invalid_credentials, invalid_refresh_token, Tokens, Session, find_tenant, find_user_by_email,
  find_user_by_id, find_refresh_token, revoke, new_row, issue_refresh_token, claims_of,
  check_credentials, login, validate_refresh, rotate, refresh, logout,
}
use crm_multi_tenant_saas_ar.Auth.Rotation.{raced, refresh_again, refresh_raced}
use crm_multi_tenant_saas_ar.Auth.Login.{LoggedIn, login-LoggedIn}
use crm_multi_tenant_saas_ar.Auth.Logout.{can_activate-logout}
use crm_multi_tenant_saas_ar.Tests.Samples.{memory, id_a, tenant_a}

-- Toy functions in the place of the libraries.
abbrev toy : Crypto
toy = record {
  verify = λ password hash. ("hash:" <> password) == hash;
  sign = λ c. c.sub <> "@" <> c.tenant_id <> "#" <> c.jti;
  hash_token = λ t. "sha:" <> t;
}

abbrev acme : TenantRow
acme = record {
  id = id_a;
  subdomain = some "acme";
  name = "Acme";
  tier = "premium";
  is_active = true;
}

abbrev ada : UserRow
ada = record {
  id = "u1";
  tenant_id = id_a;
  email = "ada@acme.example";
  name = "Ada";
  password_hash = "hash:secret";
  is_active = true;
  roles = "admin" ∷ [];
}

abbrev old_token : RefreshToken
old_token = record {
  id = "r1";
  token_hash = "sha:one";
  user_id = "u1";
  tenant_id = id_a;
  expires_at = 5000;
  revoked_at = none;
}

abbrev db : Database
db = record { tenants = acme ∷ []; users = ada ∷ []; refresh_tokens = old_token ∷ [] }

abbrev drawn : Drawn
drawn = record { jti = "j1"; refresh_token = "two"; row_id = "r2"; now = 1000 }

abbrev drawn_next : Drawn
drawn_next = record { jti = "j2"; refresh_token = "three"; row_id = "r3"; now = 2000 }

abbrev dto : String → LoginDto
dto password = record { tenant_slug = "acme"; email = "ada@acme.example"; password = password }

abbrev session : Session
session = record {
  tokens = record { token = "u1@" <> id_a <> "#j1"; refresh_token = "two" };
  user = ada;
  tenant = acme;
}

abbrev db_logged_in : Database
db_logged_in = record db { refresh_tokens = new_row toy drawn "u1" id_a ∷ old_token ∷ [] }

logs_in : login toy (dto "secret") drawn db ≡ (ok session, db_logged_in)
unfolding login check_credentials find_tenant find_user_by_email issue_refresh_token claims_of
logs_in = refl

login-LoggedIn_example : LoggedIn toy (dto "secret") drawn db session db_logged_in
login-LoggedIn_example = login-LoggedIn toy (dto "secret") drawn db db_logged_in session logs_in

wrong_password : login toy (dto "guess") drawn db ≡ (unauthorized invalid_credentials, db)
unfolding login check_credentials find_tenant find_user_by_email issue_refresh_token claims_of
wrong_password = refl

acme_found : find_tenant "acme" db ≡ some acme
unfolding find_tenant
acme_found = refl

-- The rotation.
abbrev rotated : Database
rotated = record db {
  refresh_tokens = new_row toy drawn "u1" id_a ∷ record old_token { revoked_at = some 1000 } ∷ [];
}

abbrev tokens : Tokens
tokens = record { token = "u1@" <> id_a <> "#j1"; refresh_token = "two" }

refreshes : refresh toy "one" drawn db ≡ (ok tokens, rotated)
unfolding refresh validate_refresh rotate revoke issue_refresh_token claims_of find_refresh_token
    find_user_by_id
refreshes = refl

refresh_again_example :
    refresh toy "one" drawn_next rotated ≡ (unauthorized invalid_refresh_token, rotated)
refresh_again_example =
    refresh_again toy "one" drawn drawn_next db rotated tokens (tt, tt)
      (==→ne "sha:two" "sha:one" refl) refreshes

valid_at : validate_refresh toy "one" 1000 db ≡ ok (old_token, ada)
unfolding validate_refresh find_refresh_token find_user_by_id
valid_at = refl

valid_later : validate_refresh toy "one" 2000 db ≡ ok (old_token, ada)
unfolding validate_refresh find_refresh_token find_user_by_id
valid_later = refl

refresh_raced_example :
    (find_refresh_token "sha:two" (raced toy old_token ada drawn drawn_next db)
      ≡ some (new_row toy drawn "u1" id_a))
    × (find_refresh_token "sha:three" (raced toy old_token ada drawn drawn_next db)
        ≡ some (new_row toy drawn_next "u1" id_a))
refresh_raced_example =
    refresh_raced toy "one" drawn drawn_next db old_token ada valid_at valid_later
      (==→ne "sha:two" "sha:three" refl) (==→ne "r2" "r1" refl)

-- The logout.
abbrev claims : JwtClaims
claims = record {
  sub = "u1";
  tenant_id = id_a;
  roles = [];
  email = none;
  iat = 0;
  exp = 900;
  jti = some "j1";
}

can_activate-logout_example :
    (10000 / 1000 < 900
      → can_activate
          (memory String)
          false
          (some claims)
          (some tenant_a)
          (logout (memory String) "j1" 900 10000 [])
        ≡ (if id_a == id_a then denied 401 else denied 403))
    × (900 ≤ 10000 / 1000 → logout (memory String) "j1" 900 10000 [] ≡ [])
can_activate-logout_example =
    can_activate-logout (memory String) claims "j1" tenant_a 10000 [] refl refl
