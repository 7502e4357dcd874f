-- ===== src/Admin/Users.antt =====
-- backend/src/api/v1/admin/tenants/admin-users.service.ts: the users of a tenant, on the tables of
-- backend/src/db/migrations/20260222000001_init_schema.ts.
pub mod Change
pub mod Links
pub mod Roles
use crm_multi_tenant_saas_ar.Prelude.{
  ℕ, Bool, true, false, not, ◌&&◌, ◌||◌, String, Option, none, some, List, [], ◌∷◌, ◌==◌, map,
  filter, find, any, if◌then◌else◌,
}
use crm_multi_tenant_saas_ar.Dal.Uuid.{is_uuid}

pub record UserRow : Type 0 where
  pub id : String
  pub tenant_id : String
  pub name : String
  pub email : String
  pub password_hash : String
  pub is_active : Bool
  pub created_at : ℕ

pub record RoleRow : Type 0 where
  pub id : String
  pub tenant_id : String
  pub name : String

pub record UserRole : Type 0 where
  pub user_id : String
  pub role_id : String
  pub tenant_id : String

pub record UserTables : Type 0 where
  pub users : List UserRow
  pub roles : List RoleRow
  pub user_roles : List UserRole

-- What `rowToUser` answers.
pub record TenantUser : Type 0 where
  pub id : String
  pub name : String
  pub email : String
  pub role : Option String
  pub is_active : Bool
  pub created_at : ℕ

pub data UserError : Type 0 where
  bad_request not_found conflict : UserError
  -- Another error of PostgreSQL.
  sql_error : UserError

-- A callback inside the transaction: it throws, or leaves its tables with an answer.
pub data Body (A : Type 0) : Type 0 where
  threw : UserError → Body A
  left : UserTables → A → Body A

-- What a call leaves: its tables, and the error or the answer.
pub data Ended (A : Type 0) : Type 0 where
  refused : UserTables → UserError → Ended A
  answered : UserTables → A → Ended A

abbrev pub row_to_user : UserRow → Option String → TenantUser
row_to_user u role = record {
  id = u.id;
  name = u.name;
  email = u.email;
  role = role;
  is_active = u.is_active;
  created_at = u.created_at;
}

abbrev pub is_valid_role : String → Bool
is_valid_role role = role == "admin" || role == "manager"

-- `INSERT … ON CONFLICT (tenant_id, name) DO NOTHING`, of one role; the key is drawn.
abbrev pub seed_role : String → String → String → List RoleRow → List RoleRow
seed_role id tenant_id name roles =
    if any (λ r. (r.tenant_id == tenant_id) && (r.name == name)) roles
    then roles
    else record { id = id; tenant_id = tenant_id; name = name } ∷ roles

-- `seedRoles`
unfoldable pub seed_roles : String × String → String → UserTables → UserTables
seed_roles drawn tenant_id s = record s {
  roles = seed_role drawn.1 tenant_id "manager" (seed_role drawn.0 tenant_id "admin" s.roles);
}

abbrev pub is_user : String → String → UserRow → Bool
is_user tenant_id id u = (u.tenant_id == tenant_id) && (u.id == id)

abbrev pub is_link : String → String → UserRole → Bool
is_link tenant_id user_id l = (l.user_id == user_id) && (l.tenant_id == tenant_id)

abbrev pub find_role : String → String → List RoleRow → Option RoleRow
find_role tenant_id name roles = find (λ r. (r.tenant_id == tenant_id) && (r.name == name)) roles

-- The name of a user's role, by the join.
unfoldable pub role_among : List RoleRow → List UserRole → Option String
role_among roles [] = none
role_among roles (l ∷ links) =
    let later = role_among roles links in
    elim (find (λ r. r.id == l.role_id) roles) [ none ↦ later | some r ↦ some r.name ]

unfoldable pub role_of : String → String → UserTables → Option String
unfolding role_among
role_of tenant_id user_id s = role_among s.roles (filter (is_link tenant_id user_id) s.user_roles)

-- `INSERT INTO user_roles`, with its primary key; the role is the one found, and an undefined one
-- throws.
unfoldable pub link_role : String → String → Option RoleRow → UserTables → Option UserTables
link_role tenant_id user_id none s = none
link_role tenant_id user_id (some role) s =
    if any (λ l. (l.user_id == user_id) && (l.role_id == role.id)) s.user_roles
    then none
    else some (record s {
      user_roles =
          record { user_id = user_id; role_id = role.id; tenant_id = tenant_id } ∷ s.user_roles;
    })

-- `withTenant`: BEGIN, and COMMIT or ROLLBACK.
unfoldable pub with_tenant : {A : Type 0} → String → (UserTables → Body A) → UserTables → Ended A
with_tenant tenant_id body s =
    if is_uuid tenant_id
    then elim (body s) [ threw e ↦ refused s e | left t a ↦ answered t a ]
    else refused s bad_request

-- `by_id` is the order that PostgreSQL gives the rows.
abbrev pub list_body :
    (List TenantUser → List TenantUser)
    → String × String
    → String
    → UserTables
    → Body (List TenantUser)
list_body by_id drawn tenant_id s =
    let seeded = seed_roles drawn tenant_id s in
    left seeded (
      by_id (
        map (λ u. row_to_user u (role_of tenant_id u.id seeded))
          (filter (λ u. u.tenant_id == tenant_id) seeded.users)))

unfoldable pub list_users :
    (List TenantUser → List TenantUser)
    → String × String
    → String
    → UserTables
    → Ended (List TenantUser)
unfolding seed_roles role_of with_tenant
list_users by_id drawn tenant_id s = with_tenant tenant_id (list_body by_id drawn tenant_id) s

pub record CreateUserInput : Type 0 where
  pub name : String
  pub email : String
  pub role : String

-- What is drawn for a new user: its key, the time, and the hash of the password.
pub record NewUser : Type 0 where
  pub id : String
  pub now : ℕ
  pub password_hash : String

abbrev pub new_user : NewUser → String → CreateUserInput → UserRow
new_user fresh tenant_id given = record {
  id = fresh.id;
  tenant_id = tenant_id;
  name = given.name;
  email = given.email;
  password_hash = fresh.password_hash;
  is_active = true;
  created_at = fresh.now;
}

abbrev pub has_email : String → String → List UserRow → Bool
has_email tenant_id email users = any (λ u. (u.tenant_id == tenant_id) && (u.email == email)) users

abbrev pub linked : TenantUser → Option UserTables → Body TenantUser
linked user none = threw sql_error
linked user (some s) = left s user

abbrev pub create_body :
    String × String → NewUser → String → CreateUserInput → UserTables → Body TenantUser
create_body drawn fresh tenant_id given s =
    let seeded = seed_roles drawn tenant_id s in
    let stored = record seeded { users = new_user fresh tenant_id given ∷ seeded.users } in
    if has_email tenant_id given.email seeded.users
    then threw conflict
    else linked (row_to_user (new_user fresh tenant_id given) (some given.role))
        (link_role tenant_id fresh.id (find_role tenant_id given.role seeded.roles) stored)

unfoldable pub create_user :
    String × String → NewUser → String → CreateUserInput → UserTables → Ended TenantUser
unfolding seed_roles link_role with_tenant
create_user drawn fresh tenant_id given s =
    if is_valid_role given.role
    then with_tenant tenant_id (create_body drawn fresh tenant_id given) s
    else refused s bad_request
