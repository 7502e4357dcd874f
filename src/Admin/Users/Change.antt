-- ===== src/Admin/Users/Change.antt =====
-- `updateUser`, `setActive` and `deleteUser` of
-- backend/src/api/v1/admin/tenants/admin-users.service.ts.
use crm_multi_tenant_saas_ar.Prelude.{
  Bool, true, false, not, ◌&&◌, String, Option, none, some, List, [], ◌∷◌, ◌==◌, filter, find, any,
  if◌then◌else◌,
}
use crm_multi_tenant_saas_ar.Dal.Uuid.{is_uuid}
use crm_multi_tenant_saas_ar.Admin.Users.{
  UserRow, UserTables, TenantUser, bad_request, not_found, sql_error, Body, threw, left, Ended,
  refused, row_to_user, is_valid_role, seed_roles, is_user, is_link, find_role, role_of, link_role,
  with_tenant, linked,
}

pub record UpdateUserInput : Type 0 where
  pub name : Option String
  pub email : Option String
  pub role : Option String
  -- The hash of a password that is given and not empty.
  pub password_hash : Option String

-- `input.role`, where it is not empty.
abbrev pub given_role : Option String → Option String
given_role none = none
given_role (some role) = if role == "" then none else some role

abbrev pub or_old : Option String → String → String
or_old none old = old
or_old (some new) old = new

abbrev pub changed_user : UpdateUserInput → UserRow → UserRow
changed_user given u = record u {
  name = or_old given.name u.name;
  email = or_old given.email u.email;
  password_hash = or_old given.password_hash u.password_hash;
}

-- Another user of the tenant has the new address.
abbrev pub email_taken : String → String → Option String → List UserRow → Bool
email_taken tenant_id id none users = false
email_taken tenant_id id (some email) users =
    any (λ u. (u.tenant_id == tenant_id) && (u.email == email) && not (u.id == id)) users

unfoldable pub change_users : String → String → (UserRow → UserRow) → List UserRow → List UserRow
change_users tenant_id id f [] = []
change_users tenant_id id f (u ∷ users) =
    (if is_user tenant_id id u then f u else u) ∷ change_users tenant_id id f users

-- The new role takes the place of all that the user had.
abbrev pub replace_role :
    String × String → String → String → UserRow → Option String → UserTables → Body TenantUser
replace_role drawn tenant_id id u none s = left s (row_to_user u (role_of tenant_id id s))
replace_role drawn tenant_id id u (some role) s =
    let seeded = seed_roles drawn tenant_id s in
    linked (row_to_user u (some role)) (
      link_role tenant_id id (find_role tenant_id role seeded.roles) (record seeded {
        user_roles = filter (λ l. not (is_link tenant_id id l)) seeded.user_roles;
      }))

-- `if (!res.rows[0]) throw new NotFoundException(…)`
abbrev pub if_found : {A : Type 0} → Option UserRow → (UserRow → Body A) → Body A
if_found none next = threw not_found
if_found (some u) next = next u

-- Where nothing is given for a column, `changed_user` leaves the row as it is, as the SELECT does.
abbrev pub update_body :
    String × String → String → String → UpdateUserInput → UserTables → Body TenantUser
update_body drawn tenant_id id given s = if_found (find (is_user tenant_id id) s.users) λ u.
    if email_taken tenant_id id given.email s.users
    then threw sql_error
    else replace_role drawn tenant_id id (changed_user given u) (given_role given.role)
        (record s { users = change_users tenant_id id (changed_user given) s.users })

abbrev pub is_acceptable : Option String → Bool
is_acceptable none = true
is_acceptable (some role) = is_valid_role role

unfoldable pub update_user :
    String × String → String → String → UpdateUserInput → UserTables → Ended TenantUser
unfolding seed_roles role_of link_role with_tenant change_users
update_user drawn tenant_id id given s =
    if is_uuid id && is_acceptable (given_role given.role)
    then with_tenant tenant_id (update_body drawn tenant_id id given) s
    else refused s bad_request

abbrev pub set_active_body : String → String → Bool → UserTables → Body TenantUser
set_active_body tenant_id id is_active s = if_found (find (is_user tenant_id id) s.users) λ u.
    left
      (record s {
        users = change_users tenant_id id (λ v. record v { is_active = is_active }) s.users;
      })
      (row_to_user (record u { is_active = is_active }) (role_of tenant_id id s))

unfoldable pub set_active : String → String → Bool → UserTables → Ended TenantUser
unfolding role_of with_tenant change_users
set_active tenant_id id is_active s =
    if is_uuid id
    then with_tenant tenant_id (set_active_body tenant_id id is_active) s
    else refused s bad_request

-- The links of a deleted user go with it.
abbrev pub delete_body : String → String → UserTables → Body (Unit {0})
delete_body tenant_id id s = if_found (find (is_user tenant_id id) s.users) λ _.
    left
      (record s {
        users = filter (λ u. not (is_user tenant_id id u)) s.users;
        user_roles = filter (λ l. not (l.user_id == id)) s.user_roles;
      })
      tt

unfoldable pub delete_user : String → String → UserTables → Ended (Unit {0})
unfolding with_tenant
delete_user tenant_id id s =
    if is_uuid id then with_tenant tenant_id (delete_body tenant_id id) s else refused s bad_request
