-- ===== src/Admin/Users/Roles.antt =====
-- How many roles a user has.
use crm_multi_tenant_saas_ar.Prelude.{
  ◌≡◌, Bool, not, ◌&&◌, String, Option, none, some, List, [], ◌==◌, filter, find, Bool-cases, inl,
  inr,
}
use crm_multi_tenant_saas_ar.Dal.Uuid.{is_uuid}
use crm_multi_tenant_saas_ar.Admin.Users.{
  UserRow, UserTables, TenantUser, CreateUserInput, NewUser, Body, is_link, seed_roles, list_users,
  list_body, create_user, create_body, has_email, is_valid_role, new_user, row_to_user, is_user,
}
use crm_multi_tenant_saas_ar.Admin.Users.Change.{
  UpdateUserInput, update_user, update_body, replace_role, given_role, if_found, changed_user,
  change_users, email_taken, is_acceptable, set_active, set_active_body, delete_user, delete_body,
}
use crm_multi_tenant_saas_ar.Admin.Users.Links.{
  tables_of, OneRole, LeavesOneRole, with_tenant-OneRole, filter-OneRole, link_role-OneRole,
  filter-removed, no_links,
}

pub data UserOperation : Type 0 where
  lists : String × String → UserOperation
  creates : String × String → NewUser → CreateUserInput → UserOperation
  updates : String × String → String → UpdateUserInput → UserOperation
  sets_active : String → Bool → UserOperation
  deletes : String → UserOperation

abbrev pub perform :
    (List TenantUser → List TenantUser) → String → UserOperation → UserTables → UserTables
perform by_id tenant_id (lists drawn) s = tables_of (list_users by_id drawn tenant_id s)
perform by_id tenant_id (creates drawn fresh given) s =
    tables_of (create_user drawn fresh tenant_id given s)
perform by_id tenant_id (updates drawn id given) s =
    tables_of (update_user drawn tenant_id id given s)
perform by_id tenant_id (sets_active id is_active) s =
    tables_of (set_active tenant_id id is_active s)
perform by_id tenant_id (deletes id) s = tables_of (delete_user tenant_id id s)

-- The key that is drawn for a new user is in no row of `user_roles`.
abbrev pub IsFresh : UserOperation → UserTables → Type 0
IsFresh (creates drawn fresh given) s = filter (λ l. l.user_id == fresh.id) s.user_roles ≡ []
IsFresh _ s = Unit

replace_role-OneRole :
    (drawn : String × String) (tenant_id id : String) (u : UserRow) (role : Option String)
    (s : UserTables)
    → OneRole s.user_roles
    → LeavesOneRole (replace_role drawn tenant_id id u role s)
unfolding seed_roles
replace_role-OneRole drawn tenant_id id u none s h = h
replace_role-OneRole drawn tenant_id id u (some role) s h =
    link_role-OneRole tenant_id id _ (row_to_user u (some role)) _
      (filter-removed tenant_id id s.user_roles)
      (filter-OneRole (λ l. not (is_link tenant_id id l)) s.user_roles h)

if_found-OneRole :
    {A : Type 0} (u : Option UserRow) (next : UserRow → Body A)
    → ((v : UserRow) → LeavesOneRole (next v))
    → LeavesOneRole (if_found u next)
if_found-OneRole none next h = tt
if_found-OneRole (some u) next h = h u

update_body-OneRole :
    (drawn : String × String) (tenant_id id : String) (given : UpdateUserInput) (s : UserTables)
    → OneRole s.user_roles
    → LeavesOneRole (update_body drawn tenant_id id given s)
update_body-OneRole drawn tenant_id id given s h =
    if_found-OneRole (find (is_user tenant_id id) s.users) _ λ u.
      elim (Bool-cases (email_taken tenant_id id given.email s.users)) [
        | inl t ↦ rw t tt
        | inr t ↦ rw t (
            replace_role-OneRole drawn tenant_id id (changed_user given u) (given_role given.role)
              (record s { users = change_users tenant_id id (changed_user given) s.users }) h)
      ]

create_body-OneRole :
    (drawn : String × String) (fresh : NewUser) (tenant_id : String) (given : CreateUserInput)
    (s : UserTables)
    → filter (λ l. l.user_id == fresh.id) s.user_roles ≡ []
    → OneRole s.user_roles
    → LeavesOneRole (create_body drawn fresh tenant_id given s)
unfolding seed_roles
create_body-OneRole drawn fresh tenant_id given s unused h =
    elim (Bool-cases (has_email tenant_id given.email s.users)) [
      | inl e ↦ rw e tt
      | inr e ↦ rw e (
          link_role-OneRole tenant_id fresh.id _
            (row_to_user (new_user fresh tenant_id given) (some given.role)) _
            (no_links tenant_id fresh.id s.user_roles unused) h)
    ]

-- Whatever is done with a tenant's users, listing them, creating, changing, switching off or deleting
-- one, and whether it fails or not: if no user of any tenant had more than one role, no user has more
-- than one afterwards, where the key drawn for a new user is in no row of `user_roles`.
pub perform-OneRole :
    (by_id : List TenantUser → List TenantUser) (tenant_id : String) (op : UserOperation)
    (s : UserTables)
    → IsFresh op s
    → OneRole s.user_roles
    → OneRole (perform by_id tenant_id op s).user_roles
unfolding list_users create_user update_user set_active delete_user seed_roles
perform-OneRole by_id tenant_id (lists drawn) s fresh h =
    with_tenant-OneRole tenant_id (list_body by_id drawn tenant_id) s h h
perform-OneRole by_id tenant_id (creates drawn fresh given) s unused h =
    elim (Bool-cases (is_valid_role given.role)) [
      | inl e ↦ rw e (
          with_tenant-OneRole tenant_id (create_body drawn fresh tenant_id given) s
            (create_body-OneRole drawn fresh tenant_id given s unused h) h)
      | inr e ↦ rw e h
    ]
perform-OneRole by_id tenant_id (updates drawn id given) s fresh h =
    elim (Bool-cases (is_uuid id && is_acceptable (given_role given.role))) [
      | inl e ↦ rw e (
          with_tenant-OneRole tenant_id (update_body drawn tenant_id id given) s
            (update_body-OneRole drawn tenant_id id given s h) h)
      | inr e ↦ rw e h
    ]
perform-OneRole by_id tenant_id (sets_active id is_active) s fresh h =
    elim (Bool-cases (is_uuid id)) [
      | inl e ↦
          let kept : LeavesOneRole (set_active_body tenant_id id is_active s) =
            if_found-OneRole (find (is_user tenant_id id) s.users) _ (λ u. h) in
          rw e (with_tenant-OneRole tenant_id (set_active_body tenant_id id is_active) s kept h)
      | inr e ↦ rw e h
    ]
perform-OneRole by_id tenant_id (deletes id) s fresh h = elim (Bool-cases (is_uuid id)) [
  | inl e ↦
      let kept : LeavesOneRole (delete_body tenant_id id s) =
        if_found-OneRole (find (is_user tenant_id id) s.users) _
          (λ u. filter-OneRole (λ l. not (l.user_id == id)) s.user_roles h) in
      rw e (with_tenant-OneRole tenant_id (delete_body tenant_id id) s kept h)
  | inr e ↦ rw e h
]
