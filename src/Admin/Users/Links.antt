-- ===== src/Admin/Users/Links.antt =====
-- The rows of `user_roles`.
use crm_multi_tenant_saas_ar.Prelude.{
  ◌≡◌, ◌≤◌, refl, subst, Bool, not, ◌&&◌, String, Option, none, some, List, [], ◌∷◌, ◌==◌, arith,
  eq_iff, filter, any, length, Bool-cases, inl, inr,
}
use crm_multi_tenant_saas_ar.Dal.Uuid.{is_uuid}
use crm_multi_tenant_saas_ar.Admin.Users.{
  RoleRow, UserRole, UserTables, TenantUser, Body, threw, left, Ended, refused, answered, is_link,
  link_role, linked, with_tenant,
}

abbrev pub tables_of : {A : Type 0} → Ended A → UserTables
tables_of (refused s _) = s
tables_of (answered s _) = s

-- No user of a tenant has more than one row in `user_roles`.
abbrev pub OneRole : List UserRole → Type 0
OneRole links = (tenant_id user_id : String) → length (filter (is_link tenant_id user_id) links) ≤ 1

-- What a body leaves keeps a property of the links, or it throws.
abbrev pub LeavesOneRole : {A : Type 0} → Body A → Type 0
LeavesOneRole (threw e) = Unit
LeavesOneRole (left s a) = OneRole s.user_roles

pub with_tenant-OneRole :
    {A : Type 0} (tenant_id : String) (body : UserTables → Body A) (s : UserTables)
    → LeavesOneRole (body s)
    → OneRole s.user_roles
    → OneRole (tables_of (with_tenant tenant_id body s)).user_roles
unfolding with_tenant
with_tenant-OneRole tenant_id body s kept h = elim (Bool-cases (is_uuid tenant_id)) [
  | inl e ↦ rw e (cases (body s) kept)
  | inr e ↦ rw e h
]
  where
    cases :
        {A : Type 0} (b : Body A)
        → LeavesOneRole b
        → OneRole
            (tables_of (elim b [ threw e ↦ refused s e | left t a ↦ answered t a ])).user_roles
    cases (threw e) k = h
    cases (left t a) k = k

-- Fewer links are no more for any user.
pub filter-OneRole :
    (test : UserRole → Bool) (links : List UserRole) → OneRole links → OneRole (filter test links)
filter-OneRole test links h tenant_id user_id =
    let fewer = shorter links tenant_id user_id in let most = h tenant_id user_id in omega arith
  where
    shorter :
        (links : List UserRole) (tenant_id user_id : String)
        → length (filter (is_link tenant_id user_id) (filter test links))
          ≤ length (filter (is_link tenant_id user_id) links)
    shorter [] tenant_id user_id = omega arith
    shorter (l ∷ links) tenant_id user_id =
        let ih = shorter links tenant_id user_id in
        elim (Bool-cases (test l)) [
          | inl e ↦ elim (Bool-cases (is_link tenant_id user_id l)) [
            | inl i ↦ rw (e, i) (omega arith)
            | inr i ↦ rw (e, i) ih
          ]
          | inr e ↦ elim (Bool-cases (is_link tenant_id user_id l)) [
            | inl i ↦ rw (e, i) (omega arith)
            | inr i ↦ rw (e, i) ih
          ]
        ]

-- A link more, for a user that has none in the tenant.
pub link_role-OneRole :
    (tenant_id id : String) (role : Option RoleRow) (user : TenantUser) (s : UserTables)
    → filter (is_link tenant_id id) s.user_roles ≡ []
    → OneRole s.user_roles
    → LeavesOneRole (linked user (link_role tenant_id id role s))
unfolding link_role
link_role-OneRole tenant_id id none user s nothing h = tt
link_role-OneRole tenant_id id (some role) user s nothing h =
    elim (Bool-cases (any (λ l. (l.user_id == id) && (l.role_id == role.id)) s.user_roles)) [
      | inl e ↦ rw e tt
      | inr e ↦ rw e (λ t u. count t u)
    ]
  where
    count :
        (t u : String)
        → length (
            filter
              (is_link t u)
              (record { user_id = id; role_id = role.id; tenant_id = tenant_id } ∷ s.user_roles))
          ≤ 1
    count t u = elim (Bool-cases ((id == u) && (tenant_id == t))) [
      | inl e ↦
          let same_user : id ≡ u = (eq_iff id u).0 (ground arith) in
          let same_tenant : tenant_id ≡ t = (eq_iff tenant_id t).0 (ground arith) in
          let none_there : filter (is_link t u) s.user_roles ≡ [] =
            subst (λ k. filter (is_link k u) s.user_roles ≡ []) same_tenant
              (subst (λ k. filter (is_link tenant_id k) s.user_roles ≡ []) same_user nothing) in
          rw (e, none_there) (omega arith)
      | inr e ↦ rw e (h t u)
    ]

-- Links that were deleted are not there.
pub filter-removed :
    (tenant_id id : String) (links : List UserRole)
    → filter (is_link tenant_id id) (filter (λ l. not (is_link tenant_id id l)) links) ≡ []
filter-removed tenant_id id [] = refl
filter-removed tenant_id id (l ∷ links) =
    let ih = filter-removed tenant_id id links in
    elim (Bool-cases (is_link tenant_id id l)) [
      | inl e ↦ rw (e, ih) refl
      | inr e ↦ rw (e, e, ih) refl
    ]

pub no_links :
    (tenant_id id : String) (links : List UserRole)
    → filter (λ l. l.user_id == id) links ≡ []
    → filter (is_link tenant_id id) links ≡ []
no_links tenant_id id [] h = refl
no_links tenant_id id (l ∷ links) h = elim (Bool-cases (l.user_id == id)) [
  | inl e ↦ absurd (ground arith)
  | inr e ↦ rw e (no_links tenant_id id links (ground arith))
]
