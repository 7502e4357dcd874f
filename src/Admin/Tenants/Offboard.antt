-- ===== src/Admin/Tenants/Offboard.antt =====
-- What is left of a tenant after its offboarding.
use crm_multi_tenant_saas_ar.Prelude.{
  ◌≡◌, refl, Bool, false, not, ◌&&◌, String, Option, none, some, List, [], ◌∷◌, ◌==◌, arith, eq_iff,
  eq_refl, map, find, if◌then◌else◌, Bool-cases, Option-cases, inl, inr,
}
use crm_multi_tenant_saas_ar.Prelude.Dict.{lookup, lookup-remove_self}
use crm_multi_tenant_saas_ar.Dal.Quota.{deregister}
use crm_multi_tenant_saas_ar.Dal.Cache.{
  Redis, flush_tenant, invalidate_tenant_lookup, get_tenant_lookup,
}
use crm_multi_tenant_saas_ar.Dal.Cache.Isolation.{get_tenant_lookup-invalidate}
use crm_multi_tenant_saas_ar.Gateway.Resolver.{Cached}
use crm_multi_tenant_saas_ar.Admin.Tables.{
  TenantRow, Database, row_of, change_row, find_tenant, update_tenant, disable_all,
}
use crm_multi_tenant_saas_ar.Admin.Tables.Enabled.{on, on-disable_all}
use crm_multi_tenant_saas_ar.Admin.World.{World, Message, data_export, audit, send, and_then}
use crm_multi_tenant_saas_ar.Admin.Tenants.{
  offboard_db, finish_offboard, release_all, release_flushed, offboard_row, offboard,
  admin_email_of,
}

-- An update that keeps the keys changes the row of the tenant, and no other one.
find-update_rows :
    (id other : String) (f : TenantRow → TenantRow) (rows : List TenantRow)
    → ((t : TenantRow) → (f t).id ≡ t.id)
    → find (row_of other) (map (change_row id f) rows)
      ≡ (elim (find (row_of other) rows) [ none ↦ none | some t ↦ some (change_row id f t) ])
find-update_rows id other f [] keeps = refl
find-update_rows id other f (t ∷ rows) keeps =
    let ih = find-update_rows id other f rows keeps in
    ground (arith, ih, keeps t, eq_iff t.id id, eq_iff t.id other)

pub find_tenant-update_tenant :
    (id other : String) (f : TenantRow → TenantRow) (db : Database)
    → ((t : TenantRow) → (f t).id ≡ t.id)
    → find_tenant other (update_tenant id f db)
      ≡ (elim (find_tenant other db) [ none ↦ none | some t ↦ some (change_row id f t) ])
unfolding find_tenant update_tenant
find_tenant-update_tenant id other f db keeps = find-update_rows id other f db.tenants keeps

-- The id of a row that is found.
pub find_tenant-id :
    (id : String) (db : Database) (row : TenantRow) → find_tenant id db ≡ some row → row.id ≡ id
unfolding find_tenant
find_tenant-id id db row h = go db.tenants h
  where
    go : (rows : List TenantRow) → find (row_of id) rows ≡ some row → row.id ≡ id
    go [] e = absurd (ground arith)
    go (t ∷ rows) e = elim (Bool-cases (t.id == id)) [
      | inl d ↦ ground (arith, eq_iff t.id id)
      | inr d ↦ go rows (ground arith)
    ]

-- The row of an offboarded tenant.
abbrev pub offboarded_row : TenantRow → TenantRow
offboarded_row t = record t { status = "offboarded"; is_active = false; subdomain = none }

find_tenant-offboard_db :
    (id other : String) (db : Database)
    → find_tenant other (offboard_db id db) ≡ (elim (find_tenant other db) [
      | none ↦ none
      | some t ↦ some (if t.id == id then offboarded_row t else t)
    ])
unfolding offboard_db find_tenant
find_tenant-offboard_db id other db =
    let lock : TenantRow → TenantRow =
      λ t. record t { status = "offboarding"; is_active = false } in
    let close : TenantRow → TenantRow = λ t. record t { status = "offboarded"; subdomain = none } in
    let locked = update_tenant id lock db in
    let first = find_tenant-update_tenant id other lock db (λ t. refl) in
    let second =
      find_tenant-update_tenant id other close
        (record locked { plugins = disable_all id locked.plugins }) (λ t. refl) in
    ground (arith, first, second)

module _ (redis : Redis Cached) (accepts : Message → Bool) where
  open redis use {Store}

  -- The last steps change neither the tables, nor the slots, nor the cache.
  finish_offboard-kept :
      (id : String) (row : TenantRow) (email : Option String) (w : World Store)
      → ((finish_offboard redis accepts id row email w).0.db ≡ w.db)
        × ((finish_offboard redis accepts id row email w).0.slots ≡ w.slots)
        × ((finish_offboard redis accepts id row email w).0.cache ≡ w.cache)
  unfolding finish_offboard send and_then
  finish_offboard-kept id row email w =
      elim (Bool-cases (accepts (audit id "tenant.offboarded" id))) [
        | inl a ↦ elim (Bool-cases (accepts (data_export id row.name row.tier email))) [
          | inl b ↦ elim (Bool-cases (row.tier == "vip")) [
            | inl v ↦ rw (a, b, v) (refl, refl, refl)
            | inr v ↦ rw (a, b, v) (refl, refl, refl)
          ]
          | inr b ↦ rw (a, b) (refl, refl, refl)
        ]
        | inr a ↦ rw a (refl, refl, refl)
      ]

  -- What an offboarding leaves behind, whether or not the brokers are up.
  pub record Gone (id : String) (sub : String) (row : TenantRow) (w w' : World Store) : Type 0 where
    pub closed : find_tenant id w'.db ≡ some (offboarded_row row)
    pub no_plugins : (j : String) → on id j w'.db.plugins ≡ false
    pub no_slot : lookup id w'.slots.entries ≡ none
    pub uncached : get_tenant_lookup redis id w'.cache ≡ none
    pub uncached_subdomain : get_tenant_lookup redis sub w'.cache ≡ none
    -- Every other tenant is as it was.
    pub others :
        (other : String)
        → (id == other) ≡ false
        → (find_tenant other w'.db ≡ find_tenant other w.db)
          × ((j : String) → on other j w'.db.plugins ≡ on other j w.db.plugins)

  offboard_db-others :
      (id other : String) (db : Database)
      → (id == other) ≡ false
      → find_tenant other (offboard_db id db) ≡ find_tenant other db
  offboard_db-others id other db ne = elim (Option-cases (find_tenant other db)) [
    | inl e ↦ rw (find_tenant-offboard_db id other db, e) refl
    | inr (t, e) ↦
        let own = find_tenant-id other db t e in
        rw (find_tenant-offboard_db id other db, e)
          (ground (arith, own, eq_iff t.id id, eq_iff id other))
  ]

  plugins-offboard_db :
      (id other j : String) (db : Database)
      → on other j (offboard_db id db).plugins ≡ (not (id == other) && on other j db.plugins)
  unfolding offboard_db update_tenant
  plugins-offboard_db id other j db = on-disable_all id other j db.plugins

  -- After an offboarding whose cache scans have ended the tenant is closed, inactive and without a
  -- subdomain, no plugin of it is enabled, its slot is gone, and the cache finds it neither by its
  -- id nor by its old subdomain; the other tenants' rows and plugins are as before. This holds
  -- also where a broker is down and the call fails after its commit.
  pub offboard-Gone :
      (id sub : String) (application rate : List (String × List String)) (w : World Store)
      (row : TenantRow) (cache : Store)
      → find_tenant id w.db ≡ some row
      → row.subdomain ≡ some sub
      → (sub == "") ≡ false
      → flush_tenant redis id application rate w.cache ≡ some cache
      → Gone id sub row w (offboard redis accepts id application rate w).0
  unfolding offboard offboard_row release_all release_flushed deregister
  offboard-Gone id sub application rate w row cache found named ne flushed =
      let freed : World Store = record w {
        db = offboard_db id w.db;
        slots = deregister id w.slots;
      } in
      let last : World Store = record freed {
        cache = invalidate_tenant_lookup redis id row.subdomain cache;
      } in
      let kept = finish_offboard-kept id row (admin_email_of id w.db) last in
      let result : (offboard redis accepts id application rate w)
          ≡ finish_offboard redis accepts id row (admin_email_of id w.db) last =
        rw (found, offboard_row, release_all, flushed) refl in
      let lookups = λ (other : String). get_tenant_lookup-invalidate redis id sub other cache ne in
      rw result (record {
        closed = rw kept.0 (
            rw (find_tenant-offboard_db id id w.db, found)
              (ground (arith, find_tenant-id id w.db row found, eq_iff row.id id)));
        no_plugins = λ j. rw kept.0 (rw (plugins-offboard_db id id j w.db, eq_refl id) refl);
        no_slot = rw kept.1 (lookup-remove_self id w.slots.entries);
        uncached = rw (kept.2, named) (ground (arith, lookups id, eq_refl id));
        uncached_subdomain = rw (kept.2, named) (ground (arith, lookups sub, eq_refl sub));
        others = λ other ne'. (
          rw kept.0 (offboard_db-others id other w.db ne'),
          λ j. rw kept.0 (rw (plugins-offboard_db id other j w.db, ne') refl),
        );
      })
