-- ===== src/Dal/Rls.antt =====
-- Row level security, by the policies of
-- backend/src/db/migrations/20260303000004_plugin_tables.ts: a statement of a session sees the rows
-- of the tenant that its variable `app.tenant_id` names, and may write such rows only.
use crm_multi_tenant_saas_ar.Prelude.{
  ◌≡◌, refl, ap, ◌∙◌, Bool, false, not, ◌&&◌, String, Option, none, some, List, [], ◌∷◌, ◌==◌,
  arith, eq_iff, filter, find, if◌then◌else◌, Bool-cases, inl, inr,
}

-- A table with its columns `tenant_id` and `id`.
pub record Keys (R : Type 0) : Type 0 where
  pub tenant_id : R → String
  pub id : R → String

module _ {R : Type 0} (k : Keys R) where
  -- `USING (tenant_id = current_setting('app.tenant_id', true)::uuid)`
  unfoldable pub is_visible : String → R → Bool
  is_visible session r = k.tenant_id r == session

  unfoldable pub select : String → (R → Bool) → List R → List R
  unfolding is_visible
  select session test rows = filter (λ r. is_visible session r && test r) rows

  -- `.where({ id }).first()`
  unfoldable pub first_by_id : String → String → List R → Option R
  unfolding is_visible
  first_by_id session id rows = find (λ r. is_visible session r && (k.id r == id)) rows

  -- `WITH CHECK`; `none` where the policy refuses the row.
  unfoldable pub insert : String → R → List R → Option (List R)
  unfolding is_visible
  insert session r rows = if is_visible session r then some (r ∷ rows) else none

  -- `.where({ id }).update(patch)`: the visible rows with the key.
  unfoldable pub update_by_id : String → String → (R → R) → List R → List R
  unfolding is_visible
  update_by_id session id f [] = []
  update_by_id session id f (r ∷ rows) =
      (if is_visible session r && (k.id r == id) then f r else r) ∷ update_by_id session id f rows

  -- `.where({ id }).del()`
  unfoldable pub delete_by_id : String → String → List R → List R
  unfolding is_visible
  delete_by_id session id rows = filter (λ r. not (is_visible session r && (k.id r == id))) rows

  -- The rows of a tenant.
  abbrev pub rows_of : String → List R → List R
  rows_of tenant_id rows = filter (λ r. k.tenant_id r == tenant_id) rows

  pub rows_of-insert :
      (session other : String) (r : R) (rows after : List R)
      → (session == other) ≡ false
      → insert session r rows ≡ some after
      → rows_of other after ≡ rows_of other rows
  unfolding insert is_visible
  rows_of-insert session other r rows after ne h = elim (Bool-cases (k.tenant_id r == session)) [
    | inl e ↦
        let hidden : (k.tenant_id r == other) ≡ false =
          ap (λ t. t == other) ((eq_iff (k.tenant_id r) session).0 e) ∙ ne in
        let grown : after ≡ r ∷ rows = ground arith in rw (grown, hidden) refl
    | inr e ↦ absurd (ground arith)
  ]

  pub rows_of-update :
      (session other id : String) (f : R → R) (rows : List R)
      → (session == other) ≡ false
      → ((r : R) → k.tenant_id (f r) ≡ k.tenant_id r)
      → rows_of other (update_by_id session id f rows) ≡ rows_of other rows
  unfolding update_by_id is_visible
  rows_of-update session other id f [] ne keeps = refl
  rows_of-update session other id f (r ∷ rows) ne keeps =
      let ih = rows_of-update session other id f rows ne keeps in
      elim (Bool-cases (k.tenant_id r == session)) [
        | inl e ↦
            let own = (eq_iff (k.tenant_id r) session).0 e in
            let hidden : (k.tenant_id r == other) ≡ false = ap (λ t. t == other) own ∙ ne in
            let hidden_after : (k.tenant_id (f r) == other) ≡ false =
              ap (λ t. t == other) (keeps r) ∙ hidden in
            elim (Bool-cases (k.id r == id)) [
              | inl i ↦ rw (e, i, hidden, hidden_after) ih
              | inr i ↦ rw (e, i, hidden) ih
            ]
        | inr e ↦ rw (e, ih) refl
      ]

  pub rows_of-delete :
      (session other id : String) (rows : List R)
      → (session == other) ≡ false
      → rows_of other (delete_by_id session id rows) ≡ rows_of other rows
  unfolding delete_by_id is_visible
  rows_of-delete session other id [] ne = refl
  rows_of-delete session other id (r ∷ rows) ne =
      let ih = rows_of-delete session other id rows ne in
      elim (Bool-cases (k.tenant_id r == session)) [
        | inl e ↦
            let own = (eq_iff (k.tenant_id r) session).0 e in
            let hidden : (k.tenant_id r == other) ≡ false = ap (λ t. t == other) own ∙ ne in
            elim (Bool-cases (k.id r == id)) [
              | inl i ↦ rw (e, i, hidden) ih
              | inr i ↦ rw (e, i, hidden) ih
            ]
        | inr e ↦ rw (e, ih) refl
      ]
