-- ===== src/Auth/Rotation.antt =====
-- The rotation of refresh tokens.
use crm_multi_tenant_saas_ar.Prelude.{
  ℕ, ◌≤◌, ◌≡◌, ◌≢◌, sym, ap, subst, refl, Bool, true, ◌&&◌, String, none, some, List, [], ◌∷◌, ◌==◌,
  arith, eq_iff, eq_refl, if◌then◌else◌, find, map, All, Bool-cases, Option-cases, inl, inr, ne→==,
}
use crm_multi_tenant_saas_ar.Auth.{
  RefreshToken, Database, UserRow, Crypto, Drawn, Result, ok, unauthorized, Tokens, AuthError,
  invalid_refresh_token, is_null, find_refresh_token, find_user_by_id, revoke, issue_refresh_token,
  new_row, validate_refresh, rotate, refresh,
}

-- The UNIQUE constraint on `token_hash`.
abbrev pub UniqueHash : List RefreshToken → Type 0
UniqueHash [] = Unit
UniqueHash (rt ∷ rts) = All (λ other. rt.token_hash ≢ other.token_hash) rts × UniqueHash rts

abbrev Sole : String → String → RefreshToken → Type 0
Sole hash id r = r.token_hash ≡ hash → r.revoked_at ≡ none → r.id ≡ id

abbrev live : String → RefreshToken → Bool
live hash rt = rt.token_hash == hash && is_null rt.revoked_at

abbrev mark : String → ℕ → RefreshToken → RefreshToken
mark id now rt = if rt.id == id then record rt { revoked_at = some now } else rt

Sole-of_ne :
    (hash id : String) (rts : List RefreshToken)
    → All (λ other. hash ≢ other.token_hash) rts
    → All (Sole hash id) rts
Sole-of_ne hash id [] h = tt
Sole-of_ne hash id (rt ∷ rts) h = (λ e _. absurd (h.0 (sym e)), Sole-of_ne hash id rts h.1)

Sole-find :
    (hash : String) (rts : List RefreshToken) (rt : RefreshToken)
    → UniqueHash rts
    → find (live hash) rts ≡ some rt
    → All (Sole hash rt.id) rts
Sole-find hash [] rt u h = tt
Sole-find hash (x ∷ xs) rt u h = elim (Bool-cases (live hash x)) [
  | inl found ↦
      let same : x ≡ rt = ground arith in
      let hashed : x.token_hash ≡ hash = ground (arith, eq_iff x.token_hash hash) in
      (
        λ _ _. ap (λ (r : RefreshToken). r.id) same,
        Sole-of_ne hash rt.id xs (subst (λ k. All (λ other. k ≢ other.token_hash) xs) hashed u.0),
      )
  | inr other ↦
      let later : find (live hash) xs ≡ some rt = ground arith in
      (λ e n. ground (arith, eq_iff x.token_hash hash), Sole-find hash xs rt u.1 later)
]

find-mark :
    (hash id : String) (now : ℕ) (rts : List RefreshToken)
    → All (Sole hash id) rts
    → find (live hash) (map (mark id now) rts) ≡ none
find-mark hash id now [] h = refl
find-mark hash id now (x ∷ xs) h =
    let ih = find-mark hash id now xs h.1 in
    elim (Option-cases x.revoked_at) [
      | inl n ↦ ground (arith, ih, eq_iff x.token_hash hash, eq_iff x.id id, h.0)
      | inr (t, n) ↦ ground (arith, ih)
    ]

module _ (crypto : Crypto) where
  open crypto use {hash_token}

  validate_refresh-found :
      (raw : String) (now : ℕ) (db : Database) (rt : RefreshToken) (user : UserRow)
      → validate_refresh crypto raw now db ≡ ok (rt, user)
      → (find_refresh_token (hash_token raw) db ≡ some rt)
        × (find_user_by_id rt.user_id rt.tenant_id db ≡ some user)
        × (user.is_active ≡ true)
        × (now ≤ rt.expires_at)
  unfolding validate_refresh
  validate_refresh-found raw now db rt user h =
      elim (Option-cases (find_refresh_token (hash_token raw) db)) [
        | inl e ↦ ground arith
        | inr (r, e) ↦ elim (Option-cases (find_user_by_id r.user_id r.tenant_id db)) [
          | inl e' ↦ ground arith
          | inr (u, e') ↦ ground arith
        ]
      ]

  refresh-eq-ok :
      (raw : String) (drawn : Drawn) (db db' : Database) (tokens : Tokens)
      → refresh crypto raw drawn db ≡ (ok tokens, db')
      → (rt : RefreshToken) × (user : UserRow) × (validate_refresh crypto raw drawn.now db
          ≡ ok (rt, user))
        × (rotate crypto rt user drawn db ≡ (tokens, db'))
  unfolding refresh
  refresh-eq-ok raw drawn db db' tokens h = go (validate_refresh crypto raw drawn.now db) refl
    where
      go :
          (r : Result (RefreshToken × UserRow))
          → validate_refresh crypto raw drawn.now db ≡ r
          → (rt : RefreshToken) × (user : UserRow) × (validate_refresh crypto raw drawn.now db
              ≡ ok (rt, user))
            × (rotate crypto rt user drawn db ≡ (tokens, db'))
      go (unauthorized e) v = absurd (ground arith)
      go (ok (rt, user)) v = (rt, user, v, ground arith)

  rotate-spends :
      (raw : String) (drawn : Drawn) (db : Database) (rt : RefreshToken) (user : UserRow)
      → UniqueHash db.refresh_tokens
      → find_refresh_token (hash_token raw) db ≡ some rt
      → hash_token drawn.refresh_token ≢ hash_token raw
      → find_refresh_token (hash_token raw) (rotate crypto rt user drawn db).1 ≡ none
  unfolding find_refresh_token rotate revoke issue_refresh_token
  rotate-spends raw drawn db rt user unique found fresh =
      let spent =
        find-mark (hash_token raw) rt.id drawn.now db.refresh_tokens
          (Sole-find (hash_token raw) db.refresh_tokens rt unique found) in
      rw (ne→== (hash_token drawn.refresh_token) (hash_token raw) fresh) spent

  -- A refresh token is good for one refresh: after a successful one the same token is refused at
  -- any later time, if the hash of the new token is another one.
  pub refresh_again :
      (raw : String) (drawn drawn' : Drawn) (db db' : Database) (tokens : Tokens)
      → UniqueHash db.refresh_tokens
      → hash_token drawn.refresh_token ≢ hash_token raw
      → refresh crypto raw drawn db ≡ (ok tokens, db')
      → refresh crypto raw drawn' db' ≡ (unauthorized invalid_refresh_token, db')
  unfolding refresh validate_refresh
  refresh_again raw drawn drawn' db db' tokens unique fresh h =
      let (rt, user, valid, rotated) = refresh-eq-ok raw drawn db db' tokens h in
      let found = validate_refresh-found raw drawn.now db rt user valid in
      let spent : find_refresh_token (hash_token raw) db' ≡ none =
        subst (λ (p : Tokens × Database). find_refresh_token (hash_token raw) p.1 ≡ none) rotated
          (rotate-spends raw drawn db rt user unique found.0 fresh) in
      rw (spent, validate_refresh, refresh) refl

  -- A refresh that fails writes nothing.
  pub refresh_failed :
      (raw : String) (drawn : Drawn) (db db' : Database) (e : AuthError)
      → refresh crypto raw drawn db ≡ (unauthorized e, db')
      → (db' ≡ db) × (validate_refresh crypto raw drawn.now db ≡ unauthorized e)
  unfolding refresh
  refresh_failed raw drawn db db' e h = go (validate_refresh crypto raw drawn.now db) refl
    where
      go :
          (r : Result (RefreshToken × UserRow))
          → validate_refresh crypto raw drawn.now db ≡ r
          → (db' ≡ db) × (validate_refresh crypto raw drawn.now db ≡ unauthorized e)
      go (unauthorized e') v = ground arith
      go (ok (rt, user)) v = absurd (ground arith)

  -- The new token is live at once: it finds its row, which is the user's and the tenant's of the
  -- old token, and expires after seven days.
  pub refresh-issues :
      (raw : String) (drawn : Drawn) (db db' : Database) (tokens : Tokens)
      → refresh crypto raw drawn db ≡ (ok tokens, db')
      → (rt : RefreshToken) × (find_refresh_token (hash_token raw) db ≡ some rt)
        × (tokens.refresh_token ≡ drawn.refresh_token)
        × (find_refresh_token (hash_token tokens.refresh_token) db'
            ≡ some (new_row crypto drawn rt.user_id rt.tenant_id))
  unfolding rotate revoke issue_refresh_token find_refresh_token
  refresh-issues raw drawn db db' tokens h =
      let (rt, user, valid, rotated) = refresh-eq-ok raw drawn db db' tokens h in
      let found = validate_refresh-found raw drawn.now db rt user valid in
      let at_rotate : find_refresh_token (hash_token drawn.refresh_token)
            (rotate crypto rt user drawn db).1
          ≡ some (new_row crypto drawn rt.user_id rt.tenant_id) =
        rw eq_refl refl in
      let drawn_is : tokens.refresh_token ≡ drawn.refresh_token =
        ap (λ (p : Tokens × Database). p.0.refresh_token) (sym rotated) in
      let after : find_refresh_token (hash_token drawn.refresh_token) db'
          ≡ some (new_row crypto drawn rt.user_id rt.tenant_id) =
        subst
          (λ (p : Tokens × Database).
            find_refresh_token (hash_token drawn.refresh_token) p.1
            ≡ some (new_row crypto drawn rt.user_id rt.tenant_id))
          rotated at_rotate in
      (
        rt,
        found.0,
        drawn_is,
        subst
            (λ (t : String).
              find_refresh_token (hash_token t) db'
              ≡ some (new_row crypto drawn rt.user_id rt.tenant_id))
            (sym drawn_is) after,
      )

  -- The database after two refreshes with one token that have both been validated before either
  -- rotates.
  abbrev pub raced : RefreshToken → UserRow → Drawn → Drawn → Database → Database
  raced rt user one two db = (rotate crypto rt user two (rotate crypto rt user one db).1).1

  -- Two such refreshes both succeed, and leave two live tokens of the user where there was one:
  -- the validation stands outside of the transaction, and the update does not ask whether the
  -- token is still live.
  pub refresh_raced :
      (raw : String) (one two : Drawn) (db : Database) (rt : RefreshToken) (user : UserRow)
      → validate_refresh crypto raw one.now db ≡ ok (rt, user)
      → validate_refresh crypto raw two.now db ≡ ok (rt, user)
      → hash_token one.refresh_token ≢ hash_token two.refresh_token
      → one.row_id ≢ rt.id
      → (find_refresh_token (hash_token one.refresh_token) (raced rt user one two db)
          ≡ some (new_row crypto one rt.user_id rt.tenant_id))
        × (find_refresh_token (hash_token two.refresh_token) (raced rt user one two db)
            ≡ some (new_row crypto two rt.user_id rt.tenant_id))
  unfolding rotate revoke issue_refresh_token find_refresh_token
  refresh_raced raw one two db rt user v w differ other =
      let apart =
        ne→== (hash_token two.refresh_token) (hash_token one.refresh_token) (λ e. differ (sym e)) in
      let kept = ne→== one.row_id rt.id other in (rw (apart, kept, eq_refl) refl, rw eq_refl refl)
