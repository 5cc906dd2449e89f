-- ===== src/Auth/NotNull.antt =====
-- migrations/0005_auth_tokens.sql and internal/db/refresh_token_repository_impl.go: the column
-- `updated_at` of refresh_tokens is NOT NULL, and the repository inserts NULL into it.
use moon_eye.Base.{
  ◌≡◌, refl, ap, sym, subst, ◌∙◌, ◌≢◌, Str, none, inl, inr, arith, codes, Bool, true, false, ◌||◌,
  if◌then◌else◌,
}
use moon_eye.Outcome.{
  Error, Result, ok, err, Action, lift, pure, fail, wrapped, wrapping, ◌>>=◌, ◌>>◌, Result-cases,
  of_bind, of_wrapping, refresh_token_invalid, invalid_credentials,
}
use moon_eye.Database.Pg.{Uuid, Driver}
use moon_eye.Database.Rows.{RefreshTokenRow, Database}
use moon_eye.Database.Tx.{run_in_tx}
use moon_eye.Database.Atomicity.{begun, Ends, run_in_tx-Ends}
use moon_eye.Database.RefreshTokens.{
  RefreshToken, insert_refresh_token, create_refresh_token_row, token_row, create_refresh_token,
  revoke_refresh_token,
}
use moon_eye.Auth.Crypto.{Libraries, normalize_email, decode_refresh_token}
use moon_eye.Auth.Service.{
  Postgres, is_empty, or_else, issue, find_user, tokens, store_token, store_and_give, log_in,
  authenticate, rotate, rotate_and_give, reissue, find_token, refresh_parts, refresh,
}
use moon_eye.Auth.Lookup.{of_execute}

-- A NOT NULL column: a row without the value is refused.
abbrev pub NotNullUpdatedAt : (RefreshTokenRow → Result RefreshTokenRow) → Type 0
NotNullUpdatedAt admit =
    (r : RefreshTokenRow) → r.updated_at ≡ none → (e : Error) × (admit r ≡ err e)

-- The action gives no result.
abbrev pub Fails : {A : Type 0} → Action Database A → Type 0
Fails {A = A} m = (s t : Database) (a : A) → m s ≢ (ok a, t)

bind-Fails :
    {A B : Type 0} (m : Action Database A) (f : A → Action Database B)
    → ((a : A) → Fails (f a))
    → Fails (m >>= f)
bind-Fails m f h s t b e = let (a, u, first, rest) = of_bind m f s t b e in h a u t b rest

first-Fails :
    {A B : Type 0} (m : Action Database A) (f : A → Action Database B) → Fails m → Fails (m >>= f)
first-Fails m f h s t b e = let (a, u, first, rest) = of_bind m f s t b e in h s u a first

wrapping-Fails : {A : Type 0} (msg : Str) (m : Action Database A) → Fails m → Fails (wrapping msg m)
wrapping-Fails msg m h s t a e = h s t a (of_wrapping msg m s t a e)

run_in_tx-Fails : {A : Type 0} (f : Action Database A) → Fails f → Fails (run_in_tx f)
run_in_tx-Fails f h s t a e =
    let (same, ends) = run_in_tx-Ends f s in
    let (wrote, kept) = subst (Ends (begun s) (f (begun s))) e ends in
    h (begun s) (f (begun s)).1 a (ap (λ r. (r, (f (begun s)).1)) wrote)

if-Fails :
    {A : Type 0} (b : Bool) (e : Error) (m : Action Database A)
    → Fails m
    → Fails (if b then fail e else m)
if-Fails true e m h s t a r = ground (arith, r)
if-Fails false e m h s t a r = h s t a r

error-of :
    {A : Type 0} (m : Action Database A) (s : Database) → Fails m → (e : Error) × ((m s).0 ≡ err e)
error-of m s h = elim (Result-cases (m s).0) [
  | inl (a, e) ↦ absurd (h s (m s).1 a (ap (λ r. (r, (m s).1)) e))
  | inr found ↦ found
]

module _ (d : Driver) (admit : RefreshTokenRow → Result RefreshTokenRow) where
  insert-Fails : (e : Error) → Fails (insert_refresh_token d admit (err e))
  insert-Fails e s t a h = ground (arith, h)

  create_refresh_token_row-Fails :
      NotNullUpdatedAt admit
      → (row : RefreshTokenRow) → row.updated_at ≡ none
      → Fails (create_refresh_token_row d admit row)
  unfolding create_refresh_token_row
  create_refresh_token_row-Fails not_null row missing s t a h =
      let (rest, ran) = of_execute _ s t a s.outages refl h in
      let (e, refused) = not_null row missing in
      insert-Fails e (record s { outages = rest }) t a
        (ap (λ r. insert_refresh_token d admit r (record s { outages = rest })) (sym refused) ∙ ran)

  create_refresh_token-Fails :
      NotNullUpdatedAt admit → (token : RefreshToken) → Fails (create_refresh_token d admit token)
  unfolding create_refresh_token
  create_refresh_token-Fails not_null token =
      bind-Fails (lift (wrapped (codes "expires_at") (d.scan_time token.expires_at)))
        (λ expires_at.
          lift (wrapped (codes "created_at") (d.scan_time token.created_at)) >>= λ created_at.
          wrapping (codes "create refresh token")
            (create_refresh_token_row d admit (token_row d admit token expires_at created_at)))
        (λ expires_at.
          bind-Fails (lift (wrapped (codes "created_at") (d.scan_time token.created_at)))
            (λ created_at.
              wrapping (codes "create refresh token")
                (create_refresh_token_row d admit (token_row d admit token expires_at created_at)))
            (λ created_at.
              wrapping-Fails (codes "create refresh token")
                (create_refresh_token_row d admit (token_row d admit token expires_at created_at))
                (create_refresh_token_row-Fails not_null
                  (token_row d admit token expires_at created_at) refl)))

module _ (d : Driver) (lib : Libraries) (pg : Postgres)
    (not_null : NotNullUpdatedAt pg.admit_token) where
  store_and_give-Fails :
      (issued : Str × RefreshToken × Str) → Fails (store_and_give d lib pg issued)
  unfolding store_and_give store_token
  store_and_give-Fails issued =
      first-Fails (store_token d lib pg issued.1) (λ done. pure (tokens d lib pg issued))
        (wrapping-Fails _ _ (
          run_in_tx-Fails (create_refresh_token d pg.admit_token issued.1)
            (create_refresh_token-Fails d pg.admit_token not_null issued.1)))

  rotate_and_give-Fails :
      (id : Uuid) (issued : Str × RefreshToken × Str) → Fails (rotate_and_give d lib pg id issued)
  unfolding rotate_and_give rotate
  rotate_and_give-Fails id issued =
      first-Fails (rotate d lib pg id issued.1) (λ done. pure (tokens d lib pg issued))
        (wrapping-Fails _ _ (
          run_in_tx-Fails
            (revoke_refresh_token id >> create_refresh_token d pg.admit_token issued.1)
            (bind-Fails (revoke_refresh_token id)
              (λ done. create_refresh_token d pg.admit_token issued.1)
              (λ done. create_refresh_token-Fails d pg.admit_token not_null issued.1))))

  authenticate-Fails : (email password : Str) → Fails (authenticate d lib pg email password)
  unfolding authenticate log_in
  authenticate-Fails email password =
      let e = normalize_email lib email in
      if-Fails (is_empty e || is_empty password) invalid_credentials
        (find_user d lib pg e password >>= log_in d lib pg)
        (bind-Fails (find_user d lib pg e password) (log_in d lib pg)
          (λ u. bind-Fails (issue d lib pg u) (store_and_give d lib pg) store_and_give-Fails))

  refresh-Fails : (token : Str) → Fails (refresh d lib pg token)
  unfolding refresh refresh_parts
  refresh-Fails token =
      bind-Fails (lift (or_else refresh_token_invalid (decode_refresh_token lib d token)))
        (refresh_parts d lib pg)
        (λ parts.
          bind-Fails (find_token d lib pg parts.0 parts.1)
            (λ row. reissue d lib pg row.user_id >>= rotate_and_give d lib pg parts.0)
            (λ row.
              bind-Fails (reissue d lib pg row.user_id) (rotate_and_give d lib pg parts.0)
                (rotate_and_give-Fails parts.0)))

  -- If the table of refresh tokens refuses a row with no `updated_at`, as its NOT NULL says, then
  -- neither `Authenticate` nor `Refresh` ever gives tokens: both end with an error for every input,
  -- since the row that they insert has none.
  pub authenticate-refresh-fail :
      (email password token : Str) (s : Database)
      → ((e : Error) × ((authenticate d lib pg email password s).0 ≡ err e))
        × ((e : Error) × ((refresh d lib pg token s).0 ≡ err e))
  authenticate-refresh-fail email password token s = (
    error-of (authenticate d lib pg email password) s (authenticate-Fails email password),
    error-of (refresh d lib pg token) s (refresh-Fails token),
  )
