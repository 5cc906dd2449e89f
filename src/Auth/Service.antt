-- ===== src/Auth/Service.antt =====
-- internal/service/auth_service.go: registration, login, refresh and revocation.
use moon_eye.Base.{Bool, true, false, [], ◌∷◌, Str, codes, ◌||◌, not, if◌then◌else◌}
use moon_eye.Base.Int.{◌+ℤ◌}
use moon_eye.Outcome.{
  Error, other, wrap, invalid_credentials, refresh_token_invalid, is_no_rows, Result, ok, err,
  Action, pure, fail, lift, and_then, wrapped, wrapping, ◌>>=◌, ◌>>◌,
}
use moon_eye.Values.{Time, after}
use moon_eye.Database.Pg.{Uuid, Driver}
use moon_eye.Database.Rows.{UserRow, RefreshTokenRow, Database, draw}
use moon_eye.Database.Tx.{run_in_tx}
use moon_eye.Database.Users.{User, create_user, get_user_by_email, get_user_by_id}
use moon_eye.Database.RefreshTokens.{
  RefreshToken, create_refresh_token, get_refresh_token_by_id, revoke_refresh_token,
}
use moon_eye.Auth.Compare.{constant_time_compare}
use moon_eye.Auth.Crypto.{
  Libraries, access_token_expiry, refresh_token_expiry, encrypt, decrypt, sign, time_now,
  must_new_v4, normalize_email, encode_refresh_token, decode_refresh_token,
}

-- What Postgres does: LOWER, and to a row that is written.
pub record Postgres : Type 0 where
  pub lower : Str → Str
  pub admit_user : UserRow → Result UserRow
  pub admit_token : RefreshTokenRow → Result RefreshTokenRow

-- `service.User`.
pub record AuthUser : Type 0 where
  pub id : Uuid
  pub email : Str
  pub created_at : Time

abbrev pub is_empty : Str → Bool
is_empty [] = true
is_empty (c ∷ s) = false

-- `if err != nil { return e }`.
abbrev pub or_else {ℓ} : {A : Type ℓ} → Error → Result A → Result A
or_else e (ok a) = ok a
or_else e (err x) = err e

-- `ErrNoRows` as the given error, and any other with a message.
abbrev pub when_missing : {A : Type 0} → Error → Str → Action Database A → Action Database A
when_missing e msg m s =
    let (r, s') = m s in
    elim r [ ok a ↦ (ok a, s') | err x ↦ (err (if is_no_rows x then e else wrap msg x), s') ]

-- `if !b { return ErrRefreshTokenInvalid }`.
abbrev pub guard : Bool → Action Database (Unit {0})
guard b = if b then pure tt else fail refresh_token_invalid

module _ (d : Driver) (lib : Libraries) (pg : Postgres) where
  -- The user that `Register` stores, and its answer.
  abbrev pub new_user : Str → Str → Time → Uuid → User
  new_user email hashed time id = record {
    id = id;
    email = email;
    hashed_password = hashed;
    created_at = time;
    updated_at = time;
    deleted = false;
  }

  unfoldable pub store_user : User → Action Database AuthUser
  store_user u =
      wrapping (codes "create user") (run_in_tx (create_user d pg.admit_user u))
      >> pure (record { id = u.id; email = u.email; created_at = u.created_at })

  -- The hash, the time and the id that `Register` takes.
  unfoldable pub prepare_user : Str → Str → Action Database User
  prepare_user email password = do
    hashed ← wrapping (codes "hash password") (draw (lib.generate_from_password password))
    time ← time_now
    id ← must_new_v4 lib
    pure (new_user email hashed time id)

  unfoldable pub register : Str → Str → Action Database AuthUser
  register raw_email password =
      let email = normalize_email lib raw_email in
      if is_empty email || is_empty password
      then fail (other (codes "email and password required"))
      else (prepare_user email password >>= store_user)

  -- A refresh token for the user, and its secret.
  unfoldable pub new_refresh_token : Uuid → Action Database (RefreshToken × Str)
  new_refresh_token user_id = do
    id ← must_new_v4 lib
    secret ← draw (λ n. wrapped (codes "generate refresh secret") (lib.read_random n 32))
    encrypted ← wrapping (codes "encrypt refresh token") (encrypt lib secret)
    time ← time_now
    pure (
      record {
        id = id;
        user_id = user_id;
        encrypted_token = lib.base64_encode encrypted;
        expires_at = time +ℤ refresh_token_expiry;
        revoked = false;
        created_at = time;
      },
      secret,
    )

  unfoldable pub store_token : RefreshToken → Action Database (Unit {0})
  store_token token =
      wrapping (codes "create refresh token")
        (run_in_tx (create_refresh_token d pg.admit_token token))

  abbrev pub access_token : User → Action Database Str
  access_token u =
      wrapping (codes "sign access token")
        (sign lib (d.print_uuid u.id) u.email access_token_expiry)

  -- The access token, and the refresh token that is to be stored with its secret.
  unfoldable pub issue : User → Action Database (Str × RefreshToken × Str)
  issue u = do
    access ← access_token u
    issued ← new_refresh_token u.id
    pure (access, issued.0, issued.1)

  -- The user of an email and a password.
  unfoldable pub find_user : Str → Str → Action Database User
  find_user email password =
      when_missing invalid_credentials (codes "get user") (get_user_by_email pg.lower email)
      >>= λ u.
          lift
            (or_else invalid_credentials (lib.compare_hash_and_password u.hashed_password password))
          >> pure u

  -- The pair of tokens that is given out.
  abbrev pub tokens : Str × RefreshToken × Str → Str × Str
  tokens (access, token, secret) = (access, encode_refresh_token lib d token.id secret)

  unfoldable pub store_and_give : Str × RefreshToken × Str → Action Database (Str × Str)
  store_and_give issued = store_token issued.1 >> pure (tokens issued)

  unfoldable pub log_in : User → Action Database (Str × Str)
  log_in u = issue u >>= store_and_give

  unfoldable pub authenticate : Str → Str → Action Database (Str × Str)
  authenticate raw_email password =
      let email = normalize_email lib raw_email in
      if is_empty email || is_empty password
      then fail invalid_credentials
      else (find_user email password >>= log_in)

  -- The secret that the row holds.
  unfoldable pub stored_secret : RefreshToken → Result Str
  stored_secret row = and_then (lib.base64_decode row.encrypted_token) (λ c. decrypt lib c)

  -- The checks of `Refresh` on the row that was found.
  unfoldable pub check_token : RefreshToken → Str → Action Database (Unit {0})
  check_token row secret = do
    guard (not row.revoked)
    time ← time_now
    guard (not (after time row.expires_at))
    stored ← lift (or_else refresh_token_invalid (stored_secret row))
    guard (constant_time_compare stored secret)

  -- The transaction of `Refresh`.
  unfoldable pub rotate : Uuid → RefreshToken → Action Database (Unit {0})
  rotate id new_token =
      wrapping (codes "rotate refresh token")
        (run_in_tx (revoke_refresh_token id >> create_refresh_token d pg.admit_token new_token))

  unfoldable pub rotate_and_give : Uuid → Str × RefreshToken × Str → Action Database (Str × Str)
  rotate_and_give id issued = rotate id issued.1 >> pure (tokens issued)

  -- The tokens for the user of a refresh token.
  unfoldable pub reissue : Uuid → Action Database (Str × RefreshToken × Str)
  reissue user_id = wrapping (codes "get user") (get_user_by_id user_id) >>= issue

  -- The row of the token, after the checks.
  unfoldable pub find_token : Uuid → Str → Action Database RefreshToken
  find_token id secret =
      when_missing refresh_token_invalid (codes "get refresh token") (get_refresh_token_by_id id)
      >>= λ row. check_token row secret >> pure row

  -- `Refresh` for the parts of the token.
  unfoldable pub refresh_parts : Uuid × Str → Action Database (Str × Str)
  refresh_parts (id, secret) =
      find_token id secret >>= λ row. reissue row.user_id >>= rotate_and_give id

  unfoldable pub refresh : Str → Action Database (Str × Str)
  refresh token =
      lift (or_else refresh_token_invalid (decode_refresh_token lib d token)) >>= refresh_parts

  unfoldable pub revoke : Str → Action Database (Unit {0})
  revoke token =
      lift (or_else refresh_token_invalid (decode_refresh_token lib d token)) >>= λ parts.
      revoke_refresh_token parts.0
