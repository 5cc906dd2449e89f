-- ===== src/Auth/Reads.antt =====
-- Which steps of internal/service/auth_service.go leave the refresh tokens as they are.
use moon_eye.Base.{◌≡◌, refl, List, Str, some, inl, inr, arith, codes}
use moon_eye.Outcome.{
  Error, Action, lift, pure, wrapping, ◌>>◌, Result-cases, refresh_token_invalid,
  invalid_credentials,
}
use moon_eye.Database.Pg.{Uuid, Driver}
use moon_eye.Database.Rows.{RefreshTokenRow, Database, draw}
use moon_eye.Database.Users.{
  User, get_user_by_email, get_user_by_id, query_user_by_email, query_user_by_id,
}
use moon_eye.Database.RefreshTokens.{
  RefreshToken, get_refresh_token_by_id, query_refresh_token_by_id,
}
use moon_eye.Auth.Crypto.{Libraries, time_now, encrypt, sign, must_new_v4}
use moon_eye.Auth.Service.{
  Postgres, or_else, when_missing, prepare_user, new_refresh_token, issue, find_user, check_token,
  reissue, find_token,
}
use moon_eye.Auth.Keeping.{
  KeepsTokens, quiet-KeepsTokens, wrapping-KeepsTokens, bind-KeepsTokens, execute-KeepsTokens,
  reading-KeepsTokens,
}

module _ (P : List RefreshTokenRow → Type 0) (d : Driver) (lib : Libraries) (pg : Postgres) where
  issue_quiet : (u : User) (s : Database) → (issue d lib pg u s).1.refresh_tokens ≡ s.refresh_tokens
  unfolding issue sign new_refresh_token must_new_v4 time_now draw encrypt
  issue_quiet u s = ground arith

  pub issue-KeepsTokens : (u : User) → KeepsTokens P (issue d lib pg u)
  issue-KeepsTokens u = quiet-KeepsTokens P (issue d lib pg u) (issue_quiet u)

  pub prepare_user-KeepsTokens :
      (email password : Str) → KeepsTokens P (prepare_user d lib pg email password)
  unfolding prepare_user must_new_v4 time_now draw
  prepare_user-KeepsTokens email password =
      quiet-KeepsTokens P (prepare_user d lib pg email password) (λ s. ground arith)

  pub check_token-KeepsTokens :
      (row : RefreshToken) (secret : Str) → KeepsTokens P (check_token d lib pg row secret)
  unfolding check_token time_now
  check_token-KeepsTokens row secret =
      quiet-KeepsTokens P (check_token d lib pg row secret) (λ s. ground arith)

  pub get_user_by_id-KeepsTokens : (user_id : Uuid) → KeepsTokens P (get_user_by_id user_id)
  unfolding get_user_by_id query_user_by_id
  get_user_by_id-KeepsTokens user_id =
      reading-KeepsTokens P _ _ (query_user_by_id (some user_id))
        (execute-KeepsTokens P _ (quiet-KeepsTokens P _ (λ s. refl)))

  pub get_user_by_email-KeepsTokens :
      (email : Str) → KeepsTokens P (get_user_by_email pg.lower email)
  unfolding get_user_by_email query_user_by_email
  get_user_by_email-KeepsTokens email =
      reading-KeepsTokens P _ _ (query_user_by_email pg.lower email)
        (execute-KeepsTokens P _ (quiet-KeepsTokens P _ (λ s. refl)))

  pub get_refresh_token_by_id-KeepsTokens :
      (token_id : Uuid) → KeepsTokens P (get_refresh_token_by_id token_id)
  unfolding get_refresh_token_by_id query_refresh_token_by_id
  get_refresh_token_by_id-KeepsTokens token_id =
      reading-KeepsTokens P _ _ (query_refresh_token_by_id (some token_id))
        (execute-KeepsTokens P _ (quiet-KeepsTokens P _ (λ s. refl)))

  pub when_missing-KeepsTokens :
      {A : Type 0} (e : Error) (msg : Str) (m : Action Database A)
      → KeepsTokens P m
      → KeepsTokens P (when_missing e msg m)
  when_missing-KeepsTokens e msg m k = record {
    kept = λ s h. elim (Result-cases (m s).0) [
      | inl (a, eq) ↦ rw (eq, when_missing) (k.kept s h)
      | inr (x, eq) ↦ rw (eq, when_missing) (k.kept s h)
    ];
  }

  pub find_user-KeepsTokens :
      (email password : Str) → KeepsTokens P (find_user d lib pg email password)
  unfolding find_user
  find_user-KeepsTokens email password =
      bind-KeepsTokens P
        (when_missing invalid_credentials (codes "get user") (get_user_by_email pg.lower email))
        (λ u.
          lift
            (or_else invalid_credentials (lib.compare_hash_and_password u.hashed_password password))
          >> pure u)
        (when_missing-KeepsTokens _ _ _ (get_user_by_email-KeepsTokens email))
        (λ u. quiet-KeepsTokens P _ (λ s. ground arith))

  pub find_token-KeepsTokens :
      (token_id : Uuid) (secret : Str) → KeepsTokens P (find_token d lib pg token_id secret)
  unfolding find_token
  find_token-KeepsTokens token_id secret =
      bind-KeepsTokens P
        (when_missing refresh_token_invalid (codes "get refresh token")
          (get_refresh_token_by_id token_id))
        (λ row. check_token d lib pg row secret >> pure row)
        (when_missing-KeepsTokens _ _ _ (get_refresh_token_by_id-KeepsTokens token_id))
        (λ row.
          bind-KeepsTokens P (check_token d lib pg row secret) (λ done. pure row)
            (check_token-KeepsTokens row secret) (λ done. quiet-KeepsTokens P _ (λ s. refl)))

  pub reissue-KeepsTokens : (user_id : Uuid) → KeepsTokens P (reissue d lib pg user_id)
  unfolding reissue
  reissue-KeepsTokens user_id =
      bind-KeepsTokens P (wrapping (codes "get user") (get_user_by_id user_id)) (issue d lib pg)
        (wrapping-KeepsTokens P _ _ (get_user_by_id-KeepsTokens user_id)) issue-KeepsTokens
