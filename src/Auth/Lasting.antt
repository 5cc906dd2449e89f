-- ===== src/Auth/Lasting.antt =====
-- No operation of internal/service/auth_service.go makes a revoked refresh token valid again.
use moon_eye.Base.{refl, ◌||◌, [], ◌∷◌, Str, some, inl, inr, codes, Bool-cases}
use moon_eye.Outcome.{
  Result, ok, err, lift, pure, fail, wrapped, wrapping, ◌>>=◌, refresh_token_invalid,
  invalid_credentials, other,
}
use moon_eye.Database.Pg.{Uuid, Driver}
use moon_eye.Database.Rows.{UserRow, RefreshTokenRow, now}
use moon_eye.Database.Tx.{run_in_tx}
use moon_eye.Database.Users.{User, clashes, insert_user, user_row, create_user, create_user_row}
use moon_eye.Database.RefreshTokens.{
  RefreshToken, insert_refresh_token, create_refresh_token_row, create_refresh_token, has_token,
  has_user, revoke_row, revoke_refresh_token, token_row,
}
use moon_eye.Auth.Crypto.{Libraries, decode_refresh_token, normalize_email}
use moon_eye.Auth.Service.{
  Postgres, is_empty, or_else, prepare_user, store_user, register, store_token, issue, find_user,
  tokens, store_and_give, log_in, authenticate, rotate, rotate_and_give, reissue, find_token,
  refresh_parts, refresh, revoke,
}
use moon_eye.Auth.Reads.{
  issue-KeepsTokens, prepare_user-KeepsTokens, find_user-KeepsTokens, find_token-KeepsTokens,
  reissue-KeepsTokens,
}
use moon_eye.Auth.Keeping.{
  IsRevoked, IsRevoked-append, IsRevoked-set_where, KeepsRevoked, quiet-KeepsTokens,
  wrapping-KeepsTokens, bind-KeepsTokens, lifting-KeepsTokens, if-KeepsTokens, execute-KeepsTokens,
  run_in_tx-KeepsTokens,
}

module _ (id : Uuid) where
  revoke_refresh_token-KeepsRevoked :
      (other_id : Uuid) → KeepsRevoked id (revoke_refresh_token other_id)
  unfolding revoke_refresh_token revoke_row
  revoke_refresh_token-KeepsRevoked other_id =
      wrapping-KeepsTokens (IsRevoked id) _ (revoke_row (some other_id)) (
        execute-KeepsTokens (IsRevoked id) _
          (record { kept = λ s h. IsRevoked-set_where id other_id (now s) s.refresh_tokens h }))

  module _ (d : Driver) (admit : RefreshTokenRow → Result RefreshTokenRow) where
    insert_refresh_token-KeepsRevoked :
        (r : Result RefreshTokenRow) → KeepsRevoked id (insert_refresh_token d admit r)
    insert_refresh_token-KeepsRevoked (err e) = record { kept = λ s h. h }
    insert_refresh_token-KeepsRevoked (ok row) = record {
      kept = λ s h. elim (Bool-cases (has_token row.id s.refresh_tokens)) [
        | inl e ↦ rw e h
        | inr e ↦ elim (Bool-cases (has_user row.user_id s.users)) [
          | inl f ↦ rw (e, f) (IsRevoked-append id s.refresh_tokens (row ∷ []) h)
          | inr f ↦ rw (e, f) h
        ]
      ];
    }

    pub create_refresh_token-KeepsRevoked :
        (token : RefreshToken) → KeepsRevoked id (create_refresh_token d admit token)
    unfolding create_refresh_token create_refresh_token_row
    create_refresh_token-KeepsRevoked token =
        lifting-KeepsTokens (IsRevoked id)
          (wrapped (codes "expires_at") (d.scan_time token.expires_at))
          (λ expires_at.
            lift (wrapped (codes "created_at") (d.scan_time token.created_at)) >>= λ created_at.
            wrapping (codes "create refresh token")
              (create_refresh_token_row d admit (token_row d admit token expires_at created_at)))
          (λ expires_at.
            lifting-KeepsTokens (IsRevoked id)
              (wrapped (codes "created_at") (d.scan_time token.created_at))
              (λ created_at.
                wrapping (codes "create refresh token") (
                  create_refresh_token_row d admit (token_row d admit token expires_at created_at)))
              (λ created_at. wrapping-KeepsTokens (IsRevoked id) _ _ (
                execute-KeepsTokens (IsRevoked id) _ (
                  insert_refresh_token-KeepsRevoked
                    (admit (token_row d admit token expires_at created_at))))))

  insert_user-KeepsRevoked :
      (d : Driver) (admit : UserRow → Result UserRow) (r : Result UserRow)
      → KeepsRevoked id (insert_user d admit r)
  insert_user-KeepsRevoked d admit (err e) = record { kept = λ s h. h }
  insert_user-KeepsRevoked d admit (ok row) = record {
    kept = λ s h. elim (Bool-cases (clashes row s.users)) [ inl e ↦ rw e h | inr e ↦ rw e h ];
  }

  create_user-KeepsRevoked :
      (d : Driver) (admit : UserRow → Result UserRow) (u : User)
      → KeepsRevoked id (create_user d admit u)
  unfolding create_user create_user_row
  create_user-KeepsRevoked d admit u =
      lifting-KeepsTokens (IsRevoked id) (wrapped (codes "created_at") (d.scan_time u.created_at))
        (λ created_at.
          lift (wrapped (codes "updated_at") (d.scan_time u.updated_at)) >>= λ updated_at.
          wrapping (codes "create user")
            (create_user_row d admit (user_row d admit u created_at updated_at)))
        (λ created_at.
          lifting-KeepsTokens (IsRevoked id)
            (wrapped (codes "updated_at") (d.scan_time u.updated_at))
            (λ updated_at.
              wrapping (codes "create user")
                (create_user_row d admit (user_row d admit u created_at updated_at)))
            (λ updated_at. wrapping-KeepsTokens (IsRevoked id) _ _ (
              execute-KeepsTokens (IsRevoked id) _ (
                insert_user-KeepsRevoked d admit
                  (admit (user_row d admit u created_at updated_at))))))

  module _ (d : Driver) (lib : Libraries) (pg : Postgres) where
    store_user-KeepsRevoked : (u : User) → KeepsRevoked id (store_user d lib pg u)
    unfolding store_user
    store_user-KeepsRevoked u =
        bind-KeepsTokens (IsRevoked id)
          (wrapping (codes "create user") (run_in_tx (create_user d pg.admit_user u)))
          (λ done. pure _)
          (wrapping-KeepsTokens (IsRevoked id) _ _
            (run_in_tx-KeepsTokens (IsRevoked id) _ (create_user-KeepsRevoked d pg.admit_user u)))
          (λ done. quiet-KeepsTokens (IsRevoked id) _ (λ s. refl))

    store_and_give-KeepsRevoked :
        (issued : Str × RefreshToken × Str) → KeepsRevoked id (store_and_give d lib pg issued)
    unfolding store_and_give store_token
    store_and_give-KeepsRevoked issued =
        bind-KeepsTokens (IsRevoked id) (store_token d lib pg issued.1)
          (λ done. pure (tokens d lib pg issued))
          (wrapping-KeepsTokens (IsRevoked id) _ _ (
            run_in_tx-KeepsTokens (IsRevoked id) _
              (create_refresh_token-KeepsRevoked d pg.admit_token issued.1)))
          (λ done. quiet-KeepsTokens (IsRevoked id) _ (λ s. refl))

    rotate_and_give-KeepsRevoked :
        (token_id : Uuid) (issued : Str × RefreshToken × Str)
        → KeepsRevoked id (rotate_and_give d lib pg token_id issued)
    unfolding rotate_and_give rotate
    rotate_and_give-KeepsRevoked token_id issued =
        bind-KeepsTokens (IsRevoked id) (rotate d lib pg token_id issued.1)
          (λ done. pure (tokens d lib pg issued))
          (wrapping-KeepsTokens (IsRevoked id) _ _ (
            run_in_tx-KeepsTokens (IsRevoked id) _ (
              bind-KeepsTokens (IsRevoked id) (revoke_refresh_token token_id)
                (λ done. create_refresh_token d pg.admit_token issued.1)
                (revoke_refresh_token-KeepsRevoked token_id)
                (λ done. create_refresh_token-KeepsRevoked d pg.admit_token issued.1))))
          (λ done. quiet-KeepsTokens (IsRevoked id) _ (λ s. refl))

    refresh_parts-KeepsRevoked :
        (parts : Uuid × Str) → KeepsRevoked id (refresh_parts d lib pg parts)
    unfolding refresh_parts
    refresh_parts-KeepsRevoked parts =
        bind-KeepsTokens (IsRevoked id) (find_token d lib pg parts.0 parts.1)
          (λ row. reissue d lib pg row.user_id >>= rotate_and_give d lib pg parts.0)
          (find_token-KeepsTokens (IsRevoked id) d lib pg parts.0 parts.1)
          (λ row.
            bind-KeepsTokens (IsRevoked id) (reissue d lib pg row.user_id)
              (rotate_and_give d lib pg parts.0)
              (reissue-KeepsTokens (IsRevoked id) d lib pg row.user_id)
              (rotate_and_give-KeepsRevoked parts.0))

    pub refresh-KeepsRevoked : (token : Str) → KeepsRevoked id (refresh d lib pg token)
    unfolding refresh
    refresh-KeepsRevoked token = lifting-KeepsTokens (IsRevoked id) _ _ refresh_parts-KeepsRevoked

    pub revoke-KeepsRevoked : (token : Str) → KeepsRevoked id (revoke d lib pg token)
    unfolding revoke
    revoke-KeepsRevoked token =
        lifting-KeepsTokens (IsRevoked id)
          (or_else refresh_token_invalid (decode_refresh_token lib d token))
          (λ parts. revoke_refresh_token parts.0)
          (λ parts. revoke_refresh_token-KeepsRevoked parts.0)

    log_in-KeepsRevoked : (u : User) → KeepsRevoked id (log_in d lib pg u)
    unfolding log_in
    log_in-KeepsRevoked u =
        bind-KeepsTokens (IsRevoked id) (issue d lib pg u) (store_and_give d lib pg)
          (issue-KeepsTokens (IsRevoked id) d lib pg u) store_and_give-KeepsRevoked

    pub authenticate-KeepsRevoked :
        (email password : Str) → KeepsRevoked id (authenticate d lib pg email password)
    unfolding authenticate
    authenticate-KeepsRevoked email password =
        let e = normalize_email lib email in
        if-KeepsTokens (IsRevoked id) (is_empty e || is_empty password) (fail invalid_credentials)
          (find_user d lib pg e password >>= log_in d lib pg)
          (quiet-KeepsTokens (IsRevoked id) _ (λ s. refl))
          (bind-KeepsTokens (IsRevoked id) (find_user d lib pg e password) (log_in d lib pg)
            (find_user-KeepsTokens (IsRevoked id) d lib pg e password) log_in-KeepsRevoked)

    pub register-KeepsRevoked :
        (email password : Str) → KeepsRevoked id (register d lib pg email password)
    unfolding register
    register-KeepsRevoked email password =
        let e = normalize_email lib email in
        if-KeepsTokens (IsRevoked id) (is_empty e || is_empty password)
          (fail (other (codes "email and password required")))
          (prepare_user d lib pg e password >>= store_user d lib pg)
          (quiet-KeepsTokens (IsRevoked id) _ (λ s. refl))
          (bind-KeepsTokens (IsRevoked id) (prepare_user d lib pg e password) (store_user d lib pg)
            (prepare_user-KeepsTokens (IsRevoked id) d lib pg e password) store_user-KeepsRevoked)
