-- ===== src/Auth/Accepted.antt =====
-- internal/service/auth_service.go: which refresh tokens `Refresh` accepts.
use moon_eye.Base.{◌≡◌, sym, subst, true, false, Str, some, inl, inr, arith, codes, Bool-cases}
use moon_eye.Outcome.{ok, pure, ◌>>◌, Result-cases, of_bind, refresh_token_invalid}
use moon_eye.Values.{Time, after}
use moon_eye.Database.Pg.{Uuid, Driver}
use moon_eye.Database.Rows.{RefreshTokenRow, Database, now}
use moon_eye.Database.Queries.{where_rows, first_row}
use moon_eye.Database.RefreshTokens.{
  RefreshToken, has_token_id, sqlc_refresh_token_to_token, get_refresh_token_by_id,
}
use moon_eye.Auth.Crypto.{Libraries, time_now}
use moon_eye.Auth.Compare.{constant_time_compare}
use moon_eye.Auth.Service.{Postgres, when_missing, stored_secret, check_token, find_token}
use moon_eye.Auth.Lookup.{of_when_missing, of_get_refresh_token_by_id, of_query_refresh_token_by_id}

module _ (d : Driver) (lib : Libraries) (pg : Postgres) where
  -- The token is not revoked and not expired, and its secret is the given one.
  pub record IsGood (token : RefreshToken) (secret : Str) (time : Time) : Type 0 where
    pub stored : Str
    pub valid : token.revoked ≡ false
    pub in_time : after time token.expires_at ≡ false
    pub decrypted : stored_secret d lib pg token ≡ ok stored
    pub same : constant_time_compare stored secret ≡ true

  check_token-IsGood :
      (token : RefreshToken) (secret : Str) (s t : Database)
      → check_token d lib pg token secret s ≡ (ok tt, t)
      → IsGood token secret (now s)
  unfolding check_token time_now
  check_token-IsGood token secret s t h = elim (Result-cases (stored_secret d lib pg token)) [
    | inl (stored, e) ↦ elim (Bool-cases (constant_time_compare stored secret)) [
      | inl same ↦ record {
        stored = stored;
        valid = ground (arith, h);
        in_time = ground (arith, h);
        decrypted = e;
        same = same;
      }
      | inr differs ↦ absurd (ground (arith, h, e, differs))
    ]
    | inr (x, e) ↦ absurd (ground (arith, h, e))
  ]

  -- What `Refresh` accepts: the row that a lookup of the token's id finds is good.
  pub record IsAccepted (id : Uuid) (secret : Str) (s : Database) : Type 0 where
    pub row : RefreshTokenRow
    pub found : first_row (where_rows (has_token_id (some id)) s.refresh_tokens) ≡ ok row
    pub good : IsGood (sqlc_refresh_token_to_token row) secret (now s)

  -- The checks of `Refresh` let a token pass only if its id is that of a stored row which is not
  -- revoked and not expired at that time, and whose decrypted secret compares equal to the token's.
  pub find_token-IsAccepted :
      (id : Uuid) (secret : Str) (s t : Database) (token : RefreshToken)
      → find_token d lib pg id secret s ≡ (ok token, t)
      → IsAccepted id secret s
  unfolding find_token
  find_token-IsAccepted id secret s t token h =
      let look =
        when_missing refresh_token_invalid (codes "get refresh token")
          (get_refresh_token_by_id id) in
      let (q, u, looked, rest) =
        of_bind look (λ row. check_token d lib pg row secret >> pure row) s t token h in
      let (row, is_row, queried) = of_get_refresh_token_by_id id s u q (
        of_when_missing refresh_token_invalid (codes "get refresh token")
          (get_refresh_token_by_id id) s u q looked) in
      let (found, same_time) = of_query_refresh_token_by_id id row s u queried in
      let (done, v, checked, last) =
        of_bind (check_token d lib pg q secret) (λ done. pure q) u t token rest in
      record {
        row = row;
        found = found;
        good =
            subst (λ x. IsGood (sqlc_refresh_token_to_token row) secret x) {x = now u} {y = now s}
              (sym same_time)
              (subst (λ x. IsGood x secret (now u)) {x = q} {y = sqlc_refresh_token_to_token row}
                (sym is_row) (check_token-IsGood q secret u v checked));
      }
