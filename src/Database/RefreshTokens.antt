-- ===== src/Database/RefreshTokens.antt =====
-- internal/db/sqlc/refresh_tokens.sql.go and internal/db/refresh_token_repository_impl.go: the
-- refresh tokens. What Postgres does to a row that is inserted, with the NOT NULL of its columns, is
-- the parameter `admit`.
use moon_eye.Base.{
  Bool, true, false, not, ◌&&◌, ◌||◌, List, [], ◌∷◌, ◌++◌, map, Str, Option, none, some, codes, leb,
  if◌then◌else◌,
}
use moon_eye.Base.Int.{ltb_ℤ}
use moon_eye.Outcome.{other, Result, ok, err, Action, lift, pure, wrapped, wrapping, ◌>>=◌}
use moon_eye.Values.{Time}
use moon_eye.Database.Pg.{Uuid, Driver, time_from_timestamptz}
use moon_eye.Database.Rows.{UserRow, RefreshTokenRow, Database, now, tick, execute}
use moon_eye.Database.Queries.{same_uuid, where_rows, first_row, set_where}
use moon_eye.Database.Users.{uuid_or_nil, reading}

pub record RefreshToken : Type 0 where
  pub id : Uuid
  pub user_id : Uuid
  pub encrypted_token : Str
  pub expires_at : Time
  pub revoked : Bool
  pub created_at : Time

unfoldable pub sqlc_refresh_token_to_token : RefreshTokenRow → RefreshToken
sqlc_refresh_token_to_token row = record {
  id = uuid_or_nil row.id;
  user_id = uuid_or_nil row.user_id;
  encrypted_token = row.encrypted_token;
  expires_at = time_from_timestamptz row.expires_at;
  revoked = row.revoked;
  created_at = time_from_timestamptz row.created_at;
}

abbrev pub has_token_id : Option Uuid → RefreshTokenRow → Bool
has_token_id id r = same_uuid r.id id

unfoldable pub query_refresh_token_by_id : Option Uuid → Action Database RefreshTokenRow
query_refresh_token_by_id id =
    execute (λ s. (first_row (where_rows (has_token_id id) s.refresh_tokens), s))

unfoldable pub get_refresh_token_by_id : Uuid → Action Database RefreshToken
get_refresh_token_by_id id =
    reading (codes "get refresh token by id") sqlc_refresh_token_to_token
      (query_refresh_token_by_id (some id))

-- `a DESC` for a time that is not NULL.
abbrev later : Option Time → Option Time → Bool
later (some t) (some u) = ltb_ℤ u t
later _ _ = false

abbrev greater : Option Uuid → Option Uuid → Bool
greater (some a) (some b) = leb b a
greater _ _ = true

-- `ORDER BY expires_at DESC, revoked, created_at DESC, id DESC`.
unfoldable pub comes_first : RefreshTokenRow → RefreshTokenRow → Bool
comes_first r q =
    if later r.expires_at q.expires_at
    then true
    else if later q.expires_at r.expires_at
    then false
    else if not r.revoked && q.revoked
    then true
    else if r.revoked && not q.revoked
    then false
    else if later r.created_at q.created_at
    then true
    else if later q.created_at r.created_at
    then false
    else greater r.id q.id

unfoldable pub insert_token : RefreshTokenRow → List RefreshTokenRow → List RefreshTokenRow
insert_token r [] = r ∷ []
insert_token r (q ∷ qs) =
    let rest = insert_token r qs in if comes_first r q then r ∷ q ∷ qs else q ∷ rest

unfoldable pub order_tokens : List RefreshTokenRow → List RefreshTokenRow
order_tokens [] = []
order_tokens (r ∷ rs) = insert_token r (order_tokens rs)

unfoldable pub query_refresh_tokens_by_user_id :
    Option Uuid → Action Database (List RefreshTokenRow)
query_refresh_tokens_by_user_id user_id =
    execute
      (λ s. (ok (order_tokens (where_rows (λ r. same_uuid r.user_id user_id) s.refresh_tokens)), s))

unfoldable pub get_refresh_tokens_by_user_id : Uuid → Action Database (List RefreshToken)
get_refresh_tokens_by_user_id user_id =
    wrapping (codes "get refresh tokens by user") (query_refresh_tokens_by_user_id (some user_id))
    >>= λ rows. pure (map sqlc_refresh_token_to_token rows)

-- `SET revoked = true, updated_at = NOW()`.
abbrev pub revoked_at : Time → RefreshTokenRow → RefreshTokenRow
revoked_at time r = record r { revoked = true; updated_at = some time }

-- `Queries.RevokeRefreshToken`: no error when no row has the id.
unfoldable pub revoke_row : Option Uuid → Action Database (Unit {0})
revoke_row id = execute (λ s. (
  ok tt,
  record (tick s) {
    refresh_tokens = set_where (has_token_id id) (revoked_at (now s)) s.refresh_tokens;
  },
))

unfoldable pub revoke_refresh_token : Uuid → Action Database (Unit {0})
revoke_refresh_token id = wrapping (codes "revoke refresh token") (revoke_row (some id))

-- The primary key and the foreign key.
unfoldable pub has_token : Option Uuid → List RefreshTokenRow → Bool
has_token id [] = false
has_token id (r ∷ rs) = same_uuid r.id id || has_token id rs

unfoldable pub has_user : Option Uuid → List UserRow → Bool
has_user id [] = false
has_user id (r ∷ rs) = same_uuid r.id id || has_user id rs

module _ (d : Driver) (admit : RefreshTokenRow → Result RefreshTokenRow) where
  abbrev pub insert_refresh_token : Result RefreshTokenRow → Action Database (Unit {0})
  insert_refresh_token (err e) s = (err e, s)
  insert_refresh_token (ok row) s =
      if has_token row.id s.refresh_tokens
      then (err (other (codes "duplicate key value")), s)
      else if has_user row.user_id s.users
      then (ok tt, record s { refresh_tokens = s.refresh_tokens ++ (row ∷ []) })
      else (err (other (codes "violates foreign key constraint")), s)

  -- `Queries.CreateRefreshToken`.
  unfoldable pub create_refresh_token_row : RefreshTokenRow → Action Database (Unit {0})
  create_refresh_token_row row = execute (insert_refresh_token (admit row))

  -- The arguments of the statement: `UpdatedAt` and `DeletedAt` are not set.
  abbrev pub token_row : RefreshToken → Option Time → Option Time → RefreshTokenRow
  token_row token expires_at created_at = record {
    id = some token.id;
    user_id = some token.user_id;
    encrypted_token = token.encrypted_token;
    expires_at = expires_at;
    revoked = token.revoked;
    created_at = created_at;
    updated_at = none;
    deleted_at = none;
  }

  unfoldable pub create_refresh_token : RefreshToken → Action Database (Unit {0})
  create_refresh_token token = do
    expires_at ← lift (wrapped (codes "expires_at") (d.scan_time token.expires_at))
    created_at ← lift (wrapped (codes "created_at") (d.scan_time token.created_at))
    wrapping (codes "create refresh token")
        (create_refresh_token_row (token_row token expires_at created_at))
