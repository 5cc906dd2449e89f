-- ===== src/Database/Users.antt =====
-- internal/db/sqlc/users.sql.go and internal/db/user_repository_impl.go: the users, and the
-- statements on them. What Postgres does to a row that is written is the parameter `admit`, and its
-- LOWER the parameter `lower`.
use moon_eye.Base.{
  Bool, false, not, ◌&&◌, ◌||◌, List, [], ◌∷◌, ◌++◌, Str, Option, none, some, codes, str_eq,
  if◌then◌else◌,
}
use moon_eye.Outcome.{
  Error, no_rows, other, wrap, Result, ok, err, Action, lift, wrapped, wrapping, is_no_rows, ◌>>=◌,
}
use moon_eye.Values.{Time}
use moon_eye.Database.Pg.{Uuid, Driver, time_from_timestamptz}
use moon_eye.Database.Rows.{UserRow, Database, execute}
use moon_eye.Database.Queries.{same_uuid, is_null, where_rows, first_row, update_rows}

pub record User : Type 0 where
  pub id : Uuid
  pub email : Str
  pub hashed_password : Str
  pub created_at : Time
  pub updated_at : Time
  pub deleted : Bool

-- The error of a query for one row: `ErrNoRows` as it is, any other with a message.
abbrev pub no_rows_or_wrapped : Str → Error → Error
no_rows_or_wrapped msg e = if is_no_rows e then no_rows else wrap msg e

-- A query for one row, and the conversion of the row.
abbrev pub reading : {R A : Type 0} → Str → (R → A) → Action Database R → Action Database A
reading msg f m s =
    let (r, s') = m s in
    elim r [ ok row ↦ (ok (f row), s') | err e ↦ (err (no_rows_or_wrapped msg e), s') ]

-- `id, _ = uuidx.PGToUUID(p)`: `uuid.Nil` for a NULL.
abbrev pub uuid_or_nil : Option Uuid → Uuid
uuid_or_nil none = 0
uuid_or_nil (some id) = id

-- The primary key, and the UNIQUE of the email.
unfoldable pub clashes : UserRow → List UserRow → Bool
clashes row [] = false
clashes row (r ∷ rs) = same_uuid r.id row.id || str_eq r.email row.email || clashes row rs

unfoldable pub sqlc_row_to_user : UserRow → User
sqlc_row_to_user row = record {
  id = uuid_or_nil row.id;
  email = row.email;
  hashed_password = row.hashed_password;
  created_at = time_from_timestamptz row.created_at;
  updated_at = time_from_timestamptz row.updated_at;
  deleted = not (is_null row.deleted_at);
}

-- `WHERE id = $1 AND deleted_at IS NULL`.
abbrev pub is_live_user : Option Uuid → UserRow → Bool
is_live_user id r = same_uuid r.id id && is_null r.deleted_at

unfoldable pub query_user_by_id : Option Uuid → Action Database UserRow
query_user_by_id id = execute (λ s. (first_row (where_rows (is_live_user id) s.users), s))

unfoldable pub get_user_by_id : Uuid → Action Database User
get_user_by_id id = reading (codes "get user by id") sqlc_row_to_user (query_user_by_id (some id))

module _ (lower : Str → Str) where
  abbrev pub has_email : Str → UserRow → Bool
  has_email email r = str_eq (lower r.email) (lower email) && is_null r.deleted_at

  unfoldable pub query_user_by_email : Str → Action Database UserRow
  query_user_by_email email = execute (λ s. (first_row (where_rows (has_email email) s.users), s))

  unfoldable pub get_user_by_email : Str → Action Database User
  get_user_by_email email =
      reading (codes "get user by email") sqlc_row_to_user (query_user_by_email email)

module _ (d : Driver) (admit : UserRow → Result UserRow) where
  abbrev pub insert_user : Result UserRow → Action Database (Unit {0})
  insert_user (err e) s = (err e, s)
  insert_user (ok row) s =
      if clashes row s.users
      then (err (other (codes "duplicate key value")), s)
      else (ok tt, record s { users = s.users ++ (row ∷ []) })

  -- `Queries.CreateUser`.
  unfoldable pub create_user_row : UserRow → Action Database (Unit {0})
  create_user_row row = execute (insert_user (admit row))

  -- The arguments of the statement: `DeletedAt` is NULL.
  abbrev pub user_row : User → Option Time → Option Time → UserRow
  user_row user created_at updated_at = record {
    id = some user.id;
    email = user.email;
    hashed_password = user.hashed_password;
    created_at = created_at;
    updated_at = updated_at;
    deleted_at = none;
  }

  unfoldable pub create_user : User → Action Database (Unit {0})
  create_user user = do
    created_at ← lift (wrapped (codes "created_at") (d.scan_time user.created_at))
    updated_at ← lift (wrapped (codes "updated_at") (d.scan_time user.updated_at))
    wrapping (codes "create user") (create_user_row (user_row user created_at updated_at))

  abbrev new_values : User → Option Time → Option Time → UserRow → Result UserRow
  new_values user updated_at deleted_at r = admit (record r {
    email = user.email;
    hashed_password = user.hashed_password;
    updated_at = updated_at;
    deleted_at = deleted_at;
  })

  -- The email is another user's.
  unfoldable pub is_taken : Option Uuid → Str → List UserRow → Bool
  is_taken id email [] = false
  is_taken id email (r ∷ rs) =
      (str_eq r.email email && not (same_uuid r.id id)) || is_taken id email rs

  abbrev write_users :
      Option Uuid → Str → Result (List UserRow × List UserRow) → Action Database (Unit {0})
  write_users id email (err e) s = (err e, s)
  write_users id email (ok (rows, [])) s = (ok tt, s)
  write_users id email (ok (rows, r ∷ rs)) s =
      if is_taken id email s.users
      then (err (other (codes "duplicate key value")), s)
      else (ok tt, record s { users = rows })

  -- `Queries.UpdateUser`.
  unfoldable pub update_user_row : User → Option Time → Option Time → Action Database (Unit {0})
  update_user_row user updated_at deleted_at = execute (λ s.
      write_users (some user.id) user.email
        (update_rows (is_live_user (some user.id)) (new_values user updated_at deleted_at) s.users)
        s)

  -- `if user.Deleted`; the error of the conversion is dropped.
  abbrev deletion_time : User → Option Time
  deletion_time user =
      if user.deleted
      then elim (d.scan_time user.updated_at) [ ok ts ↦ ts | err e ↦ none ]
      else none

  unfoldable pub update_user : User → Action Database (Unit {0})
  update_user user = do
    updated_at ← lift (wrapped (codes "updated_at") (d.scan_time user.updated_at))
    wrapping (codes "update user") (update_user_row user updated_at (deletion_time user))
