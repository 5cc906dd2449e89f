-- ===== src/Http/Login.antt =====
-- internal/api/auth_handlers.go, POST /auth/login: what the answer to wrong credentials tells.
use moon_eye.Base.{
  ◌≡◌, refl, ◌∙◌, ap, Bool, false, ◌||◌, List, [], ◌∷◌, Str, codes, inl, inr, Bool-cases,
  if◌then◌else◌,
}
use moon_eye.Outcome.{
  Error, is_panic, is_no_rows, is_invalid_credentials, invalid_credentials, Result, ok, err, Action,
  lift, pure, ◌>>◌, bind_ok, bind_err,
}
use moon_eye.Database.Pg.{Driver}
use moon_eye.Database.Rows.{UserRow, Database}
use moon_eye.Database.Queries.{where_rows, first_row}
use moon_eye.Database.Atomicity.{execute_calm}
use moon_eye.Database.Users.{
  User, reading, sqlc_row_to_user, has_email, query_user_by_email, get_user_by_email,
}
use moon_eye.Auth.Crypto.{Libraries, normalize_email}
use moon_eye.Auth.Service.{
  Postgres, is_empty, or_else, when_missing, find_user, log_in, authenticate,
}
use moon_eye.Http.Messages.{Request, Response, tokens, answering, write_json, write_error, respond}
use moon_eye.Http.Handlers.{or_refuse, invalid_request}
use moon_eye.Http.Accounts.{Credentials, AccountCodec, required, login_error, handle_login}

module _ (d : Driver) (lib : Libraries) (pg : Postgres) where
  -- The live users of an email.
  abbrev pub users_of : Str → Database → List UserRow
  users_of email s = where_rows (has_email pg.lower email) s.users

  -- No live user has the email, or the password is not that of the user who has it.
  pub data IsWrong (email password : Str) (s : Database) : Type 0 where
    unknown : users_of email s ≡ [] → IsWrong email password s
    mistaken :
        (row : UserRow) (rows : List UserRow) (e : Error)
        → users_of email s ≡ row ∷ rows
        → lib.compare_hash_and_password (sqlc_row_to_user row).hashed_password password ≡ err e
        → IsWrong email password s

  query_calm :
      (email : Str) (s : Database)
      → s.outages ≡ []
      → query_user_by_email pg.lower email s ≡ (first_row (users_of email s), s)
  unfolding query_user_by_email
  query_calm email s calm =
      execute_calm (λ s. (first_row (where_rows (has_email pg.lower email) s.users), s)) s calm

  -- What follows the query.
  abbrev looked_up : Result UserRow × Database → Result User × Database
  looked_up p =
      when_missing invalid_credentials (codes "get user")
        (reading (codes "get user by email") sqlc_row_to_user (λ _. p)) p.1

  abbrev checked : Str → User → Action Database User
  checked password u =
      lift (or_else invalid_credentials (lib.compare_hash_and_password u.hashed_password password))
      >> pure u

  find_user-wrong :
      (email password : Str) (s : Database)
      → s.outages ≡ []
      → IsWrong email password s
      → find_user d lib pg email password s ≡ (err invalid_credentials, s)
  unfolding find_user get_user_by_email is_no_rows
  find_user-wrong email password s calm (unknown none_found) =
      bind_err
        (when_missing invalid_credentials (codes "get user") (get_user_by_email pg.lower email))
        (checked password) s s invalid_credentials
        (ap looked_up (query_calm email s calm ∙ ap (λ rows. (first_row rows, s)) none_found))
  find_user-wrong email password s calm (mistaken row rows e found wrong) =
      bind_ok
        (when_missing invalid_credentials (codes "get user") (get_user_by_email pg.lower email))
        (checked password) s s (sqlc_row_to_user row)
        (ap looked_up (query_calm email s calm ∙ ap (λ rows. (first_row rows, s)) found))
      ∙ bind_err
          (lift (
            or_else invalid_credentials
              (lib.compare_hash_and_password (sqlc_row_to_user row).hashed_password password)))
          (λ _. pure (sqlc_row_to_user row)) s s invalid_credentials
          (ap (λ r. (or_else invalid_credentials r, s)) wrong)

  authenticate-wrong :
      (email password : Str) (s : Database)
      → s.outages ≡ []
      → IsWrong (normalize_email lib email) password s
      → authenticate d lib pg email password s ≡ (err invalid_credentials, s)
  unfolding authenticate
  authenticate-wrong email password s calm wrong =
      elim (Bool-cases (is_empty (normalize_email lib email) || is_empty password)) [
        | inl e ↦ rw e refl
        | inr e ↦ rw e (
            bind_err (find_user d lib pg (normalize_email lib email) password) (log_in d lib pg) s s
              invalid_credentials
              (find_user-wrong (normalize_email lib email) password s calm wrong))
      ]

  -- The handler, from the decoded body on, and after the check for empty fields.
  module _ (codec : AccountCodec) where
    abbrev answered : Result (Str × Str) × Database → Result Response × Database
    answered p =
        answering (λ given. write_json 200 (tokens given)) (login_error d lib pg codec) (λ _. p) p.1

    abbrev tried : Credentials → Bool → Action Database Response
    tried c b =
        if b
        then respond (required (codes "email and password required"))
        else answering (λ given. write_json 200 (tokens given)) (login_error d lib pg codec)
            (authenticate d lib pg c.email c.password)

    abbrev attempted : Result Credentials → Action Database Response
    attempted decoded =
        or_refuse (invalid_request (codes "invalid body")) decoded
          (λ c. tried c (is_empty c.email || is_empty c.password))

  -- With the database up, a login with an unknown email and one with a wrong password get the same
  -- answer and leave everything as it was: nobody learns from it which emails are registered.
  pub handle_login-wrong :
      (codec : AccountCodec) (r : Request) (s : Database) (c : Credentials)
      → s.outages ≡ []
      → codec.decode_credentials r.body ≡ ok c
      → (is_empty c.email || is_empty c.password) ≡ false
      → IsWrong (normalize_email lib c.email) c.password s
      → handle_login d lib pg codec r s ≡ (
        ok (write_error 401 (codes "invalid_credentials") (codes "invalid email or password")),
        s,
      )
  unfolding handle_login login_error is_invalid_credentials is_panic
  handle_login-wrong codec r s c calm read filled wrong =
      ap (λ req. attempted codec req s) read
      ∙ ap (λ b. tried codec c b s) filled
      ∙ ap (answered codec) (authenticate-wrong c.email c.password s calm wrong)
