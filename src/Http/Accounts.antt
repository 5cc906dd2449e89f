-- ===== src/Http/Accounts.antt =====
-- internal/api/auth_handlers.go: registration, login, refresh and logout.
use moon_eye.Base.{◌||◌, Str, codes, if◌then◌else◌}
use moon_eye.Outcome.{
  Error, is_invalid_credentials, is_refresh_token_invalid, error_text, Result, Action,
}
use moon_eye.Values.{Time}
use moon_eye.Database.Pg.{Driver}
use moon_eye.Database.Rows.{Database}
use moon_eye.Auth.Crypto.{Libraries}
use moon_eye.Auth.Service.{Postgres, AuthUser, is_empty, register, authenticate, refresh, revoke}
use moon_eye.Http.Messages.{
  Request, Response, UserResponse, empty, user, tokens, write_json, write_error, answering, respond,
}
use moon_eye.Http.Handlers.{invalid_request, internal_error, or_refuse, unless_empty}

pub record Credentials : Type 0 where
  pub email : Str
  pub password : Str

-- The decoding of JSON bodies, `Format` of a UTC time, and the text of `pgx.ErrNoRows`.
pub record AccountCodec : Type 0 where
  pub decode_credentials : Str → Result Credentials
  pub decode_refresh_token : Str → Result Str
  pub format_time : Time → Str
  pub no_rows_text : Str

abbrev pub required : Str → Response
required message = write_error 400 (codes "validation_error") message

module _ (d : Driver) (lib : Libraries) (pg : Postgres) (codec : AccountCodec) where
  abbrev with_credentials :
      Request → (Credentials → Action Database Response) → Action Database Response
  with_credentials r next =
      or_refuse (invalid_request (codes "invalid body")) (codec.decode_credentials r.body) (λ req.
        if is_empty req.email || is_empty req.password
        then respond (required (codes "email and password required"))
        else next req)

  unfoldable pub user_to_response : AuthUser → UserResponse
  user_to_response u = record {
    id = d.print_uuid u.id;
    email = u.email;
    created_at = codec.format_time u.created_at;
  }

  unfoldable pub handle_register : Request → Action Database Response
  handle_register r = with_credentials r (λ req.
      answering (λ u. write_json 201 (user (user_to_response u)))
        (λ e. write_error 400 (codes "registration_failed") (error_text codec.no_rows_text e))
        (register d lib pg req.email req.password))

  unfoldable pub login_error : Error → Response
  login_error e =
      if is_invalid_credentials e
      then write_error 401 (codes "invalid_credentials") (codes "invalid email or password")
      else internal_error (codes "authentication failed") e

  unfoldable pub handle_login : Request → Action Database Response
  handle_login r = with_credentials r (λ req.
      answering (λ given. write_json 200 (tokens given)) login_error
        (authenticate d lib pg req.email req.password))

  abbrev with_token : Request → (Str → Action Database Response) → Action Database Response
  with_token r next =
      or_refuse (invalid_request (codes "invalid body")) (codec.decode_refresh_token r.body)
        (λ token. unless_empty token (required (codes "refreshToken required")) (next token))

  unfoldable pub refresh_error : Error → Response
  refresh_error e =
      if is_refresh_token_invalid e
      then write_error 401 (codes "invalid_refresh_token")
          (codes "refresh token invalid or expired")
      else internal_error (codes "refresh failed") e

  unfoldable pub handle_refresh : Request → Action Database Response
  handle_refresh r = with_token r (λ token.
      answering (λ given. write_json 200 (tokens given)) refresh_error (refresh d lib pg token))

  unfoldable pub logout_error : Error → Response
  logout_error e =
      if is_refresh_token_invalid e
      then write_error 400 (codes "invalid_refresh_token") (codes "refresh token invalid")
      else internal_error (codes "revoke failed") e

  unfoldable pub handle_logout : Request → Action Database Response
  handle_logout r =
      with_token r
        (λ token. answering (λ done. write_json 204 empty) logout_error (revoke d lib pg token))
