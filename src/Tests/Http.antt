-- ===== src/Tests/Http.antt =====
-- A request with a Bearer token over the sample database.
use moon_eye.Base.{◌≡◌, refl, [], ◌∷◌, Str, none, codes, if◌then◌else◌, str_eq}
use moon_eye.Base.Int.{pos}
use moon_eye.Outcome.{err, ok, other}
use moon_eye.Http.Messages.{Request, write_error}
use moon_eye.Http.Handlers.{Codec, Services, handle_delete_transaction}
use moon_eye.Http.Routes.{protected, delete_transaction, endpoint, serve}
use moon_eye.Http.Access.{Passes, serve-Passes}
use moon_eye.Database.Queries.{where_rows}
use moon_eye.Auth.Crypto.{normalize_email}
use moon_eye.Http.Accounts.{AccountCodec, handle_login}
use moon_eye.Http.Login.{unknown, handle_login-wrong}
use moon_eye.Tests.Sample.{runtime, service}
use moon_eye.Tests.People.{driver, libraries, postgres, start}

abbrev codec : Codec
codec = record {
  decode_create = λ s. err (other (codes "no body"));
  decode_trigger = λ s. none;
  parse_rfc3339 = λ s. ok (pos 5);
  marshal_trigger = λ user connection. user;
}

abbrev services : Services
services = record { transactions = service; sync_queue = none; connections = none }

abbrev headers : Str → Str
headers name = if str_eq name (codes "Authorization") then codes "Bearer ann" else codes "somebody"

abbrev delete_rent : Request
delete_rent = record {
  header = headers;
  query = λ name. [];
  id = 7 ∷ [];
  body = [];
  user_id = none;
  email = none;
}

serve-Passes_example :
    Passes libraries (handle_delete_transaction runtime codec services) delete_rent start (
      serve runtime codec services driver libraries postgres none
        (protected delete_transaction)
        delete_rent
        start)
unfolding endpoint
serve-Passes_example =
    serve-Passes runtime codec services driver libraries postgres none delete_transaction
      (handle_delete_transaction runtime codec services) delete_rent start refl

abbrev account_codec : AccountCodec
account_codec = record {
  decode_credentials = λ s. ok (record { email = codes "bob"; password = codes "secret" });
  decode_refresh_token = λ s. ok s;
  format_time = λ t. [];
  no_rows_text = codes "no rows in result set";
}

handle_login-wrong_example :
    handle_login driver libraries postgres account_codec delete_rent start ≡ (
      ok (write_error 401 (codes "invalid_credentials") (codes "invalid email or password")),
      start,
    )
unfolding where_rows str_eq normalize_email
handle_login-wrong_example =
    handle_login-wrong driver libraries postgres account_codec delete_rent start
      (record { email = codes "bob"; password = codes "secret" }) refl refl refl (unknown refl)
