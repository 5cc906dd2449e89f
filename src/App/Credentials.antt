-- ===== src/App/Credentials.antt =====
-- internal/sync/sheets_factory.go: a client for Google Sheets from the credentials that the
-- environment names, and the choice of cmd/api/finance-api/main.go between it and the client that
-- does nothing. Credentials and the Sheets service are made by Google's libraries, a parameter.
use moon_eye.Base.{Bool, [], ◌∷◌, Str, Option, none, some, codes, ◌++◌, if◌then◌else◌}
use moon_eye.Outcome.{Result, ok, err, Action, lift, pure, wrapped, wrapping, ◌>>=◌}
use moon_eye.Sheets.Client.{SheetsClient, noop_sheets_client}
use moon_eye.Sheets.Google.{SheetsApi, google_sheets_client}

abbrev pub env_credentials_file : Str
env_credentials_file = codes "GOOGLE_APPLICATION_CREDENTIALS"

abbrev pub env_credentials_json : Str
env_credentials_json = codes "GOOGLE_SHEETS_CREDENTIALS_JSON"

-- `os.Getenv`, encoding/json, encoding/base64, strings and Google's libraries. The three last make a
-- `*sheets.Service`, from credentials, from a file of them, or from the application's default.
pub record GoogleLibraries (S C : Type 0) : Type 0 where
  pub get_env : Str → Str
  pub is_json : Str → Bool
  pub trim_space : Str → Str
  pub decode_base64 : Str → Result Str
  pub credentials_from_json : Str → Result C
  pub new_service_with : C → Action S (SheetsApi S)
  pub new_service_from_file : Str → Action S (SheetsApi S)
  pub new_service : Action S (SheetsApi S)
  pub quote : Str → Str

module _ {S C : Type 0} (lib : GoogleLibraries S C) where
  abbrev decoded_or : Str → Result Str → Str
  decoded_or raw (ok decoded) = if lib.is_json decoded then decoded else raw
  decoded_or raw (err e) = raw

  -- The value may be JSON in base64.
  unfoldable pub credentials_data : Str → Str
  credentials_data raw =
      if lib.is_json raw then raw else decoded_or raw (lib.decode_base64 (lib.trim_space raw))

  unfoldable pub service_from_json : Str → Action S (Option (SheetsApi S))
  service_from_json raw = do
    creds ← lift (
        wrapped (codes "sheets credentials from JSON")
          (lib.credentials_from_json (credentials_data raw)))
    svc ← wrapping (codes "sheets new service from credentials") (lib.new_service_with creds)
    pure (some svc)

  unfoldable pub service_from_file : Str → Action S (Option (SheetsApi S))
  service_from_file path = do
    svc ←
        wrapping (codes "sheets new service from file " ++ lib.quote path)
          (lib.new_service_from_file path)
    pure (some svc)

  -- Application Default Credentials.
  unfoldable pub service_from_default : Action S (Option (SheetsApi S))
  service_from_default = do
    svc ← wrapping (codes "sheets new service (ADC)") lib.new_service
    pure (some svc)

  -- After the check that one of the two variables, `raw` and `path`, is set.
  unfoldable pub service_from_either : Str → Str → Action S (Option (SheetsApi S))
  service_from_either (c ∷ raw) path = service_from_json (c ∷ raw)
  service_from_either [] (c ∷ path) = service_from_file (c ∷ path)
  service_from_either [] [] = service_from_default

  abbrev pub from_variables : Str → Str → Action S (Option (SheetsApi S))
  from_variables [] [] = pure none
  from_variables [] (c ∷ path) = service_from_either [] (c ∷ path)
  from_variables (c ∷ raw) path = service_from_either (c ∷ raw) path

  unfoldable pub new_sheets_service_from_env : Action S (Option (SheetsApi S))
  new_sheets_service_from_env =
      from_variables (lib.get_env env_credentials_json) (lib.get_env env_credentials_file)

  abbrev pub client_of : Option (SheetsApi S) → Option (SheetsClient S)
  client_of none = none
  client_of (some svc) = some (google_sheets_client (some svc))

  unfoldable pub new_google_sheets_client_from_env : Action S (Option (SheetsClient S))
  new_google_sheets_client_from_env = new_sheets_service_from_env >>= λ svc. pure (client_of svc)

  abbrev pub or_noop : Result (Option (SheetsClient S)) → SheetsClient S
  or_noop (ok (some client)) = client
  or_noop (ok none) = noop_sheets_client
  or_noop (err e) = noop_sheets_client

  -- The client of `newApp`: an error of the credentials is not an error of the start.
  unfoldable pub choose_sheets_client : S → SheetsClient S × S
  choose_sheets_client s = let (r, s') = new_google_sheets_client_from_env s in (or_noop r, s')
