-- ===== src/App/Unused.antt =====
-- internal/sync/sheets_factory.go: what the choice of a client depends on.
use moon_eye.Base.{◌≡◌, refl, ap, ap₂, [], ◌∷◌, Str, Option}
use moon_eye.Outcome.{Result, ok, err, Action}
use moon_eye.Sheets.Client.{SheetsClient, noop_sheets_client}
use moon_eye.Sheets.Google.{SheetsApi}
use moon_eye.App.Credentials.{
  GoogleLibraries, env_credentials_file, env_credentials_json, from_variables, service_from_either,
  service_from_json, service_from_file, client_of, or_noop, credentials_data,
  new_sheets_service_from_env, new_google_sheets_client_from_env, choose_sheets_client,
}

module _ {S C : Type 0} (lib : GoogleLibraries S C) where
  from_variables-default :
      (service : Action S (SheetsApi S)) (raw path : Str) (s : S)
      → from_variables (record lib { new_service = service }) raw path s
        ≡ from_variables lib raw path s
  unfolding service_from_either service_from_json service_from_file credentials_data
  from_variables-default service [] [] s = refl
  from_variables-default service [] (c ∷ path) s = refl
  from_variables-default service (c ∷ raw) path s = refl

  -- The choice, from what the environment gave.
  abbrev chosen : Result (Option (SheetsApi S)) × S → SheetsClient S × S
  chosen (r, s) =
      let p : Result (Option (SheetsClient S)) × S = elim r [
        | ok svc ↦ (ok (client_of lib svc), s)
        | err e ↦ (err e, s)
      ] in
      (or_noop lib p.0, p.1)

  -- Application Default Credentials are never tried: whatever a service made from them would be, the
  -- same client is chosen, with the same effects. Where neither variable is set, the client that
  -- does nothing is chosen, with no effect.
  pub choose_sheets_client-default :
      (service : Action S (SheetsApi S)) (s : S)
      → (choose_sheets_client (record lib { new_service = service }) s ≡ choose_sheets_client lib s)
        × (lib.get_env env_credentials_json ≡ []
            → lib.get_env env_credentials_file ≡ []
            → choose_sheets_client lib s ≡ (noop_sheets_client, s))
  unfolding choose_sheets_client new_google_sheets_client_from_env new_sheets_service_from_env
  choose_sheets_client-default service s = (
    ap chosen (
        from_variables-default service (lib.get_env env_credentials_json)
          (lib.get_env env_credentials_file) s),
    λ h k. ap chosen (ap₂ (λ raw path. from_variables lib raw path s) h k),
  )
