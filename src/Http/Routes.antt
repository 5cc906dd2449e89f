-- ===== src/Http/Routes.antt =====
-- internal/auth/jwt_middleware.go, and the routes of internal/api/handlers.go and auth_handlers.go.
-- What chi does is written out: the handler that stands at a path is called, with the middleware of
-- its group before it, and any other path is not found.
use moon_eye.Base.{
  ℕ, ◌+◌, Bool, true, false, ◌&&◌, [], ◌∷◌, Str, Option, none, some, codes, str_eq, leb, ◌==◌, map,
  if◌then◌else◌,
}
use moon_eye.Outcome.{Result, ok, err, Action}
use moon_eye.Database.Pg.{Driver}
use moon_eye.Database.Rows.{Database}
use moon_eye.Transactions.Service.{Runtime}
use moon_eye.Auth.Crypto.{Libraries, verify}
use moon_eye.Auth.Service.{Postgres}
use moon_eye.Http.Messages.{Request, Response, text, with_user, write_json, write_error, respond}
use moon_eye.Http.Handlers.{
  Codec, Services, handle_health, handle_oauth_callback, handle_list_transactions,
  handle_create_transaction, handle_get_transaction, handle_update_transaction,
  handle_delete_transaction, handle_list_sheets_connections, handle_sync_trigger,
}
use moon_eye.Http.Accounts.{
  AccountCodec, handle_register, handle_login, handle_refresh, handle_logout,
}

abbrev pub unauthorized : Str → Response
unauthorized message = write_error 401 (codes "unauthorized") message

-- `strings.SplitN(s, " ", 2)`, if it gives two parts.
unfoldable pub split_space : Str → Option (Str × Str)
split_space [] = none
split_space (c ∷ s) =
    let rest = split_space s in
    if c == 32 then some ([], s) else elim rest [ none ↦ none | some (a, b) ↦ some (c ∷ a, b) ]

-- `strings.EqualFold(s, "Bearer")`: none of these letters folds to one outside ASCII.
abbrev lower_code : ℕ → ℕ
lower_code c = if leb 65 c && leb c 90 then c + 32 else c

unfoldable pub is_bearer : Str → Bool
is_bearer s = str_eq (map lower_code s) (codes "bearer")

abbrev token_if : Bool → Str → Option Str
token_if true token = some token
token_if false token = none

-- The token of a Bearer header.
unfoldable pub bearer_token : Str → Option Str
bearer_token header = elim (split_space header) [
  | none ↦ none
  | some (scheme, token) ↦ token_if (is_bearer scheme) token
]

-- The handler for a user that was verified, or a refusal.
abbrev pub pass_verified :
    (Request → Action Database Response) → Request → Result (Str × Str) → Action Database Response
pass_verified next r (ok (user_id, email)) = next (with_user user_id email r)
pass_verified next r (err e) = respond (unauthorized (codes "invalid token"))

abbrev pub pass_token :
    Libraries
    → (Request → Action Database Response)
    → Request
    → Option Str
    → Action Database Response
pass_token lib next r none s = respond (unauthorized (codes "invalid Authorization header")) s
pass_token lib next r (some token) s =
    let (verified, s') = verify lib token s in pass_verified next r verified s'

-- The header may be missing.
abbrev pub pass_header :
    Libraries → (Request → Action Database Response) → Request → Str → Action Database Response
pass_header lib next r [] = respond (unauthorized (codes "missing Authorization header"))
pass_header lib next r (c ∷ header) = pass_token lib next r (bearer_token (c ∷ header))

-- `JWTMiddleware`.
unfoldable pub jwt_middleware :
    Libraries → (Request → Action Database Response) → Request → Action Database Response
jwt_middleware lib next r = pass_header lib next r (r.header (codes "Authorization"))

-- The routes of the group that the middleware protects.
pub data Endpoint : Type 0 where
  list_transactions create_transaction get_transaction update_transaction : Endpoint
  delete_transaction list_connections trigger_sync : Endpoint

pub data Route : Type 0 where
  health oauth_callback register login refresh logout : Route
  protected : Endpoint → Route
  unknown : Route

abbrev pub not_found : Response
not_found = write_json 404 (text (codes "404 page not found"))

module _ (rt : Runtime Database) (codec : Codec) (svc : Services) (d : Driver) (lib : Libraries)
    (pg : Postgres) (accounts : Option AccountCodec) where
  -- The handler of a protected route, if it is registered.
  unfoldable pub endpoint : Endpoint → Option (Request → Action Database Response)
  endpoint list_transactions = some (handle_list_transactions rt codec svc)
  endpoint create_transaction = some (handle_create_transaction rt codec svc)
  endpoint get_transaction = some (handle_get_transaction rt codec svc)
  endpoint update_transaction = some (handle_update_transaction rt codec svc)
  endpoint delete_transaction = some (handle_delete_transaction rt codec svc)
  endpoint list_connections = elim svc.connections [
    | none ↦ none
    | some repo ↦ some (handle_list_sheets_connections rt codec svc repo)
  ]
  endpoint trigger_sync = elim svc.sync_queue [
    | none ↦ none
    | some q ↦ some (handle_sync_trigger rt codec svc q)
  ]

  -- `if h.svc.Auth != nil`; the codec stands for the service here.
  abbrev with_accounts :
      (AccountCodec → Request → Action Database Response) → Request → Action Database Response
  with_accounts handle r = elim accounts [ none ↦ respond not_found | some c ↦ handle c r ]

  unfoldable pub protect :
      Option (Request → Action Database Response) → Request → Action Database Response
  protect none r = respond not_found
  protect (some handle) r = jwt_middleware lib handle r

  unfoldable pub serve : Route → Request → Action Database Response
  serve health r = respond handle_health
  serve oauth_callback r = respond handle_oauth_callback
  serve register r = with_accounts (handle_register d lib pg) r
  serve login r = with_accounts (handle_login d lib pg) r
  serve refresh r = with_accounts (handle_refresh d lib pg) r
  serve logout r = with_accounts (handle_logout d lib pg) r
  serve (protected e) r = protect (endpoint e) r
  serve unknown r = respond not_found
