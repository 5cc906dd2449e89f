-- ===== src/App/Wiring.antt =====
-- `newApp` and `newRouter` of cmd/api/finance-api/main.go, with internal/db/repositories.go: the
-- services over the repositories, and the routes. Of the middleware, `Recoverer` answers a panic;
-- request ids, CORS headers and the time limit are left out, and the page of /metrics is Prometheus'.
use moon_eye.Base.{ℕ, Option, none, some}
use moon_eye.Outcome.{Result, ok, err, Action}
use moon_eye.Values.{Time, Float64}
use moon_eye.Database.Pg.{Driver}
use moon_eye.Database.Rows.{TransactionRow, Database}
use moon_eye.Database.SyncReaders.{list_active_by_user, sync_service}
use moon_eye.Sheets.Sync.{SyncService}
use moon_eye.Transactions.Domain.{SyncQueue}
use moon_eye.Transactions.Service.{Runtime, TransactionService}
use moon_eye.Transactions.Adapter.{transaction_adapter, change_event_writer, tx_manager}
use moon_eye.Auth.Crypto.{Libraries}
use moon_eye.Auth.Service.{Postgres}
use moon_eye.Queue.Stream.{RedisClient}
use moon_eye.Http.Messages.{Request, Response, empty, write_json}
use moon_eye.Http.Handlers.{Codec, Services}
use moon_eye.Http.Accounts.{AccountCodec}
use moon_eye.Http.Routes.{Route, health, oauth_callback, not_found, serve}
use moon_eye.App.Credentials.{GoogleLibraries, choose_sheets_client}
use moon_eye.App.Health.{HealthStatus, Pings, finance_health}
use moon_eye.App.Jobs.{app_queue}

abbrev queue_of : Option (RedisClient Database) → Option (SyncQueue Database)
queue_of none = none
queue_of (some client) = some (app_queue client)

module _ (d : Driver) (admit : TransactionRow → Result TransactionRow) where
  unfoldable pub new_transaction_service :
      Option (RedisClient Database) → TransactionService Database
  new_transaction_service redis = record {
    repo = transaction_adapter d admit;
    events = some (change_event_writer d);
    sync_q = queue_of redis;
    tx_runner = some (tx_manager d admit);
  }

module _ (d : Driver) (epoch : Time → Float64)
    (admit : TransactionRow → Result TransactionRow) where
  unfoldable pub new_services : Option (RedisClient Database) → Services
  new_services redis = record {
    transactions = new_transaction_service d admit redis;
    sync_queue = queue_of redis;
    connections = some (record { list_active_by_user = list_active_by_user d epoch });
  }

  -- What `newApp` puts together; `Sync` is kept, and no handler uses it.
  pub record App : Type 1 where
    pub services : Services
    pub sync : SyncService Database

  unfoldable pub new_app :
      {C : Type 0}
      → GoogleLibraries Database C
      → Option (RedisClient Database)
      → Database
      → App × Database
  new_app google redis s =
      let (sheets, s') = choose_sheets_client google s in
      (record { services = new_services redis; sync = sync_service d epoch sheets }, s')

-- The paths of `newRouter`: its own, and those of `RegisterAPIRoutes`, where the two routes of
-- `RegisterRoutes` alone are not found.
pub data AppRoute : Type 0 where
  app_health metrics : AppRoute
  api : Route → AppRoute

pub data AppResponse : Type 0 where
  health_page : ℕ → HealthStatus → AppResponse
  metrics_page : AppResponse
  page : Response → AppResponse

-- `Recoverer`: a handler that panics is answered with 500.
unfoldable pub recovered : Action Database Response → Action Database AppResponse
recovered m s =
    let (r, s') = m s in
    elim r [ ok p ↦ (ok (page p), s') | err e ↦ (ok (page (write_json 500 empty)), s') ]

module _ (rt : Runtime Database) (codec : Codec) (svc : Services) (d : Driver) (lib : Libraries)
    (pg : Postgres) (accounts : AccountCodec) {C : Type 0} (pings : Pings Database C)
    (context : C) where
  unfoldable pub serve_api : Route → Request → Action Database Response
  serve_api health r s = (ok not_found, s)
  serve_api oauth_callback r s = (ok not_found, s)
  serve_api route r s = serve rt codec svc d lib pg (some accounts) route r s

  unfoldable pub serve_app : AppRoute → Request → Action Database AppResponse
  serve_app app_health r s =
      let ((code, status), s') = finance_health pings context s in
      (ok (health_page code status), s')
  serve_app metrics r s = (ok metrics_page, s)
  serve_app (api route) r s = recovered (serve_api route r) s
