-- ===== src/Lib.antt =====
-- Moon-eye's backend: transactions of an expense tracker, their change events, the projections
-- that are computed from them, and the sync of changes with a Google sheet. Paths are those of
-- the repository.
--
-- Base, Outcome, Strconv, Values: shared helpers. A string is a list of bytes, a Go `error`
-- result is `Outcome.Result`, a call that changes state is `Outcome.Action`, and `Strconv` and
-- `Values` give the parts of Go's strconv, time and float64 that the program uses. A run-time
-- panic is an error.
--
-- Grid: backend/pkg/shared/mapx/mapx.go (`OrderedSliceByIndex`), a map of cells keyed by column
-- numbers as one row. The sync writes every row through it.
--
-- Sheets: backend/internal/sync. `Rows` holds the data, `Merge` is merge.go (`MergeSheetRows`),
-- `Client` is sheets_client.go and noop_sheets_client.go, `Google` is google_sheets_client.go,
-- and `Sync` is service.go (`SyncUserTransactions`, `HandleSyncJob`). The repositories, the
-- Google Sheets API, JSON decoding and the parsing of RFC 3339 times are parameters.
--
-- Projection: backend/internal/service/projection. `Store` is the part of the database that it
-- uses, with a list that tells which statements to come fail; `Source` is source_db.go and
-- cursor_db.go, `Tables` the upserts, `Summary` transaction_summary.go, `Balance`
-- monthly_balance.go, `Runner` runner.go, and `Worker` the runner as
-- backend/cmd/api/worker-service/main.go sets it up, with what a turn of it does when all goes
-- well (`Clean`) and whatever fails (`Accepted`, `Cursor`), and how it catches up (`Growing`,
-- `Caught`). JSON decoding, the month of a time and the rounding to NUMERIC(18,2) are
-- parameters.
--
-- Pagination: backend/pkg/shared/pagination/pagination.go.
--
-- Database: the tables of transactions, change events, users, refresh tokens, sheet connections
-- and sheet mappings. `Pg` is backend/pkg/shared/pgtypex and uuidx, `Rows` the tables and the
-- state, `Args` and `Queries` the statements of backend/internal/db/sqlc, `Models` and
-- `Repository` backend/internal/db/models.go, transaction_repository_impl.go and
-- change_event_repository.go, `Tx` is tx.go (`RunInTx`). The parameter `Driver` is what the code
-- calls of its libraries, `admit` what Postgres does to a row that is written. `Atomicity`,
-- `Versions` and `Hidden` are about transactions, about updates and deletions, and about what is
-- seen of a new row.
--
-- `ChangeEvents` holds the queries of change events that sqlc generates. `Users` and
-- `RefreshTokens` are their statements of sqlc with user_repository_impl.go and
-- refresh_token_repository_impl.go, and `SyncReaders` is
-- backend/internal/db/sync_repositories.go, with what it lists (`Listed`, `Picked`).
--
-- Transactions: `Domain` is backend/internal/domain/transaction.go and the interfaces of
-- backend/internal/service/interfaces.go, `Adapter` is backend/internal/wiring, which fills them
-- from the repositories, and `Service` is backend/internal/service/transaction_service.go.
-- `Reading`, `Outbox`, `Queueing`, `Listing` and `AnyUser` are about reads, change events, the
-- sync queue, listings, and who may read and delete.
--
-- Auth: `Compare` and `Crypto` are backend/pkg/shared/crypto, backend/pkg/shared/auth (jwt.go,
-- refresh_token.go) and backend/pkg/shared/stringsx; `Service` is
-- backend/internal/service/auth_service.go (`Register`, `Authenticate`, `Refresh`, `Revoke`).
-- bcrypt, AES-GCM, JWT, base64 and the random source are the parameter `Libraries`. `Keeping`,
-- `Reads` and `Lasting` say what the operations leave of the refresh tokens, `Lookup` and
-- `Accepted` which tokens are accepted, `Sessions` that a revoked token stays refused, `Failing`
-- what a failed refresh leaves, `NotNull` is about the column updated_at, and `Encoding` about
-- the text of a refresh token.
--
-- Queue: `Stream` is backend/internal/queue/queue.go (`RedisStreamQueue`) and
-- backend/internal/worker/worker.go (`Runner`), over a parameter for go-redis; `Delivery` and
-- `Fields` are about what is handled and what is carried. `Items` is
-- backend/internal/sync/worker.go (`StartWorker`) with its table, and `Drained` about its turns.
--
-- Http: `Messages` holds requests and responses (backend/pkg/shared/httpx, context.go of
-- backend/pkg/shared/auth), `Handlers` is backend/internal/api/handlers.go, `Accounts`
-- auth_handlers.go, `Routes` backend/internal/auth/jwt_middleware.go with the routes, and
-- `Access` says who reaches a handler, and `Login` what a failed login tells. JSON and the
-- parsing of times are parameters, and a panic of a handler is an error of it.
--
-- App: the programs of backend/cmd/api. `Config` and `Connect` are backend/pkg/shared/config, db
-- and redisx, `Start` what each program loads and connects to, `Credentials`
-- backend/internal/sync/sheets_factory.go, `Health` the handlers of /health, `Server` is
-- `App.Run` of finance-api as a step relation (a goroutine, signals and a `select`), `Jobs`
-- backend/internal/service/sync_queue_redis.go with the stream of sync jobs between finance-api
-- and the two workers, and `Wiring` is `newApp` and `newRouter`. `Opened`, `Unused`, `Agreement`
-- and `Shutdown` are about connections, credentials, health and the end of the server; `Carried`
-- follows a job to the worker, `Quiet` is about what the worker does to the tables, `Stored`,
-- `Answered` and `Served` a request to the tables, and `Asked` what the job of a write asks for.
-- viper, pgxpool, go-redis and Google's libraries are parameters.
--
-- Tests: the theorems at concrete inputs.
--
-- Bounds: `Strconv.format_digits` has fuel for 20 digits, enough for 64 bits; `Runner.rounds`
-- takes the number of turns, `Stream.consume_rounds` and `Items.turns` the number of rounds
-- before the context is done. A slice that memory cannot hold, logging, waiting and contexts are
-- not modelled, but for the context of GET /health, whose timeout it has. The constraints of the
-- tables of change events and of projections (backend/migrations/0001_init.sql and
-- 0004_projections.sql) are not modelled either: where one of them refuses a row, the statement
-- is among those that fail.
pub mod Base
pub mod Outcome
pub mod Strconv
pub mod Values
pub mod Grid
pub mod Sheets
pub mod Projection
pub mod Pagination
pub mod Database
pub mod Transactions
pub mod Auth
pub mod Queue
pub mod Http
pub mod App
pub mod Tests
