-- ===== src/App/Quiet.antt =====
-- internal/sync/service.go: what the handling of a sync job does to the tables.
use moon_eye.Base.{ℕ, take, List, [], ◌∷◌, Str, Option, none, some}
use moon_eye.Base.Int.{ℤ}
use moon_eye.Outcome.{Result, ok, Action, lift, and_then, ◌>>=◌}
use moon_eye.Values.{Time, Float64}
use moon_eye.Sheets.Rows.{SheetRowChange, SheetsConnection, ChangeEvent}
use moon_eye.Sheets.Client.{SheetsClient}
use moon_eye.Sheets.Merge.{merge_sheet_rows}
use moon_eye.Sheets.Sync.{
  SyncService, SyncJobPayload, owned, apply_merged, sync_owned, sync_user_transactions, sync_all,
  run_job, handle_sync_job, local_changes,
}
use moon_eye.Database.Pg.{Driver}
use moon_eye.Database.Rows.{Database}
use moon_eye.Database.SyncReaders.{
  get_connection_by_id, list_active_by_user, list_by_connection, list_transaction_events_since,
  sync_service, scan_connection, scan_mapping, scan_event, scan_rows, order_by_sheet_column,
  order_by_version, is_transaction_since,
}
use moon_eye.Database.Queries.{same_uuid, where_rows, first_row}
use moon_eye.Transactions.Reading.{Untouched, Untouched-refl, Reads, bind-Reads, reader-Reads}
use moon_eye.Queue.Stream.{Message}
use moon_eye.App.Jobs.{job_handler}

abbrev pub service : Driver → (Time → Float64) → SheetsClient Database → SyncService Database
service d epoch sheets = sync_service d epoch sheets

-- The calls of the client write to no table.
pub record IsOutside (sheets : SheetsClient Database) : Type 0 where
  pub fetches : (conn : SheetsConnection) (cursor : Str) → Reads (sheets.fetch_changes conn cursor)
  pub applies :
      (conn : SheetsConnection) (rows : List SheetRowChange)
      → Reads (sheets.apply_changes conn rows)

module _ (d : Driver) (epoch : Time → Float64) (parse_rfc3339 : Str → Time)
    (sheets : SheetsClient Database) (outside : IsOutside sheets) where
  abbrev syncing : SyncService Database
  syncing = service d epoch sheets

  get_connection-Reads : (id : Str) → Reads (get_connection_by_id d epoch id)
  unfolding get_connection_by_id
  get_connection-Reads id =
      reader-Reads (d.parse_uuid id)
        (λ uid s. first_row (where_rows (λ r. same_uuid r.id (some uid)) s.sheets_connections))
        (λ row. and_then (scan_connection d epoch row) (λ c. ok (some c)))

  list_active-Reads : (user_id : Str) → Reads (list_active_by_user d epoch user_id)
  unfolding list_active_by_user
  list_active-Reads user_id =
      reader-Reads (d.parse_uuid user_id)
        (λ uid s. ok (where_rows (λ r. same_uuid r.user_id (some uid)) s.sheets_connections))
        (scan_rows (scan_connection d epoch))

  list_by_connection-Reads : (id : Str) → Reads (list_by_connection d epoch id)
  unfolding list_by_connection
  list_by_connection-Reads id =
      reader-Reads (d.parse_uuid id)
        (λ uid s. ok (
          order_by_sheet_column
            (where_rows (λ r. same_uuid r.connection_id (some uid)) s.sheet_mappings)))
        (scan_rows (scan_mapping d epoch))

  list_events-Reads :
      (user_id : Str) (since : ℤ) (limit : ℕ)
      → Reads (list_transaction_events_since d epoch user_id since limit)
  unfolding list_transaction_events_since
  list_events-Reads user_id since limit =
      reader-Reads (d.parse_uuid user_id)
        (λ uid s. ok (
          take limit
            (order_by_version (where_rows (is_transaction_since uid since) s.change_events))))
        (scan_rows (scan_event d epoch))

  apply_merged-Reads :
      (conn : SheetsConnection) (rows : List SheetRowChange)
      → Reads (apply_merged parse_rfc3339 syncing conn rows)
  unfolding apply_merged sync_service
  apply_merged-Reads conn [] = Untouched-refl
  apply_merged-Reads conn (r ∷ rows) = outside.applies conn (r ∷ rows)

  -- What follows the events.
  abbrev with_events : SheetsConnection → List ChangeEvent → Action Database (Unit {0})
  with_events conn events = syncing.sheets.fetch_changes conn [] >>= λ changes.
      apply_merged parse_rfc3339 syncing conn
        (merge_sheet_rows parse_rfc3339 (local_changes events) changes.0.remote)

  sync_owned-Reads :
      (user_id conn_id : Str) (since : ℤ) (conn : Option SheetsConnection)
      → Reads (sync_owned parse_rfc3339 syncing user_id conn_id since conn)
  unfolding sync_owned sync_service
  sync_owned-Reads user_id conn_id since none = Untouched-refl
  sync_owned-Reads user_id conn_id since (some conn) =
      let events = list_transaction_events_since d epoch user_id since 1000 in
      bind-Reads (list_by_connection d epoch conn_id) (λ _. events >>= with_events conn)
        (list_by_connection-Reads conn_id)
        (λ _. bind-Reads events (with_events conn) (list_events-Reads user_id since 1000) (λ found.
          bind-Reads (sheets.fetch_changes conn [])
            (λ changes.
              apply_merged parse_rfc3339 syncing conn
                (merge_sheet_rows parse_rfc3339 (local_changes found) changes.0.remote))
            (outside.fetches conn [])
            (λ changes.
              apply_merged-Reads conn
                (merge_sheet_rows parse_rfc3339 (local_changes found) changes.0.remote))))

  sync_user-Reads :
      (user_id conn_id mode : Str) (since : ℤ)
      → Reads (sync_user_transactions parse_rfc3339 syncing user_id conn_id mode since)
  unfolding sync_user_transactions sync_service
  sync_user-Reads user_id conn_id mode since =
      bind-Reads (get_connection_by_id d epoch conn_id)
        (λ conn. sync_owned parse_rfc3339 syncing user_id conn_id since (owned user_id conn))
        (get_connection-Reads conn_id)
        (λ conn. sync_owned-Reads user_id conn_id since (owned user_id conn))

  sync_all-Reads :
      (job : SyncJobPayload) (conns : List SheetsConnection)
      → Reads (sync_all parse_rfc3339 syncing job conns)
  unfolding sync_all
  sync_all-Reads job [] = Untouched-refl
  sync_all-Reads job (conn ∷ conns) =
      bind-Reads
        (sync_user_transactions parse_rfc3339 syncing job.user_id conn.id job.mode
          job.since_version)
        (λ _. sync_all parse_rfc3339 syncing job conns)
        (sync_user-Reads job.user_id conn.id job.mode job.since_version)
        (λ _. sync_all-Reads job conns)

  run_job-Reads : (job : SyncJobPayload) → Reads (run_job parse_rfc3339 syncing job)
  unfolding run_job sync_service
  run_job-Reads job =
      elim job.connection_id
        as (λ id. Reads (elim id [
          | [] ↦ list_active_by_user d epoch job.user_id >>= sync_all parse_rfc3339 syncing job
          | c ∷ rest ↦
              sync_user_transactions parse_rfc3339 syncing job.user_id (c ∷ rest) job.mode
                job.since_version
        ])) [
          | [] ↦
              bind-Reads (list_active_by_user d epoch job.user_id)
                (sync_all parse_rfc3339 syncing job) (list_active-Reads job.user_id)
                (sync_all-Reads job)
          | c ∷ rest ↦ sync_user-Reads job.user_id (c ∷ rest) job.mode job.since_version
        ]

  -- A sync job goes one way: handling it leaves every table as it was, whatever the message says,
  -- whatever the sheets hold and whatever statements fail, with every sheets client whose own calls
  -- write to no table.
  pub job_handler-Untouched :
      (unmarshal : Str → Result SyncJobPayload) (msg : Message) (s : Database)
      → Untouched (job_handler parse_rfc3339 unmarshal syncing msg s).1 s
  unfolding job_handler handle_sync_job
  job_handler-Untouched unmarshal msg =
      bind-Reads (lift (unmarshal msg.payload)) (run_job parse_rfc3339 syncing) Untouched-refl
        run_job-Reads
