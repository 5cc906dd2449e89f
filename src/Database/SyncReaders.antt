-- ===== src/Database/SyncReaders.antt =====
-- internal/db/sync_repositories.go: what the sync service reads.
use moon_eye.Base.{
  ℕ, Bool, ◌&&◌, List, [], ◌∷◌, Str, Option, none, some, codes, str_eq, str_lt, take, if◌then◌else◌,
}
use moon_eye.Base.Int.{ℤ, pos, leb_ℤ, ltb_ℤ}
use moon_eye.Outcome.{other, Result, ok, err, Action, lift, and_then, ◌>>=◌}
use moon_eye.Values.{Time, Float64, float_int64}
use moon_eye.Sheets.Rows.{SheetsConnection, SheetMapping, ChangeEvent}
use moon_eye.Sheets.Client.{SheetsClient}
use moon_eye.Sheets.Sync.{SyncService}
use moon_eye.Database.Pg.{Uuid, Driver}
use moon_eye.Database.Rows.{
  SheetsConnectionRow, SheetMappingRow, ChangeEventRecord, Database, execute,
}
use moon_eye.Database.Queries.{same_uuid, where_rows, first_row}

-- `Scan` of a NULL into a value that is no pointer.
abbrev pub not_null : {A : Type 0} → Option A → Result A
not_null none = err (other (codes "cannot scan NULL"))
not_null (some a) = ok a

-- `rows.Next` and `Scan`: the first row that does not convert ends the loop.
unfoldable pub scan_rows : {R A : Type 0} → (R → Result A) → List R → Result (List A)
scan_rows f [] = ok []
scan_rows f (r ∷ rs) = and_then (f r) (λ a. and_then (scan_rows f rs) (λ rest. ok (a ∷ rest)))

abbrev coalesce : Option Str → Str
coalesce none = []
coalesce (some s) = s

-- `ORDER BY sheet_column`, with the bytes compared.
unfoldable pub insert_mapping : SheetMappingRow → List SheetMappingRow → List SheetMappingRow
insert_mapping r [] = r ∷ []
insert_mapping r (q ∷ qs) =
    let rest = insert_mapping r qs in
    if str_lt q.sheet_column r.sheet_column then q ∷ rest else r ∷ q ∷ qs

unfoldable pub order_by_sheet_column : List SheetMappingRow → List SheetMappingRow
order_by_sheet_column [] = []
order_by_sheet_column (r ∷ rs) = insert_mapping r (order_by_sheet_column rs)

-- `ORDER BY version ASC`; rows of the same version stay in the order of the table.
unfoldable pub insert_by_version :
    ChangeEventRecord → List ChangeEventRecord → List ChangeEventRecord
insert_by_version r [] = r ∷ []
insert_by_version r (q ∷ qs) =
    let rest = insert_by_version r qs in if leb_ℤ r.version q.version then r ∷ q ∷ qs else q ∷ rest

unfoldable pub order_by_version : List ChangeEventRecord → List ChangeEventRecord
order_by_version [] = []
order_by_version (r ∷ rs) = insert_by_version r (order_by_version rs)

-- The events of a user's transactions after a version.
unfoldable pub is_transaction_since : Uuid → ℤ → ChangeEventRecord → Bool
is_transaction_since user_id since r =
    same_uuid r.user_id (some user_id)
    && str_eq r.entity_type (codes "transaction")
    && ltb_ℤ since r.version

-- `epoch` is EXTRACT(EPOCH FROM ...) as a float64.
module _ (d : Driver) (epoch : Time → Float64) where
  abbrev pub uuid_text : Option Uuid → Result Str
  uuid_text id = and_then (not_null id) (λ u. ok (d.print_uuid u))

  abbrev last_synced : Option Time → Option ℤ
  last_synced none = none
  last_synced (some t) = some (float_int64 (epoch t))

  unfoldable pub scan_connection : SheetsConnectionRow → Result SheetsConnection
  scan_connection r = and_then (uuid_text r.id) (λ id. and_then (uuid_text r.user_id) (λ user_id.
      ok (record {
        id = id;
        user_id = user_id;
        sheet_id = r.sheet_id;
        sheet_range = coalesce r.sheet_range;
        sync_mode = r.sync_mode;
        last_synced_at = last_synced r.last_synced_at;
      })))

  -- `PGShedsConnectionRepository.GetByID`. The service takes a missing connection as none, which this
  -- never gives.
  unfoldable pub get_connection_by_id : Str → Action Database (Option SheetsConnection)
  get_connection_by_id id = do
    uid ← lift (d.parse_uuid id)
    row ←
        execute
          (λ s. (first_row (where_rows (λ r. same_uuid r.id (some uid)) s.sheets_connections), s))
    lift (and_then (scan_connection row) (λ c. ok (some c)))

  unfoldable pub list_active_by_user : Str → Action Database (List SheetsConnection)
  list_active_by_user user_id = do
    uid ← lift (d.parse_uuid user_id)
    rows ←
        execute
          (λ s. (ok (where_rows (λ r. same_uuid r.user_id (some uid)) s.sheets_connections), s))
    lift (scan_rows scan_connection rows)

  unfoldable pub scan_mapping : SheetMappingRow → Result SheetMapping
  scan_mapping r = and_then (uuid_text r.id) (λ id.
      and_then (uuid_text r.connection_id) (λ connection_id.
        and_then (not_null r.transform) (λ transform. ok (record {
          id = id;
          connection_id = connection_id;
          sheet_column = r.sheet_column;
          db_field = r.db_field;
          transform = transform;
        }))))

  unfoldable pub list_by_connection : Str → Action Database (List SheetMapping)
  list_by_connection connection_id = do
    uid ← lift (d.parse_uuid connection_id)
    rows ← execute (λ s. (
      ok (
          order_by_sheet_column
            (where_rows (λ r. same_uuid r.connection_id (some uid)) s.sheet_mappings)),
      s,
    ))
    lift (scan_rows scan_mapping rows)

  unfoldable pub scan_event : ChangeEventRecord → Result ChangeEvent
  scan_event r = and_then (uuid_text r.entity_id) (λ entity_id.
      and_then (uuid_text r.user_id) (λ user_id. and_then (not_null r.created_at) (λ created_at.
        ok (record {
          id = pos r.id;
          entity_type = r.entity_type;
          entity_id = entity_id;
          user_id = user_id;
          op_type = r.op_type;
          version = r.version;
          payload = r.payload;
          created_at = created_at;
        }))))

  unfoldable pub list_transaction_events_since : Str → ℤ → ℕ → Action Database (List ChangeEvent)
  list_transaction_events_since user_id since limit = do
    uid ← lift (d.parse_uuid user_id)
    rows ← execute (λ s. (
      ok (
          take limit
            (order_by_version (where_rows (is_transaction_since uid since) s.change_events))),
      s,
    ))
    lift (scan_rows scan_event rows)

  -- The sync service over the database.
  unfoldable pub sync_service : SheetsClient Database → SyncService Database
  sync_service sheets = record {
    get_connection = get_connection_by_id;
    list_active_by_user = list_active_by_user;
    list_by_connection = list_by_connection;
    list_transaction_events_since = list_transaction_events_since;
    sheets = sheets;
  }
