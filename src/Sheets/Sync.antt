-- ===== src/Sheets/Sync.antt =====
-- internal/sync/service.go: one sync of a user's change events with a sheet. The repositories and
-- the sheets client are interfaces over a state `S`.
pub mod Ownership
pub mod Written
use moon_eye.Base.{
  ℕ, Bool, true, false, List, [], ◌∷◌, Str, Option, none, some, codes, str_eq, not, if◌then◌else◌,
}
use moon_eye.Base.Int.{ℤ, pos}
use moon_eye.Outcome.{Error, other, Result, Action, pure, fail, lift, ◌>>=◌, ◌>>◌}
use moon_eye.Values.{Time, raw, int64, time, Payload}
use moon_eye.Sheets.Rows.{SheetRowChange, Changes, SheetsConnection, SheetMapping, ChangeEvent}
use moon_eye.Sheets.Merge.{merge_sheet_rows}
use moon_eye.Sheets.Client.{SheetsClient}

-- The fields of `SyncService`; `nil` is a connection that `GetByID` gives with no error.
pub record SyncService (S : Type 0) : Type 0 where
  pub get_connection : Str → Action S (Option SheetsConnection)
  pub list_active_by_user : Str → Action S (List SheetsConnection)
  pub list_by_connection : Str → Action S (List SheetMapping)
  pub list_transaction_events_since : Str → ℤ → ℕ → Action S (List ChangeEvent)
  pub sheets : SheetsClient S

pub record SyncJobPayload : Type 0 where
  pub user_id : Str
  pub connection_id : Str
  pub mode : Str
  pub since_version : ℤ

abbrev pub not_owned : Error
not_owned = other (codes "connection not found or does not belong to user")

-- The guard `conn == nil || conn.UserID != userID`.
unfoldable pub owned : Str → Option SheetsConnection → Option SheetsConnection
owned user_id none = none
owned user_id (some conn) = if str_eq conn.user_id user_id then some conn else none

abbrev pub local_change : ChangeEvent → SheetRowChange
local_change ev = record {
  row_id = ev.entity_id;
  payload =
      (codes "raw", raw ev.payload)
      ∷ (codes "version", int64 ev.version)
      ∷ (codes "createdAt", time ev.created_at)
      ∷ [];
}

abbrev pub local_changes : List ChangeEvent → List SheetRowChange
local_changes [] = []
local_changes (ev ∷ evs) = local_change ev ∷ local_changes evs

module _ {S : Type 0} (parse_rfc3339 : Str → Time) (s : SyncService S) where
  -- `if len(merged) > 0 { ApplyChanges }`.
  unfoldable pub apply_merged : SheetsConnection → List SheetRowChange → Action S (Unit {0})
  apply_merged conn [] = pure tt
  apply_merged conn (r ∷ rows) = s.sheets.apply_changes conn (r ∷ rows)

  -- The part of `SyncUserTransactions` after the ownership check.
  unfoldable pub sync_owned : Str → Str → ℤ → Option SheetsConnection → Action S (Unit {0})
  sync_owned user_id conn_id since_version none = fail not_owned
  sync_owned user_id conn_id since_version (some conn) = do
    s.list_by_connection conn_id
    local_events ← s.list_transaction_events_since user_id since_version 1000
    changes ← s.sheets.fetch_changes conn []
    apply_merged conn (merge_sheet_rows parse_rfc3339 (local_changes local_events) changes.0.remote)

  unfoldable pub sync_user_transactions : Str → Str → Str → ℤ → Action S (Unit {0})
  sync_user_transactions user_id conn_id mode since_version = do
    conn ← s.get_connection conn_id
    sync_owned user_id conn_id since_version (owned user_id conn)

  -- The loop over the user's connections: the first error ends it.
  unfoldable pub sync_all : SyncJobPayload → List SheetsConnection → Action S (Unit {0})
  sync_all job [] = pure tt
  sync_all job (conn ∷ conns) =
      sync_user_transactions job.user_id conn.id job.mode job.since_version >> sync_all job conns

  -- A job that `json.Unmarshal` has read.
  unfoldable pub run_job : SyncJobPayload → Action S (Unit {0})
  run_job job = elim job.connection_id [
    | [] ↦ s.list_active_by_user job.user_id >>= sync_all job
    | c ∷ id ↦ sync_user_transactions job.user_id (c ∷ id) job.mode job.since_version
  ]

-- `HandleSyncJob` on a message's payload; `unmarshal` is `json.Unmarshal` into `SyncJobPayload`.
unfoldable pub handle_sync_job :
    {S : Type 0}
    → (Str → Time)
    → (Str → Result SyncJobPayload)
    → Option (SyncService S)
    → Str
    → Action S (Unit {0})
handle_sync_job parse_rfc3339 unmarshal none payload = fail (other (codes "nil SyncService"))
handle_sync_job parse_rfc3339 unmarshal (some s) payload =
    lift (unmarshal payload) >>= run_job parse_rfc3339 s
