-- ===== src/Tests/Syncing.antt =====
-- A service with one connection, over a state that records what is written.
use moon_eye.Base.{◌≡◌, refl, List, [], ◌∷◌, Str, codes, none, some, str_eq}
use moon_eye.Base.Int.{pos}
use moon_eye.Outcome.{ok, pure}
use moon_eye.Values.{Time, Any, string}
use moon_eye.Sheets.Rows.{SheetsConnection}
use moon_eye.Sheets.Merge.{merge_sheet_rows}
use moon_eye.Sheets.Client.{noop_sheets_client}
use moon_eye.Sheets.Sync.{SyncService, owned, apply_merged, sync_owned, sync_user_transactions}
use moon_eye.Sheets.Sync.Ownership.{sync_user_transactions-owned}

abbrev Written : Type 0
Written = List (List (List Any))

abbrev no_clock : Str → Time
no_clock s = pos 0

abbrev home : SheetsConnection
home = record {
  id = codes "c1";
  user_id = codes "ann";
  sheet_id = codes "s1";
  sheet_range = [];
  sync_mode = codes "two-way";
  last_synced_at = none;
}

abbrev service : SyncService Written
service = record {
  get_connection = λ id. pure (some home);
  list_active_by_user = λ user_id. pure (home ∷ []);
  list_by_connection = λ id. pure [];
  list_transaction_events_since = λ user_id since limit. pure [];
  sheets = noop_sheets_client;
}

abbrev header : List Any
header = string (codes "Amount") ∷ []

sync_user_transactions-owned_example :
    (conn : SheetsConnection) × ((service.get_connection (codes "c1") []).0 ≡ ok (some conn))
    × (conn.user_id ≡ codes "ann")
unfolding sync_user_transactions sync_owned owned str_eq apply_merged merge_sheet_rows
sync_user_transactions-owned_example =
    sync_user_transactions-owned no_clock service (codes "ann") (codes "c1") [] (pos 0) [] refl
