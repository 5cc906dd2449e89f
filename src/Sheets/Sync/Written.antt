-- ===== src/Sheets/Sync/Written.antt =====
-- What a sync sends to the sheet when the client is the one for Google Sheets.
use moon_eye.Base.{
  ℕ, ◌≡◌, refl, List, [], ◌∷◌, map, replicate, length, Str, some, codes, str_eq, str_eq_iff, arith,
  ◌<◌,
}
use moon_eye.Base.Int.{ℤ, ◌+ℤ◌}
use moon_eye.Base.Words.{wrap64, sign_bit}
use moon_eye.Outcome.{ok, wrapping}
use moon_eye.Strconv.{parse_int, parse_uint, parse_digits, itoa, format_digits}
use moon_eye.Values.{Time, Any, string}
use moon_eye.Grid.{blank, ordered_slice_by_index, fill_row, sort_ints, insert_int}
use moon_eye.Sheets.Rows.{SheetRowChange, SheetsConnection, ChangeEvent, SheetMapping}
use moon_eye.Sheets.Merge.{
  merge_sheet_rows, merge_remote, merge_row, put_rows, sort_strings, insert_string,
}
use moon_eye.Sheets.Google.{
  SheetsApi, row_payload, value_rows, remote_rows, changes_of, fetch_changes, apply_changes,
  google_sheets_client, range_of,
}
use moon_eye.Sheets.Google.RoundTrip.{value_rows-remote_rows}
use moon_eye.Sheets.Sync.{
  SyncService, owned, local_change, local_changes, apply_merged, sync_owned, sync_user_transactions,
}

local_change_blank :
    (ev : ChangeEvent) → ordered_slice_by_index (local_change ev).payload ≡ some (string [] ∷ [])
unfolding ordered_slice_by_index fill_row sort_ints insert_int wrap64 ◌+ℤ◌ parse_int parse_uint
    parse_digits itoa format_digits str_eq
local_change_blank ev = refl

-- Whatever the events, the row that is sent for each is one empty cell.
pub value_rows-local_changes :
    (evs : List ChangeEvent)
    → value_rows (local_changes evs) ≡ ok (replicate (length evs) (string [] ∷ []))
unfolding value_rows
value_rows-local_changes [] = refl
value_rows-local_changes (ev ∷ evs) =
    ground (arith, local_change_blank ev, value_rows-local_changes evs)

merge_sheet_rows-single :
    (parse_rfc3339 : Str → Time) (r : SheetRowChange)
    → merge_sheet_rows parse_rfc3339 [] (r ∷ []) ≡ r ∷ []
unfolding merge_sheet_rows merge_remote merge_row put_rows sort_strings insert_string
merge_sheet_rows-single parse_rfc3339 r = ground (arith, str_eq_iff r.row_id r.row_id)

send_single :
    {S : Type 0} (api : SheetsApi S) (conn : SheetsConnection) (i : ℕ) (row : List Any) (s : S)
    → length row < sign_bit
    → apply_changes (some api) conn (remote_rows i (row ∷ [])) s
      ≡ wrapping
          (codes "sheets values update")
          (api.values_update conn.sheet_id (range_of conn) (map blank row ∷ []))
          s
unfolding apply_changes remote_rows
send_single api conn i row s b = ground (arith, value_rows-remote_rows i (row ∷ []) (b, tt))

-- The service with the Google Sheets client over `api`.
abbrev pub with_google : {S : Type 0} → SyncService S → SheetsApi S → SyncService S
with_google svc api = record svc { sheets = google_sheets_client (some api) }

module _ {S : Type 0} (parse_rfc3339 : Str → Time) (svc : SyncService S) (api : SheetsApi S)
    (user_id conn_id mode : Str) (since : ℤ) (conn : SheetsConnection) (header row : List Any)
    (s s1 s2 s3 s4 : S) {maps : List SheetMapping}
    (found : svc.get_connection conn_id s ≡ (ok (some conn), s1)) (mine : conn.user_id ≡ user_id)
    (mapped : svc.list_by_connection conn_id s1 ≡ (ok maps, s2))
    (quiet : svc.list_transaction_events_since user_id since 1000 s2 ≡ (ok [], s3))
    (read : api.values_get conn.sheet_id (range_of conn) s3 ≡ (ok (header ∷ row ∷ []), s4))
    (narrow : length row < sign_bit) where
  -- With no local events and one data row, the sync sends that row alone to the range that it read,
  -- whose first row is the header.
  pub sync_user_transactions-header :
      sync_user_transactions parse_rfc3339 (with_google svc api) user_id conn_id mode since s
      ≡ wrapping
          (codes "sheets values update")
          (api.values_update conn.sheet_id (range_of conn) (map blank row ∷ []))
          s4
  unfolding sync_user_transactions sync_owned owned fetch_changes changes_of apply_merged
      remote_rows
  sync_user_transactions-header = ground (
    arith,
    str_eq_iff conn.user_id user_id,
    merge_sheet_rows-single parse_rfc3339
        (record { row_id = itoa 2; payload = row_payload 0 row [] }),
    send_single api conn 1 row s4 narrow,
  )
