-- ===== src/Sheets/Rows.antt =====
-- The data of internal/sync: sheet_row_change.go, changes.go, sheets_connection.go, and the types of
-- service.go.
use moon_eye.Base.{List, [], Str, Option}
use moon_eye.Base.Int.{ℤ}
use moon_eye.Values.{Time, Payload}

pub record SheetRowChange : Type 0 where
  pub row_id : Str
  pub payload : Payload

pub record Changes : Type 0 where
  pub local : List SheetRowChange
  pub remote : List SheetRowChange

pub record SheetsConnection : Type 0 where
  pub id : Str
  pub user_id : Str
  pub sheet_id : Str
  pub sheet_range : Str
  pub sync_mode : Str
  pub last_synced_at : Option ℤ

pub record SheetMapping : Type 0 where
  pub id : Str
  pub connection_id : Str
  pub sheet_column : Str
  pub db_field : Str
  pub transform : Str

pub record ChangeEvent : Type 0 where
  pub id : ℤ
  pub entity_type : Str
  pub entity_id : Str
  pub user_id : Str
  pub op_type : Str
  pub version : ℤ
  pub payload : Str
  pub created_at : Time

-- The zero value of a row.
abbrev pub no_row : SheetRowChange
no_row = record { row_id = []; payload = [] }
