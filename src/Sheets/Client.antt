-- ===== src/Sheets/Client.antt =====
-- internal/sync/sheets_client.go and noop_sheets_client.go: the interface of a sheets client over a
-- state `S`, and the client of local setups.
use moon_eye.Base.{List, [], Str}
use moon_eye.Outcome.{Action, pure}
use moon_eye.Sheets.Rows.{SheetRowChange, Changes, SheetsConnection}

pub record SheetsClient (S : Type 0) : Type 0 where
  pub fetch_changes : SheetsConnection → Str → Action S (Changes × Str)
  pub apply_changes : SheetsConnection → List SheetRowChange → Action S (Unit {0})

abbrev pub no_changes : Changes
no_changes = record { local = []; remote = [] }

abbrev pub noop_sheets_client : {S : Type 0} → SheetsClient S
noop_sheets_client = record {
  fetch_changes = λ conn cursor. pure (no_changes, cursor);
  apply_changes = λ conn rows. pure tt;
}
