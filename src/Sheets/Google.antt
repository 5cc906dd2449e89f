-- ===== src/Sheets/Google.antt =====
-- internal/sync/google_sheets_client.go: a sheets client over the Google Sheets API, which is the
-- parameter `SheetsApi`.
pub mod RoundTrip
use moon_eye.Base.{
  ℕ, suc, ◌+◌, Bool, List, [], ◌∷◌, Str, Option, none, some, codes, insert, length, ltb,
  if◌then◌else◌,
}
use moon_eye.Outcome.{
  Error, other, panic, wrap, Result, ok, err, Action, pure, fail, lift, and_then, wrapping, ◌>>=◌,
  ◌>>◌,
}
use moon_eye.Strconv.{itoa}
use moon_eye.Values.{Any, Payload}
use moon_eye.Grid.{ordered_slice_by_index}
use moon_eye.Sheets.Rows.{SheetRowChange, Changes, SheetsConnection}
use moon_eye.Sheets.Client.{SheetsClient, no_changes}

-- `Spreadsheets.Values.Get` and `Values.Update` of a spreadsheet's range.
pub record SheetsApi (S : Type 0) : Type 0 where
  pub values_get : Str → Str → Action S (List (List Any))
  pub values_update : Str → Str → List (List Any) → Action S (Unit {0})

abbrev pub not_configured : Error
not_configured = other (codes "Google Sheets client not configured: wire *sheets.Service")

unfoldable pub range_of : SheetsConnection → Str
range_of conn = elim conn.sheet_range [ [] ↦ codes "Sheet1" | c ∷ s ↦ c ∷ s ]

-- `for j, cell := range rows[i] { payload[strconv.Itoa(j)] = cell }`, from column `j` on.
unfoldable pub row_payload : ℕ → List Any → Payload → Payload
row_payload j [] p = p
row_payload j (cell ∷ cells) p = row_payload (suc j) cells (insert (itoa j) cell p)

-- The rows after the header, from index `i` on.
unfoldable pub remote_rows : ℕ → List (List Any) → List SheetRowChange
remote_rows i [] = []
remote_rows i (cells ∷ rows) =
    record { row_id = itoa (i + 1); payload = row_payload 0 cells [] } ∷ remote_rows (suc i) rows

unfoldable pub changes_of : List (List Any) → Changes × Str
changes_of [] = (no_changes, [])
changes_of (header ∷ rows) = (
  record { local = []; remote = remote_rows 1 rows },
  if ltb 1 (length (header ∷ rows)) then itoa (length (header ∷ rows)) else [],
)

-- The rows that are sent, or a panic of `OrderedSliceByIndex`.
unfoldable pub value_rows : List SheetRowChange → Result (List (List Any))
value_rows [] = ok []
value_rows (r ∷ rows) = elim (ordered_slice_by_index r.payload) [
  | none ↦ err panic
  | some cells ↦ and_then (value_rows rows) (λ rest. ok (cells ∷ rest))
]

module _ {S : Type 0} where
  unfoldable pub fetch_changes :
      Option (SheetsApi S) → SheetsConnection → Str → Action S (Changes × Str)
  fetch_changes none conn cursor = fail not_configured
  fetch_changes (some svc) conn cursor = do
    rows ← wrapping (codes "sheets values get") (svc.values_get conn.sheet_id (range_of conn))
    pure (changes_of rows)

  unfoldable pub apply_changes :
      Option (SheetsApi S) → SheetsConnection → List SheetRowChange → Action S (Unit {0})
  apply_changes none conn rows = fail not_configured
  apply_changes (some svc) conn [] = pure tt
  apply_changes (some svc) conn (r ∷ rows) = do
    values ← lift (value_rows (r ∷ rows))
    wrapping (codes "sheets values update") (svc.values_update conn.sheet_id (range_of conn) values)

  abbrev pub google_sheets_client : Option (SheetsApi S) → SheetsClient S
  google_sheets_client svc = record {
    fetch_changes = fetch_changes svc;
    apply_changes = apply_changes svc;
  }
