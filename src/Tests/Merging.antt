-- ===== src/Tests/Merging.antt =====
-- Two local rows, one with an id of its own, and two remote rows, one newer than the local row.
use moon_eye.Base.{◌≡◌, refl, List, [], ◌∷◌, Str, codes, some, str_eq, str_lt}
use moon_eye.Base.Int.{ℤ, pos}
use moon_eye.Values.{Time, int64}
use moon_eye.Sheets.Rows.{SheetRowChange}
use moon_eye.Sheets.Merge.{
  merge_sheet_rows, extract_version, put_rows, merge_remote, sort_strings, version_of, replaces,
  merge_row,
}
use moon_eye.Sheets.Merge.Keys.{find_row, IsAscending}
use moon_eye.Sheets.Merge.ByRow.{
  last_with, settle, row_ids, find_row-merge_sheet_rows, merge_sheet_rows-IsAscending,
}
use moon_eye.Sheets.Merge.Newest.{IsNotOlder, IsNewestOf, merge_sheet_rows-IsNewestOf}
use moon_eye.Sheets.Merge.Rerun.{merge_sheet_rows_idem}

abbrev no_clock : Str → Time
no_clock s = pos 0

abbrev row : Str → ℤ → SheetRowChange
row id v = record { row_id = id; payload = (codes "version", int64 v) ∷ [] }

abbrev local : List SheetRowChange
local = row (codes "b") (pos 1) ∷ row (codes "a") (pos 2) ∷ []

abbrev remote : List SheetRowChange
remote = row (codes "a") (pos 1) ∷ row (codes "b") (pos 3) ∷ []

find_row-merge_sheet_rows_example :
    find_row (codes "b") (merge_sheet_rows no_clock local remote)
    ≡ settle no_clock (codes "b") (last_with (codes "b") local) remote
find_row-merge_sheet_rows_example = find_row-merge_sheet_rows no_clock local remote (codes "b")

merge_sheet_rows-IsAscending_example :
    IsAscending (row_ids (merge_sheet_rows no_clock local remote))
merge_sheet_rows-IsAscending_example = merge_sheet_rows-IsAscending no_clock local remote

merge_sheet_rows-IsNewestOf_example :
    IsNewestOf no_clock (row (codes "b") (pos 3)) (codes "b") remote
    × ((r : SheetRowChange)
        → last_with (codes "b") local ≡ some r
        → IsNotOlder no_clock (row (codes "b") (pos 3)) r)
unfolding merge_sheet_rows put_rows merge_remote sort_strings find_row version_of extract_version
    replaces merge_row str_eq str_lt
merge_sheet_rows-IsNewestOf_example =
    merge_sheet_rows-IsNewestOf no_clock local remote (codes "b") (row (codes "b") (pos 3)) refl

merge_sheet_rows_idem_example :
    merge_sheet_rows no_clock (merge_sheet_rows no_clock local remote) remote
    ≡ merge_sheet_rows no_clock local remote
merge_sheet_rows_idem_example = merge_sheet_rows_idem no_clock local remote
