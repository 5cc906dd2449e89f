-- ===== src/Sheets/Merge.antt =====
-- internal/sync/merge.go: the two-way merge of rows by version, then by creation time.
pub mod Keys
pub mod ByRow
pub mod Newest
pub mod Rerun
use moon_eye.Base.{
  Bool, true, false, List, [], ◌∷◌, Str, Option, none, some, codes, lookup, insert, str_lt,
  if◌then◌else◌,
}
use moon_eye.Base.Int.{ℤ, pos, ltb_ℤ, eq_ℤ}
use moon_eye.Strconv.{parse_int}
use moon_eye.Values.{
  Time, zero_time, unix, after, is_zero, float_int64, Any, int64, int, float64, string, time,
  Payload, get,
}
use moon_eye.Sheets.Rows.{SheetRowChange, no_row}

-- The type switch of `extractVersion`; `none` falls through to the next key.
unfoldable pub version_of : Any → Option ℤ
version_of (int64 v) = some v
version_of (int v) = some v
version_of (float64 f) = some (float_int64 f)
version_of (string s) = some (parse_int s)
version_of _ = none

unfoldable pub extract_version : Payload → ℤ
unfolding version_of
extract_version p = elim (version_of (get p (codes "version"))) [
  | some v ↦ v
  | none ↦ elim (version_of (get p (codes "1"))) [ some v ↦ v | none ↦ pos 0 ]
]

-- `m[k] = v` for each key in turn, over the rows.
abbrev pub ById : Type 0
ById = List (Str × SheetRowChange)

unfoldable pub put_rows : ById → List SheetRowChange → ById
put_rows m [] = m
put_rows m (r ∷ rs) = put_rows (insert r.row_id r m) rs

-- `sort.Strings`.
unfoldable pub insert_string : Str → List Str → List Str
insert_string a [] = a ∷ []
insert_string a (b ∷ bs) = if str_lt b a then b ∷ insert_string a bs else a ∷ b ∷ bs

unfoldable pub sort_strings : List Str → List Str
unfolding insert_string
sort_strings [] = []
sort_strings (a ∷ as') = insert_string a (sort_strings as')

-- The keys of a map. The iteration order of Go is arbitrary; the keys are sorted before use.
abbrev pub keys : ById → List Str
keys [] = []
keys ((k, r) ∷ m) = k ∷ keys m

-- `byID[id]`.
abbrev pub row_at : Option SheetRowChange → SheetRowChange
row_at none = no_row
row_at (some r) = r

abbrev pub collect : ById → List Str → List SheetRowChange
collect m [] = []
collect m (id ∷ ids) = row_at (lookup id m) ∷ collect m ids

-- `t, _ := time.Parse(time.RFC3339, v)`: the zero time on an error.
module _ (parse_rfc3339 : Str → Time) where
  -- The type switch of `extractCreatedAt`.
  unfoldable pub created_at_of : Any → Option Time
  created_at_of (time t) = some t
  created_at_of (string s) = if is_zero (parse_rfc3339 s) then none else some (parse_rfc3339 s)
  created_at_of _ = none

  unfoldable pub extract_created_at : Payload → Time
  unfolding created_at_of extract_version
  extract_created_at p = elim (created_at_of (get p (codes "createdAt"))) [
    | some t ↦ t
    | none ↦ elim (created_at_of (get p (codes "2"))) [
      | some t ↦ t
      | none ↦ if ltb_ℤ (pos 0) (extract_version p) then unix (extract_version p) else zero_time
    ]
  ]

  -- The tests of the remote loop: is `byID[r.RowID] = r` executed when `cur` is there?
  unfoldable pub replaces : SheetRowChange → SheetRowChange → Bool
  replaces r cur =
      let v_cur = extract_version cur.payload in
      let v_new = extract_version r.payload in
      if ltb_ℤ v_cur v_new
      then true
      else if eq_ℤ v_new v_cur
      then after (extract_created_at r.payload) (extract_created_at cur.payload)
      else false

  -- The body of the remote loop, with what `byID` has under the row's id.
  unfoldable pub merge_row : Option SheetRowChange → SheetRowChange → ById → ById
  merge_row none r m = insert r.row_id r m
  merge_row (some cur) r m = if replaces r cur then insert r.row_id r m else m

  unfoldable pub merge_remote : ById → List SheetRowChange → ById
  unfolding merge_row
  merge_remote m [] = m
  merge_remote m (r ∷ rs) = merge_remote (merge_row (lookup r.row_id m) r m) rs

  unfoldable pub merge_sheet_rows : List SheetRowChange → List SheetRowChange → List SheetRowChange
  unfolding put_rows merge_remote sort_strings
  merge_sheet_rows local remote =
      let by_id = merge_remote (put_rows [] local) remote in
      collect by_id (sort_strings (keys by_id))
