-- ===== src/Sheets/Merge/ByRow.antt =====
-- `MergeSheetRows` row by row: what it keeps under an id, without the map and the sort.
use moon_eye.Base.{
  ◌≡◌, refl, ◌∙◌, ap, true, List, [], ◌∷◌, Str, Option, none, some, lookup, insert, lookup-insert,
  str_eq, str_eq_iff, arith, Bool-cases, Option-cases, inl, inr, if◌then◌else◌,
}
use moon_eye.Values.{Time}
use moon_eye.Sheets.Rows.{SheetRowChange}
use moon_eye.Sheets.Merge.{
  ById, keys, collect, put_rows, sort_strings, replaces, merge_row, merge_remote, merge_sheet_rows,
}
use moon_eye.Sheets.Merge.Keys.{
  mem, find_row, is_some, IsAscending, IsDistinct, IsKeyed, mem-sort_strings,
  sort_strings-IsAscending, mem-keys, insert-IsDistinct, insert-IsKeyed, lookup-IsKeyed,
  find_row-collect,
}

-- The last of the rows that has this id.
abbrev pub last_with : Str → List SheetRowChange → Option SheetRowChange
last_with id [] = none
last_with id (r ∷ rs) = elim (last_with id rs) [
  | some w ↦ some w
  | none ↦ if str_eq r.row_id id then some r else none
]

abbrev or_else : Option SheetRowChange → Option SheetRowChange → Option SheetRowChange
or_else (some r) o = some r
or_else none o = o

lookup-put_rows :
    (id : Str) (m : ById) (rs : List SheetRowChange)
    → lookup id (put_rows m rs) ≡ or_else (last_with id rs) (lookup id m)
unfolding put_rows
lookup-put_rows id m [] = refl
lookup-put_rows id m (r ∷ rs) =
    lookup-put_rows id (insert r.row_id r m) rs ∙ ground (arith, lookup-insert r.row_id id r m)

put_rows-IsKeyed : (m : ById) (rs : List SheetRowChange) → IsKeyed m → IsKeyed (put_rows m rs)
unfolding put_rows
put_rows-IsKeyed m [] h = h
put_rows-IsKeyed m (r ∷ rs) h = put_rows-IsKeyed (insert r.row_id r m) rs (insert-IsKeyed r m h)

put_rows-IsDistinct :
    (m : ById) (rs : List SheetRowChange) → IsDistinct (keys m) → IsDistinct (keys (put_rows m rs))
unfolding put_rows
put_rows-IsDistinct m [] h = h
put_rows-IsDistinct m (r ∷ rs) h =
    put_rows-IsDistinct (insert r.row_id r m) rs (insert-IsDistinct r.row_id r m h)

abbrev pub row_ids : List SheetRowChange → List Str
row_ids [] = []
row_ids (r ∷ rs) = r.row_id ∷ row_ids rs

row_ids-collect :
    (m : ById) (ids : List Str)
    → IsKeyed m
    → ((k : Str) → mem k ids ≡ true → is_some (lookup k m) ≡ true)
    → row_ids (collect m ids) ≡ ids
unfolding mem
row_ids-collect m [] keyed has = refl
row_ids-collect m (k ∷ ids) keyed has = elim (Option-cases (lookup k m)) [
  | inl missing ↦ cc (has k (ground (arith, str_eq_iff k k)), ap is_some missing)
  | inr (r, e) ↦ rw e (
      ground (
        arith,
        lookup-IsKeyed k m r keyed e,
        row_ids-collect m ids keyed (λ j h. has j (ground arith)),
      ))
]

module _ (parse_rfc3339 : Str → Time) where
  -- The row that stays when `r` meets what is there.
  abbrev pub winner : Option SheetRowChange → SheetRowChange → SheetRowChange
  winner none r = r
  winner (some cur) r = if replaces parse_rfc3339 r cur then r else cur

  -- What the remote rows with this id, in their order, leave of `cur`.
  abbrev pub settle : Str → Option SheetRowChange → List SheetRowChange → Option SheetRowChange
  settle id cur [] = cur
  settle id cur (r ∷ rs) = settle id (if str_eq r.row_id id then some (winner cur r) else cur) rs

  lookup-merge_row :
      (id : Str) (r : SheetRowChange) (m : ById)
      → lookup id (merge_row parse_rfc3339 (lookup r.row_id m) r m)
        ≡ (if str_eq r.row_id id then some (winner (lookup id m) r) else lookup id m)
  unfolding merge_row
  lookup-merge_row id r m = elim (Bool-cases (str_eq r.row_id id)) [
    | inl same ↦
        let at_id : lookup r.row_id m ≡ lookup id m =
          ap (λ (k : Str). lookup k m) ((str_eq_iff r.row_id id).0 same) in
        ground (arith, lookup-insert r.row_id id r m)
    | inr differs ↦ ground (arith, lookup-insert r.row_id id r m)
  ]

  lookup-merge_remote :
      (id : Str) (m : ById) (rs : List SheetRowChange)
      → lookup id (merge_remote parse_rfc3339 m rs) ≡ settle id (lookup id m) rs
  unfolding merge_remote
  lookup-merge_remote id m [] = refl
  lookup-merge_remote id m (r ∷ rs) =
      let m' = merge_row parse_rfc3339 (lookup r.row_id m) r m in
      lookup-merge_remote id m' rs
      ∙ ap (λ (o : Option SheetRowChange). settle id o rs) (lookup-merge_row id r m)

  merge_row-IsKeyed :
      (o : Option SheetRowChange) (r : SheetRowChange) (m : ById)
      → IsKeyed m
      → IsKeyed (merge_row parse_rfc3339 o r m)
  unfolding merge_row
  merge_row-IsKeyed none r m h = insert-IsKeyed r m h
  merge_row-IsKeyed (some cur) r m h = elim (Bool-cases (replaces parse_rfc3339 r cur)) [
    | inl wins ↦ rw wins (insert-IsKeyed r m h)
    | inr loses ↦ rw loses h
  ]

  merge_row-IsDistinct :
      (o : Option SheetRowChange) (r : SheetRowChange) (m : ById)
      → IsDistinct (keys m)
      → IsDistinct (keys (merge_row parse_rfc3339 o r m))
  unfolding merge_row
  merge_row-IsDistinct none r m h = insert-IsDistinct r.row_id r m h
  merge_row-IsDistinct (some cur) r m h = elim (Bool-cases (replaces parse_rfc3339 r cur)) [
    | inl wins ↦ rw wins (insert-IsDistinct r.row_id r m h)
    | inr loses ↦ rw loses h
  ]

  merge_remote-IsKeyed :
      (m : ById) (rs : List SheetRowChange) → IsKeyed m → IsKeyed (merge_remote parse_rfc3339 m rs)
  unfolding merge_remote
  merge_remote-IsKeyed m [] h = h
  merge_remote-IsKeyed m (r ∷ rs) h =
      merge_remote-IsKeyed (merge_row parse_rfc3339 (lookup r.row_id m) r m) rs
        (merge_row-IsKeyed (lookup r.row_id m) r m h)

  merge_remote-IsDistinct :
      (m : ById) (rs : List SheetRowChange)
      → IsDistinct (keys m)
      → IsDistinct (keys (merge_remote parse_rfc3339 m rs))
  unfolding merge_remote
  merge_remote-IsDistinct m [] h = h
  merge_remote-IsDistinct m (r ∷ rs) h =
      merge_remote-IsDistinct (merge_row parse_rfc3339 (lookup r.row_id m) r m) rs
        (merge_row-IsDistinct (lookup r.row_id m) r m h)

  module _ (local remote : List SheetRowChange) where
    abbrev by_id : ById
    by_id = merge_remote parse_rfc3339 (put_rows [] local) remote

    by_id-IsKeyed : IsKeyed by_id
    by_id-IsKeyed = merge_remote-IsKeyed (put_rows [] local) remote (put_rows-IsKeyed [] local tt)

    sorted_keys_found :
        (k : Str) → mem k (sort_strings (keys by_id)) ≡ true → is_some (lookup k by_id) ≡ true
    sorted_keys_found k h = cc (mem-sort_strings k (keys by_id), mem-keys k by_id)

    -- Under each id the merge keeps the last local row of that id, replaced in turn by each remote
    -- row of that id that the rule prefers; an id that neither list has is not in the result.
    pub find_row-merge_sheet_rows :
        (id : Str)
        → find_row id (merge_sheet_rows parse_rfc3339 local remote)
          ≡ settle id (last_with id local) remote
    unfolding merge_sheet_rows
    find_row-merge_sheet_rows id =
        find_row-collect id by_id (sort_strings (keys by_id)) by_id-IsKeyed sorted_keys_found
        ∙ ground (
          arith,
          mem-sort_strings id (keys by_id),
          mem-keys id by_id,
          lookup-merge_remote id (put_rows [] local) remote,
          ap (λ (o : Option SheetRowChange). settle id o remote) (lookup-put_rows id [] local),
        )

    -- The result is in strictly ascending order of the ids, so no id is repeated.
    pub merge_sheet_rows-IsAscending :
        IsAscending (row_ids (merge_sheet_rows parse_rfc3339 local remote))
    unfolding merge_sheet_rows
    merge_sheet_rows-IsAscending =
        rw (row_ids-collect by_id (sort_strings (keys by_id)) by_id-IsKeyed sorted_keys_found) (
          sort_strings-IsAscending (keys by_id)
            (merge_remote-IsDistinct (put_rows [] local) remote (put_rows-IsDistinct [] local tt)))
